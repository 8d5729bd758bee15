-- ===== src/Keeperd/Lifecycle.antt =====
-- cmd/keeperd/provisioning.go `agentCreate` and `agentDestroy`.
use vivary.Prelude.{
  ◌⊎◌, inl, inr, Bool, Option, none, some, List, [], ◌∷◌, ◌++◌, if◌then◌else◌, Str, bytes, str_eq,
}
use vivary.Prelude.Map.{lookup}
use vivary.Switchboard.Router.{remove_pipe}
use vivary.Capabilities.Dispatch.{set_acl, remove_acl, names}
use vivary.Capabilities.Paths.{join}
use vivary.Config.Records.{AgentConfig}
use vivary.Config.Parse.{load_template_agent_config}
use vivary.Config.Validate.{Invalid, validate_agent_id}
use vivary.Ctl.Requests.{AgentCreatePayload, AgentDestroyPayload}
use vivary.Keeperd.State.{AgentState, Daemon}
use vivary.Keeperd.AgentAcl.{acl_of}
use vivary.Keeperd.AgentKdl.{agent_kdl}
use vivary.Keeperd.Provisioning.{
  Runtime, BrowserSessions, Settings, Undo, Outcome, new_agent, merged, put_agent, drop_agent,
  failed, spawn_agent,
}
use vivary.Keeperd.Ctl.{Provision}

abbrev kdl_path : Str → Str
kdl_path subvol_path = join subvol_path (bytes "agent.kdl")

module _ {ℓ} {W : Type ℓ} {F : Type 0} (rt : Runtime W) (browser : Option (BrowserSessions W))
    (settings : Settings) (zero_cost : F) where
  abbrev pub set_headless : Option (BrowserSessions W) → Str → Bool → W → W
  set_headless none id headless w = w
  set_headless (some b) id headless w = b.set_headless id headless w

  abbrev release_browser : Option (BrowserSessions W) → Str → W → W
  release_browser none id w = w
  release_browser (some b) id w = b.release id w

  abbrev pub undo_subvolume : Str → Str → Undo W F
  undo_subvolume id subvol_path d w = (d, rt.destroy_subvolume id subvol_path w)

  abbrev pub undo_browser : Str → Undo W F
  undo_browser id d w = (d, release_browser browser id w)

  abbrev pub undo_acl : Str → Undo W F
  undo_acl id d w = (record d { dispatcher = remove_acl id d.dispatcher }, w)

  abbrev pub all_undo : Str → Str → List (Undo W F)
  all_undo id subvol_path = undo_acl id ∷ undo_browser id ∷ undo_subvolume id subvol_path ∷ []

  abbrev pub spawned : Str → Str → Outcome W F → Outcome W F
  spawned id subvol_path (none, s) = (none, s)
  spawned id subvol_path (some e, (d, w)) =
      failed id (all_undo id subvol_path) (bytes "spawn agent: " ++ e) d w

  -- The access list, the agent's state, and the ward
  abbrev pub admit : AgentCreatePayload → Str → AgentConfig → Daemon W F → W → Outcome W F
  admit req subvol_path cfg d w = spawned req.id subvol_path (
      spawn_agent rt settings req.id subvol_path cfg
        (put_agent req.id (new_agent zero_cost req.id subvol_path)
          (record d { dispatcher = set_acl (acl_of req.id subvol_path cfg) d.dispatcher }))
        (set_headless browser req.id cfg.headless w))

  abbrev pub installed :
      AgentCreatePayload → Str → AgentConfig → Daemon W F → Option Str × W → Outcome W F
  installed req subvol_path cfg d (some e, w) =
      failed req.id (undo_subvolume req.id subvol_path ∷ [])
        (bytes "install capability CLIs: " ++ e) d w
  installed req subvol_path cfg d (none, w) = admit req subvol_path cfg d w

  abbrev pub written :
      AgentCreatePayload → Str → AgentConfig → Daemon W F → Option Str × W → Outcome W F
  written req subvol_path cfg d (some e, w) =
      failed req.id (undo_subvolume req.id subvol_path ∷ []) (bytes "write agent.kdl: " ++ e) d w
  written req subvol_path cfg d (none, w) =
      installed req subvol_path cfg d
        (rt.install_capability_clis subvol_path (names d.dispatcher.registry) w)

  abbrev pub templated : AgentCreatePayload → Str → Daemon W F → W → Str ⊎ AgentConfig → Outcome W F
  templated req subvol_path d w (inl e) =
      failed req.id (undo_subvolume req.id subvol_path ∷ [])
        (bytes "load template agent config: " ++ e) d w
  templated req subvol_path d w (inr template) =
      written req subvol_path (merged req template) d
        (rt.write_file (kdl_path subvol_path) (agent_kdl rt.verbs (merged req template)) w)

  abbrev pub provisioned : AgentCreatePayload → Daemon W F → (Str ⊎ Str) × W → Outcome W F
  provisioned req d (inl e, w) = failed req.id [] (bytes "provision subvolume: " ++ e) d w
  provisioned req d (inr subvol_path, w) =
      templated req subvol_path d w
        (load_template_agent_config rt.parse (rt.read_file (kdl_path subvol_path) w))

  abbrev pub reserve : AgentCreatePayload → Daemon W F → W → Option (AgentState F) → Outcome W F
  reserve req d w (some a) =
      (some (bytes "agent " ++ rt.verbs.quote req.id ++ bytes " already exists"), (d, w))
  reserve req d w none =
      provisioned req (put_agent req.id (new_agent zero_cost req.id []) d)
        (rt.provision_subvolume req.id req.template w)

  abbrev pub validated : AgentCreatePayload → Daemon W F → W → Option Invalid → Outcome W F
  validated req d w (some e) = (some (rt.describe e), (d, w))
  validated req d w none = reserve req d w (lookup req.id d.agents)

  -- `agentCreate`
  unfoldable pub agent_create : AgentCreatePayload → Daemon W F → W → Outcome W F
  agent_create req d w =
      if str_eq req.id []
      then (some (bytes "agent ID is required"), (d, w))
      else validated req d w (validate_agent_id req.id)

  abbrev call_terminate : Option (Str → W → W) → Str → W → W
  call_terminate none id w = w
  call_terminate (some terminate) id w = terminate id w

  abbrev pub destroy_found : Str → Daemon W F → W → Option (AgentState F) → Outcome W F
  destroy_found id d w none =
      (some (bytes "agent " ++ rt.verbs.quote id ++ bytes " not found"), (d, w))
  destroy_found id d w (some a) =
      let d' = record (drop_agent id d) {
        router = remove_pipe id d.router;
        dispatcher = remove_acl id d.dispatcher;
      } in
      let w1 = release_browser browser id w in
      let w2 = call_terminate rt.terminate id (rt.remove_network_rules id w1) in
      (none, (d', if str_eq a.subvol_path [] then w2 else rt.destroy_subvolume id a.subvol_path w2))

  -- `agentDestroy`
  unfoldable pub agent_destroy : AgentDestroyPayload → Daemon W F → W → Outcome W F
  agent_destroy req d w = destroy_found req.id d w (lookup req.id d.agents)

  -- The two calls as `dispatchCtl` makes them
  unfoldable pub provision : Provision W F
  provision = record { create = agent_create; destroy = agent_destroy }
