-- ===== src/Keeperd/Provided.antt =====
-- What agentCreate and agentDestroy of cmd/keeperd/provisioning.go leave alone: the push channels.
use vivary.Prelude.{◌≡◌, refl, ◌⊎◌, inl, inr, Option, none, some, [], Bool-cases, Str, str_eq}
use vivary.Prelude.Map.{lookup}
use vivary.Config.Records.{AgentConfig}
use vivary.Config.Validate.{Invalid, validate_agent_id}
use vivary.Switchboard.Router.{Writer}
use vivary.Capabilities.Dispatch.{set_acl}
use vivary.Ctl.Requests.{AgentCreatePayload}
use vivary.Keeperd.State.{AgentState, Daemon}
use vivary.Keeperd.Handlers.{update_agent}
use vivary.Keeperd.Provisioning.{
  Runtime, BrowserSessions, Settings, Outcome, open_ward, put_agent, new_agent, unwind, opened,
  spawn_agent,
}
use vivary.Keeperd.Lifecycle.{
  set_headless, spawned, installed, written, templated, provisioned, reserve, validated,
  destroy_found, agent_create, agent_destroy, provision,
}
use vivary.Keeperd.AgentAcl.{acl_of}
use vivary.Keeperd.Subs.{LeavesSubs}

module _ {ℓ} {W : Type ℓ} {F : Type 0} (rt : Runtime W) (browser : Option (BrowserSessions W))
    (settings : Settings) (zero_cost : F) where
  -- The outcome of a call leaves the push channels of the daemon before it.
  abbrev IsCalm : Daemon W F → Outcome W F → Type 0
  IsCalm d r = r.1.0.ctl_subs ≡ d.ctl_subs

  opened-IsCalm :
      (id : Str) (cfg : AgentConfig) (d : Daemon W F) (r : (Str ⊎ Writer W) × W)
      → IsCalm d (opened rt settings id cfg d r)
  unfolding update_agent
  opened-IsCalm id cfg d (inl e, w) = refl
  opened-IsCalm id cfg d (inr stdin, w) = refl

  spawned-IsCalm :
      (id subvol_path : Str) (d : Daemon W F) (r : Outcome W F)
      → IsCalm d r
      → IsCalm d (spawned rt browser settings zero_cost id subvol_path r)
  unfolding unwind
  spawned-IsCalm id subvol_path d (none, s) h = h
  spawned-IsCalm id subvol_path d (some e, (d', w)) h = h

  installed-IsCalm :
      (req : AgentCreatePayload) (subvol_path : Str) (cfg : AgentConfig) (d : Daemon W F)
      (r : Option Str × W)
      → IsCalm d (installed rt browser settings zero_cost req subvol_path cfg d r)
  unfolding unwind spawn_agent
  installed-IsCalm req subvol_path cfg d (some e, w) = refl
  installed-IsCalm req subvol_path cfg d (none, w) =
      let d' =
        put_agent req.id (new_agent zero_cost req.id subvol_path)
          (record d { dispatcher = set_acl (acl_of req.id subvol_path cfg) d.dispatcher }) in
      let w' = set_headless rt browser settings zero_cost browser req.id cfg.headless w in
      spawned-IsCalm req.id subvol_path d (spawn_agent rt settings req.id subvol_path cfg d' w')
        (opened-IsCalm req.id cfg d' (open_ward rt settings req.id subvol_path cfg w'))

  written-IsCalm :
      (req : AgentCreatePayload) (subvol_path : Str) (cfg : AgentConfig) (d : Daemon W F)
      (r : Option Str × W)
      → IsCalm d (written rt browser settings zero_cost req subvol_path cfg d r)
  unfolding unwind
  written-IsCalm req subvol_path cfg d (some e, w) = refl
  written-IsCalm req subvol_path cfg d (none, w) = installed-IsCalm req subvol_path cfg d _

  templated-IsCalm :
      (req : AgentCreatePayload) (subvol_path : Str) (d : Daemon W F) (w : W)
      (r : Str ⊎ AgentConfig)
      → IsCalm d (templated rt browser settings zero_cost req subvol_path d w r)
  unfolding unwind
  templated-IsCalm req subvol_path d w (inl e) = refl
  templated-IsCalm req subvol_path d w (inr cfg) = written-IsCalm req subvol_path _ d _

  provisioned-IsCalm :
      (req : AgentCreatePayload) (d : Daemon W F) (r : (Str ⊎ Str) × W)
      → IsCalm d (provisioned rt browser settings zero_cost req d r)
  unfolding unwind
  provisioned-IsCalm req d (inl e, w) = refl
  provisioned-IsCalm req d (inr subvol_path, w) = templated-IsCalm req subvol_path d w _

  reserve-IsCalm :
      (req : AgentCreatePayload) (d : Daemon W F) (w : W) (a : Option (AgentState F))
      → IsCalm d (reserve rt browser settings zero_cost req d w a)
  reserve-IsCalm req d w (some a) = refl
  reserve-IsCalm req d w none = provisioned-IsCalm req _ _

  validated-IsCalm :
      (req : AgentCreatePayload) (d : Daemon W F) (w : W) (e : Option Invalid)
      → IsCalm d (validated rt browser settings zero_cost req d w e)
  validated-IsCalm req d w (some e) = refl
  validated-IsCalm req d w none = reserve-IsCalm req d w _

  destroy_found-IsCalm :
      (id : Str) (d : Daemon W F) (w : W) (a : Option (AgentState F))
      → IsCalm d (destroy_found rt browser settings zero_cost id d w a)
  destroy_found-IsCalm id d w none = refl
  destroy_found-IsCalm id d w (some a) = refl

  -- agentCreate and agentDestroy leave the push channels alone, on every path.
  pub provision-LeavesSubs : LeavesSubs (provision rt browser settings zero_cost)
  unfolding provision agent_create agent_destroy
  provision-LeavesSubs = record {
    create = λ req d w. elim (Bool-cases (str_eq req.id [])) [
      | inl e ↦ rw e refl
      | inr e ↦ rw e (validated-IsCalm req d w (validate_agent_id req.id))
    ];
    destroy = λ req d w. destroy_found-IsCalm req.id d w (lookup req.id d.agents);
  }
