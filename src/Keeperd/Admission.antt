-- ===== src/Keeperd/Admission.antt =====
-- What `agentCreate` and `agentDestroy` leave behind.
use vivary.Prelude.{
  ◌≡◌, refl, sym, ap, ◌∙◌, ◌⊎◌, inl, inr, true, false, Option, none, some, [], Bool-cases, Str,
  bytes, str_eq, str_eq_iff, str_eq_self,
}
use vivary.Prelude.Map.{Map, lookup, insert, delete, lookup-insert, lookup-delete}
use vivary.Switchboard.Router.{Endpoint, Writer, add_pipe}
use vivary.Capabilities.Dispatch.{Acl, set_acl, remove_acl}
use vivary.Capabilities.Paths.{join}
use vivary.Config.Records.{AgentConfig}
use vivary.Config.Parse.{load_template_agent_config}
use vivary.Config.Validate.{Invalid}
use vivary.Ctl.Requests.{AgentCreatePayload}
use vivary.Keeperd.State.{AgentState, Daemon}
use vivary.Keeperd.Handlers.{update_agent}
use vivary.Keeperd.AgentAcl.{acl_of}
use vivary.Keeperd.Provisioning.{
  Runtime, BrowserSessions, Settings, Outcome, new_agent, merged, unwind, put_agent, drop_agent,
  connect, opened, spawn_agent,
}
use vivary.Keeperd.Lifecycle.{
  spawned, installed, written, templated, provisioned, reserve, validated, agent_create,
}

-- Two daemons that no lookup tells apart: the agents, the access lists, the pipes, and the rest
pub record IsAlike {ℓ} {W : Type ℓ} {F : Type 0} (d d' : Daemon W F) : Type ℓ where
  pub agents : (id : Str) → lookup id d'.agents ≡ lookup id d.agents
  pub acls : (id : Str) → lookup id d'.dispatcher.acls ≡ lookup id d.dispatcher.acls
  pub registry : d'.dispatcher.registry ≡ d.dispatcher.registry
  pub router : d'.router ≡ d.router
  pub seq_out : d'.seq_out ≡ d.seq_out
  pub ctl_subs : d'.ctl_subs ≡ d.ctl_subs

-- The configuration that stands in agent.kdl of the directory that was made for the agent.
pub record IsTemplate {ℓ} {W : Type ℓ} (rt : Runtime W) (req : AgentCreatePayload) (w : W)
    (subvol_path : Str) (template : AgentConfig) : Type ℓ where
  pub made : W
  pub provisioned : rt.provision_subvolume req.id req.template w ≡ (inr subvol_path, made)
  pub read :
      load_template_agent_config rt.parse (rt.read_file (join subvol_path (bytes "agent.kdl")) made)
      ≡ inr template

-- The agent is there with an open pipe and the access list of its configuration, and no other agent
-- has changed.
pub record IsAdmitted {ℓ} {W : Type ℓ} {F : Type 0} (rt : Runtime W) (zero_cost : F)
    (req : AgentCreatePayload) (d d' : Daemon W F) (w : W) : Type ℓ where
  pub subvol_path : Str
  pub template : AgentConfig
  pub origin : IsTemplate rt req w subvol_path template
  pub pipe : Endpoint W
  pub agent :
      lookup req.id d'.agents
      ≡ some (record (new_agent zero_cost req.id subvol_path) { has_pipe = true })
  pub acl : lookup req.id d'.dispatcher.acls ≡ some (acl_of req.id subvol_path template)
  pub connected : lookup req.id d'.router.pipes ≡ some pipe
  pub other_agents :
      (id : Str) → str_eq req.id id ≡ false → lookup id d'.agents ≡ lookup id d.agents
  pub other_acls :
      (id : Str)
      → str_eq req.id id ≡ false
      → lookup id d'.dispatcher.acls ≡ lookup id d.dispatcher.acls
  pub other_pipes :
      (id : Str) → str_eq req.id id ≡ false → lookup id d'.router.pipes ≡ lookup id d.router.pipes
  pub registry : d'.dispatcher.registry ≡ d.dispatcher.registry

-- A call fails and leaves the daemon alike, or admits the agent.
abbrev pub Settled {ℓ} :
    {W : Type ℓ} {F : Type 0}
    → Runtime W
    → F
    → AgentCreatePayload
    → Daemon W F
    → W
    → Outcome W F
    → Type ℓ
Settled rt zero_cost req d w (some e, (d', w')) = IsAlike d d'
Settled rt zero_cost req d w (none, (d', w')) = IsAdmitted rt zero_cost req d d' w

module _ {ℓ} {W : Type ℓ} {F : Type 0} (rt : Runtime W) (browser : Option (BrowserSessions W))
    (settings : Settings) (zero_cost : F) (req : AgentCreatePayload) (d0 : Daemon W F) (w0 : W)
    (absent : lookup req.id d0.agents ≡ none)
    (unlisted : lookup req.id d0.dispatcher.acls ≡ none) where
  -- The daemon with the slot of the new agent
  abbrev reserved : Daemon W F
  reserved = put_agent req.id (new_agent zero_cost req.id []) d0

  given_back :
      (agents : Map (AgentState F)) (a : AgentState F) (id : Str)
      → ((j : Str) → str_eq req.id j ≡ false → lookup j agents ≡ lookup j d0.agents)
      → lookup id (delete req.id agents) ≡ lookup id d0.agents
  given_back agents a id same_others = elim (Bool-cases (str_eq req.id id)) [
    | inl same ↦
        rw (lookup-delete, same)
          (sym absent ∙ ap (λ j. lookup j d0.agents) ((str_eq_iff req.id id).0 same))
    | inr other ↦ rw (lookup-delete, other) (same_others id other)
  ]

  IsAlike-reserved : IsAlike d0 (drop_agent req.id reserved)
  IsAlike-reserved = record {
    agents = λ id.
        given_back _ (new_agent zero_cost req.id []) id (λ j other. rw (lookup-insert, other) refl);
    acls = λ id. refl;
    registry = refl;
    router = refl;
    seq_out = refl;
    ctl_subs = refl;
  }

  taken_back :
      (acl : Acl) (id : Str)
      → acl.agent_id ≡ req.id
      → lookup id (delete req.id (insert acl.agent_id acl d0.dispatcher.acls))
        ≡ lookup id d0.dispatcher.acls
  taken_back acl id owner = elim (Bool-cases (str_eq req.id id)) [
    | inl same ↦
        rw (lookup-delete, same)
          (sym unlisted ∙ ap (λ j. lookup j d0.dispatcher.acls) ((str_eq_iff req.id id).0 same))
    | inr other ↦ rw (lookup-delete, other, lookup-insert, owner, other) refl
  ]

  IsAlike-admitted :
      (subvol_path : Str) (cfg : AgentConfig)
      → IsAlike d0 (
          drop_agent req.id
            (record (put_agent req.id (new_agent zero_cost req.id subvol_path) reserved) {
              dispatcher =
                  remove_acl req.id (set_acl (acl_of req.id subvol_path cfg) d0.dispatcher);
            }))
  unfolding remove_acl set_acl acl_of
  IsAlike-admitted subvol_path cfg = record {
    agents = λ id.
        given_back _ (new_agent zero_cost req.id []) id
          (λ j other. rw (lookup-insert, other, lookup-insert, other) refl);
    acls = λ id. taken_back (acl_of req.id subvol_path cfg) id refl;
    registry = refl;
    router = refl;
    seq_out = refl;
    ctl_subs = refl;
  }

  IsAdmitted-connect :
      (subvol_path : Str) (template : AgentConfig) (stdin : Writer W)
      → IsTemplate rt req w0 subvol_path template
      → IsAdmitted rt zero_cost req d0
          (connect rt settings req.id stdin (
            put_agent req.id (new_agent zero_cost req.id subvol_path) (record reserved {
              dispatcher = set_acl (acl_of req.id subvol_path (merged req template)) d0.dispatcher;
            })))
          w0
  unfolding set_acl acl_of update_agent add_pipe
  IsAdmitted-connect subvol_path template stdin origin =
      let mine = str_eq_self req.id in
      rw (lookup-insert, mine)
        (record {
          subvol_path = subvol_path;
          template = template;
          origin = origin;
          pipe = record { agent_id = req.id; writer = stdin };
          agent = rw (lookup-insert, mine) refl;
          acl = rw (lookup-insert, mine) refl;
          connected = rw (lookup-insert, mine) refl;
          other_agents = λ id other.
              rw (lookup-insert, other, lookup-insert, other, lookup-insert, other) refl;
          other_acls = λ id other. rw (lookup-insert, other) refl;
          other_pipes = λ id other. rw (lookup-insert, other) refl;
          registry = refl;
        })

  alike_spawned :
      (subvol_path : Str) (template : AgentConfig) (r : (Str ⊎ Writer W) × W)
      → IsTemplate rt req w0 subvol_path template
      → Settled rt zero_cost req d0 w0 (
          spawned rt browser settings zero_cost req.id subvol_path (
            opened rt settings req.id
              (merged req template)
              (put_agent req.id (new_agent zero_cost req.id subvol_path) (record reserved {
                dispatcher =
                    set_acl (acl_of req.id subvol_path (merged req template)) d0.dispatcher;
              }))
              r))
  unfolding unwind
  alike_spawned subvol_path template (inl e, w) origin =
      IsAlike-admitted subvol_path (merged req template)
  alike_spawned subvol_path template (inr stdin, w) origin =
      IsAdmitted-connect subvol_path template stdin origin

  alike_installed :
      (subvol_path : Str) (template : AgentConfig) (r : Option Str × W)
      → IsTemplate rt req w0 subvol_path template
      → Settled rt zero_cost req d0 w0
          (installed rt browser settings zero_cost req subvol_path (merged req template) reserved r)
  unfolding unwind spawn_agent
  alike_installed subvol_path template (some e, w) origin = IsAlike-reserved
  alike_installed subvol_path template (none, w) origin =
      alike_spawned subvol_path template _ origin

  alike_written :
      (subvol_path : Str) (template : AgentConfig) (r : Option Str × W)
      → IsTemplate rt req w0 subvol_path template
      → Settled rt zero_cost req d0 w0
          (written rt browser settings zero_cost req subvol_path (merged req template) reserved r)
  unfolding unwind
  alike_written subvol_path template (some e, w) origin = IsAlike-reserved
  alike_written subvol_path template (none, w) origin =
      alike_installed subvol_path template _ origin

  alike_templated :
      (subvol_path : Str) (w : W) (r : Str ⊎ AgentConfig)
      → rt.provision_subvolume req.id req.template w0 ≡ (inr subvol_path, w)
      → load_template_agent_config rt.parse (rt.read_file (join subvol_path (bytes "agent.kdl")) w)
        ≡ r
      → Settled rt zero_cost req d0 w0
          (templated rt browser settings zero_cost req subvol_path reserved w r)
  unfolding unwind
  alike_templated subvol_path w (inl e) made read = IsAlike-reserved
  alike_templated subvol_path w (inr template) made read =
      alike_written subvol_path template _ record { made = w; provisioned = made; read = read }

  alike_provisioned :
      (r : (Str ⊎ Str) × W)
      → rt.provision_subvolume req.id req.template w0 ≡ r
      → Settled rt zero_cost req d0 w0 (provisioned rt browser settings zero_cost req reserved r)
  unfolding unwind
  alike_provisioned (inl e, w) made = IsAlike-reserved
  alike_provisioned (inr subvol_path, w) made = alike_templated subvol_path w _ made refl

-- Every access list belongs to an agent.
pub record IsListed {ℓ} {W : Type ℓ} {F : Type 0} (d : Daemon W F) : Type ℓ where
  pub listed : (id : Str) → lookup id d.agents ≡ none → lookup id d.dispatcher.acls ≡ none

IsAlike-self {ℓ} : {W : Type ℓ} {F : Type 0} (d : Daemon W F) → IsAlike d d
IsAlike-self d = record {
  agents = λ id. refl;
  acls = λ id. refl;
  registry = refl;
  router = refl;
  seq_out = refl;
  ctl_subs = refl;
}

module _ {ℓ} {W : Type ℓ} {F : Type 0} (rt : Runtime W) (browser : Option (BrowserSessions W))
    (settings : Settings) (zero_cost : F) (req : AgentCreatePayload) (d : Daemon W F) (w : W)
    (h : IsListed d) where
  Settled-reserve :
      (o : Option (AgentState F))
      → lookup req.id d.agents ≡ o
      → Settled rt zero_cost req d w (reserve rt browser settings zero_cost req d w o)
  Settled-reserve (some a) e = IsAlike-self d
  Settled-reserve none e =
      alike_provisioned rt browser settings zero_cost req d w e (h.listed req.id e) _ refl

  Settled-validated :
      (o : Option Invalid)
      → Settled rt zero_cost req d w (validated rt browser settings zero_cost req d w o)
  Settled-validated (some e) = IsAlike-self d
  Settled-validated none = Settled-reserve _ refl

  -- Creating an agent either fails, at whatever step, and leaves the agents, access lists and pipes
  -- of the daemon as they were; or it succeeds, and then the agent is there, with a pipe and with
  -- exactly the access list of the configuration in agent.kdl of the directory that was made for it,
  -- and nothing of another agent has changed.
  -- Before, each access list belonged to an agent.
  pub agent_create-Settled :
      Settled rt zero_cost req d w (agent_create rt browser settings zero_cost req d w)
  unfolding agent_create
  agent_create-Settled = elim (Bool-cases (str_eq req.id [])) [
    | inl e ↦ rw e (IsAlike-self d)
    | inr e ↦ rw e (Settled-validated _)
  ]
