-- ===== src/Keeperd/AgentTests.antt =====
-- The life of an agent on a runtime whose world is the list of what was done.
use vivary.Prelude.{
  ℕ, ◌≡◌, refl, inl, inr, true, Option, none, some, List, [], ◌∷◌, ◌++◌, Bool-cases, Str, bytes,
  str_eq, str_eq_self,
}
use vivary.Prelude.Map.{empty, lookup, insert, lookup-insert, lookup-empty}
use vivary.Switchboard.Router.{no_pipe, send}
use vivary.Switchboard.Codec.{SwarmHeader}
use vivary.Capabilities.Dispatch.{Request, allowed, dispatch_request}
use vivary.Capabilities.Grants.{IsDenied}
use vivary.Config.Parse.{not_exist, default_config}
use vivary.Ctl.Requests.{AgentCreatePayload, AgentDestroyPayload}
use vivary.Keeperd.State.{AgentState, Daemon, fresh_header, keeper}
use vivary.Keeperd.Ctl.{Formats, agent_status}
use vivary.Keeperd.AgentAcl.{acl_of, configured, effective, IsAllowed, acl_of-allowed}
use vivary.Keeperd.Provisioning.{Runtime, BrowserSessions, Settings, new_agent, ward_exited}
use vivary.Keeperd.Lifecycle.{agent_create, agent_destroy}
use vivary.Keeperd.Admission.{IsListed, Settled, agent_create-Settled}
use vivary.Keeperd.Departure.{
  Call, creating, destroying, exiting, agent_destroy-IsDenied, ward_exited-unreachable,
}

abbrev World : Type 0
World = List Str

abbrev plain : Str → Str
plain s = s

abbrev pub runtime : Runtime World
runtime = record {
  provision_subvolume = λ id template w. (inr (bytes "/agents/" ++ id), w);
  destroy_subvolume = λ id path w. w ++ (path ∷ []);
  install_capability_clis = λ path names w. (none, w);
  spawn_ward = λ id path cfg w. (inr 1, w);
  stdin_pipe = λ cmd w. (inr (λ frame w'. (none, w' ++ (frame ∷ []))), w);
  stdout_pipe = λ cmd w. (none, w);
  start = λ cmd w. (some (bytes "no such file"), w);
  apply_network_rules = λ id ips w. w;
  remove_network_rules = λ id w. w;
  terminate = none;
  read_file = λ path w. not_exist;
  write_file = λ path text w. (none, w);
  parse = λ text. inr [];
  hostname = λ url. inl [];
  lookup_host = λ host w. inl [];
  is_ipv4 = λ a. true;
  verbs = record { quote = plain; decimal = λ n. n ∷ []; signed = λ n. [] };
  describe = λ e. bytes "invalid";
}

abbrev pub settings : Settings
settings = record { log_level = bytes "info"; providers_file = [] }

abbrev pub browser : Option (BrowserSessions World)
browser = none

abbrev agent : AgentState ℕ
agent = record (new_agent 0 (bytes "a") (bytes "/agents/a")) { has_pipe = true }

abbrev daemon : Daemon World ℕ
daemon = record {
  dispatcher = record {
    registry = empty;
    acls = insert (bytes "a") (acl_of (bytes "a") (bytes "/agents/a") default_config) empty;
  };
  router = record {
    pipes =
        insert (bytes "a") (record { agent_id = bytes "a"; writer = λ frame w. (none, w) }) empty;
    handlers = [];
    security = none;
  };
  seq_out = 0;
  agents = insert (bytes "a") agent empty;
  ctl_subs = [];
}

there : lookup (bytes "a") daemon.agents ≡ some agent
there = rw (lookup-insert, str_eq_self (bytes "a")) refl

listed : IsListed daemon
listed = record {
  listed = λ id e. elim (Bool-cases (str_eq (bytes "a") id)) [
    | inl same ↦ cc (rw (lookup-insert, same) at e)
    | inr other ↦ rw (lookup-insert, other) (lookup-empty id)
  ];
}

acl_of-allowed_example :
    IsAllowed
      (configured
        (bytes "Filesystem_File_Write")
        (effective (bytes "/agents/a") default_config.capabilities))
      (allowed
        (bytes "Filesystem_File_Write")
        (acl_of (bytes "a") (bytes "/agents/a") default_config).entries)
acl_of-allowed_example =
    acl_of-allowed (bytes "a") (bytes "/agents/a") (bytes "Filesystem_File_Write") default_config

abbrev wanted : AgentCreatePayload
wanted = record {
  id = bytes "b";
  provider = [];
  template = [];
  cpu_shares = 0;
  memory_max_bytes = 0;
}

agent_create-Settled_example :
    Settled runtime 0 wanted daemon [] (agent_create runtime browser settings 0 wanted daemon [])
agent_create-Settled_example =
    agent_create-Settled runtime browser settings 0 wanted daemon [] listed

abbrev unwanted : AgentDestroyPayload
unwanted = record { id = bytes "a" }

abbrev asked : Request
asked = record { name = bytes "Browser_Page_Read"; agent_id = bytes "a"; seq_no = 1; args = [] }

abbrev header : SwarmHeader
header = fresh_header 1 keeper (bytes "a") 1

agent_destroy-IsDenied_example :
    IsDenied [] (
      dispatch_request plain
        (agent_destroy runtime browser settings 0 unwanted daemon []).1.0.dispatcher
        asked
        [])
    × (send
          (agent_destroy runtime browser settings 0 unwanted daemon []).1.0.router
          (bytes "a")
          header
          []
          []
        ≡ (some (no_pipe (bytes "a")), []))
agent_destroy-IsDenied_example =
    agent_destroy-IsDenied runtime browser settings 0 unwanted daemon [] plain agent asked header []
      [] there refl

abbrev formats : Formats ℕ
formats = record { time = λ t. []; cost = λ c. []; is_free = λ c. true }

ward_exited-unreachable_example :
    (lookup (bytes "a") (ward_exited (bytes "a") daemon).agents ≡ some agent)
    × ((agent_status formats agent).state ≡ bytes "running")
    × (send (ward_exited (bytes "a") daemon).router (bytes "a") header [] []
        ≡ (some (no_pipe (bytes "a")), []))
ward_exited-unreachable_example =
    ward_exited-unreachable formats daemon (bytes "a") agent header [] [] there refl

abbrev calls : List Call
calls = creating wanted ∷ exiting (bytes "a") ∷ destroying unwanted ∷ []
