-- ===== src/Keeperd/Provisioning.antt =====
-- cmd/keeperd/provisioning.go: how an agent is made and destroyed. `Runtime` is the container
-- runtime and what of packages os, net and os/exec is used; a command is a number. Nothing else
-- changes the daemon between the steps of one call. Log lines are left out.
use vivary.Prelude.{
  ℕ, zero, suc, ◌⊎◌, inl, inr, Bool, true, false, Option, none, some, List, [], ◌∷◌, ◌==◌,
  if◌then◌else◌, Str, bytes, str_eq,
}
use vivary.Prelude.Act.{Act, ◌>>=◌, pure, tagged, check}
use vivary.Prelude.Map.{Map, lookup, insert, delete}
use vivary.Switchboard.Router.{Writer, add_pipe, remove_pipe}
use vivary.Config.Records.{Node, ℤ, pos, negsuc, ProviderConfig, AgentConfig}
use vivary.Config.Parse.{FileRead, load_providers_config}
use vivary.Config.Validate.{Invalid}
use vivary.Ctl.Requests.{AgentCreatePayload}
use vivary.Keeperd.State.{AgentState, Daemon}
use vivary.Keeperd.Handlers.{update_agent}
use vivary.Keeperd.AgentKdl.{Verbs}

pub record WardConfig : Type 0 where
  pub cpu_shares : ℕ
  pub memory_max_bytes : ℕ
  pub provider : Str
  pub log_level : Str

-- The browser manager, whose errors are only logged
pub record BrowserSessions {ℓ} (W : Type ℓ) : Type ℓ where
  pub set_headless : Str → Bool → W → W
  pub release : Str → W → W

pub record Runtime {ℓ} (W : Type ℓ) : Type ℓ where
  pub provision_subvolume : Str → Str → Act W Str
  pub destroy_subvolume : Str → Str → W → W
  pub install_capability_clis : Str → List Str → W → Option Str × W
  pub spawn_ward : Str → Str → WardConfig → Act W ℕ
  pub stdin_pipe : ℕ → Act W (Writer W)
  pub stdout_pipe : ℕ → W → Option Str × W
  pub start : ℕ → W → Option Str × W
  pub apply_network_rules : Str → List Str → W → W
  pub remove_network_rules : Str → W → W
  pub terminate : Option (Str → W → W)
  pub read_file : Str → W → FileRead
  pub write_file : Str → Str → W → Option Str × W
  pub parse : Str → Str ⊎ List Node
  pub hostname : Str → Str ⊎ Str
  pub lookup_host : Str → W → Str ⊎ List Str
  pub is_ipv4 : Str → Bool
  pub verbs : Verbs
  pub describe : Invalid → Str

-- The fields of the daemon's own configuration that are read here
pub record Settings : Type 0 where
  pub log_level : Str
  pub providers_file : Str

-- What a failure undoes
abbrev pub Undo {ℓ} : Type ℓ → Type 0 → Type ℓ
Undo W F = Daemon W F → W → Daemon W F × W

abbrev pub Outcome {ℓ} : Type ℓ → Type 0 → Type ℓ
Outcome W F = Option Str × (Daemon W F × W)

module _ {F : Type 0} (zero_cost : F) where
  -- `&agentState{id: id, subvolPath: subvolPath}`
  abbrev pub new_agent : Str → Str → AgentState F
  new_agent id subvol_path = record {
    id = id;
    subvol_path = subvol_path;
    has_pipe = false;
    last_prompt_seq = 0;
    last_event_at = none;
    last_outcome = [];
    last_failure_detail = [];
    model = [];
    input_tokens = 0;
    output_tokens = 0;
    cost_usd = zero_cost;
    tool_calls = 0;
  }

abbrev is_zero : ℤ → Bool
is_zero (pos zero) = true
is_zero (pos (suc n)) = false
is_zero (negsuc n) = false

-- The configuration of the request, and then of the template
abbrev pub merged : AgentCreatePayload → AgentConfig → AgentConfig
merged req template = record {
  id = req.id;
  provider = req.provider;
  cpu_shares = if req.cpu_shares == 0 then 1024 else req.cpu_shares;
  memory_max_bytes = req.memory_max_bytes;
  schema_error_retries =
      if is_zero template.schema_error_retries then pos 1 else template.schema_error_retries;
  headless = template.headless;
  capabilities = template.capabilities;
}

module _ {ℓ} {W : Type ℓ} {F : Type 0} where
  -- The cleanup stack, the last entry first
  unfoldable pub unwind : List (Undo W F) → Daemon W F → W → Daemon W F × W
  unwind [] d w = (d, w)
  unwind (u ∷ undo) d w = let s = u d w in unwind undo s.0 s.1

  abbrev pub put_agent : Str → AgentState F → Daemon W F → Daemon W F
  put_agent id a d = record d { agents = insert id a d.agents }

  abbrev pub drop_agent : Str → Daemon W F → Daemon W F
  drop_agent id d = record d { agents = delete id d.agents }

  -- A failed step: the cleanup, and then the reserved slot is given back.
  abbrev pub failed : Str → List (Undo W F) → Str → Daemon W F → W → Outcome W F
  failed id undo message d w = let s = unwind undo d w in (some message, (drop_agent id s.0, s.1))

  -- The goroutine that waits for the ward: the agent's pipe goes, its state stays.
  unfoldable pub ward_exited : Str → Daemon W F → Daemon W F
  ward_exited id d = record d { router = remove_pipe id d.router }

-- The loop that keeps the IPv4 addresses
unfoldable pub ipv4_only : (Str → Bool) → List Str → List Str
ipv4_only test [] = []
ipv4_only test (a ∷ addrs) = let rest = ipv4_only test addrs in if test a then a ∷ rest else rest

module _ {ℓ} {W : Type ℓ} (rt : Runtime W) (settings : Settings) where
  abbrev ipv4_of : Str → Str ⊎ List Str → Str ⊎ List Str
  ipv4_of name (inl e) = inl e
  ipv4_of name (inr addrs) = inr (ipv4_only rt.is_ipv4 addrs)

  abbrev lookup_ips : Str → W → Str ⊎ Str → Str ⊎ List Str
  lookup_ips name w (inl e) = inl e
  lookup_ips name w (inr host) = ipv4_of name (rt.lookup_host host w)

  abbrev provider_ips : Str → W → Option ProviderConfig → Str ⊎ List Str
  provider_ips name w none = inl (bytes "not found")
  provider_ips name w (some p) =
      if str_eq p.api_url []
      then inl (bytes "has no api-url")
      else lookup_ips name w (rt.hostname p.api_url)

  abbrev in_providers : Str → W → Str ⊎ Map ProviderConfig → Str ⊎ List Str
  in_providers name w (inl e) = inl e
  in_providers name w (inr providers) = provider_ips name w (lookup name providers)

  -- `resolveProviderIPs`; the messages, which are only logged, are cut short.
  unfoldable pub resolve_provider_ips : Str → W → Str ⊎ List Str
  resolve_provider_ips name w =
      if str_eq name []
      then inr []
      else in_providers name w
          (load_providers_config rt.parse (rt.read_file settings.providers_file w))

  abbrev or_no_ips : Str ⊎ List Str → List Str
  or_no_ips (inl e) = []
  or_no_ips (inr ips) = ips

  -- The ward with its pipes, up to its start
  abbrev pub open_ward : Str → Str → AgentConfig → Act W (Writer W)
  open_ward id subvol_path cfg = do
    cmd ← rt.spawn_ward id subvol_path (record {
      cpu_shares = cfg.cpu_shares;
      memory_max_bytes = cfg.memory_max_bytes;
      provider = cfg.provider;
      log_level = settings.log_level;
    })
    stdin ← tagged (bytes "ward stdin pipe") (rt.stdin_pipe cmd)
    _ ← tagged (bytes "ward stdout pipe") (check (rt.stdout_pipe cmd))
    _ ← tagged (bytes "ward start") (check (rt.start cmd))
    pure stdin

  module _ {F : Type 0} where
    -- The pipe is registered, and the agent's state refers to it.
    abbrev pub connect : Str → Writer W → Daemon W F → Daemon W F
    connect id stdin d =
        update_agent id (λ a. record a { has_pipe = true })
          (record d { router = add_pipe (record { agent_id = id; writer = stdin }) d.router })

    abbrev pub opened : Str → AgentConfig → Daemon W F → (Str ⊎ Writer W) × W → Outcome W F
    opened id cfg d (inl e, w) = (some e, (d, w))
    opened id cfg d (inr stdin, w) = (
      none,
      (
        connect id stdin d,
        rt.apply_network_rules id (or_no_ips (resolve_provider_ips cfg.provider w)) w,
      ),
    )

    -- `spawnAgent`
    unfoldable pub spawn_agent : Str → Str → AgentConfig → Daemon W F → W → Outcome W F
    spawn_agent id subvol_path cfg d w = opened id cfg d (open_ward id subvol_path cfg w)
