-- ===== src/Keeperd/Ctl.antt =====
-- cmd/keeperd/main.go: the requests of control clients. `Provision` is what agentCreate and
-- agentDestroy of provisioning.go do to the daemon; an error is its message. `Formats` is the
-- formatting of times and of costs.
use vivary.Prelude.{
  ℕ, Bool, not, Option, none, some, List, [], ◌∷◌, ◌++◌, map, ◌==◌, if◌then◌else◌, Str, bytes,
}
use vivary.Prelude.Map.{lookup, values}
use vivary.Mus.{Result, ok, err, panicked, append_string}
use vivary.Mus.Errors.{error_text}
use vivary.Switchboard.MsgType
use vivary.Switchboard.Router.{SendError, no_pipe, write_failed, send, seq_next}
use vivary.Ctl.Requests.{
  AgentCreatePayload, unmarshal_agent_create, AgentDestroyPayload, unmarshal_agent_destroy,
  PromptPayload, unmarshal_prompt,
}
use vivary.Ctl.Status.{AgentStatus, marshal_status, marshal_agent_list}
use vivary.Keeperd.State.{AgentState, Daemon, fresh_header, keeper}
use vivary.Keeperd.Handlers.{memory, update_agent}

pub record Formats (F : Type 0) : Type 0 where
  pub time : ℕ → Str
  pub cost : F → Str
  pub is_free : F → Bool

pub record Provision {ℓ} (W : Type ℓ) (F : Type 0) : Type ℓ where
  pub create : AgentCreatePayload → Daemon W F → W → Option Str × (Daemon W F × W)
  pub destroy : AgentDestroyPayload → Daemon W F → W → Option Str × (Daemon W F × W)

-- `errorPayload`
unfoldable pub error_payload : Str → List ℕ
error_payload message = append_string (0 ∷ []) message

abbrev pub done : List ℕ
done = 1 ∷ []

abbrev pub outcome_payload : Option Str → List ℕ
outcome_payload none = done
outcome_payload (some message) = error_payload message

module _ {F : Type 0} (formats : Formats F) where
  abbrev shown_time : Option ℕ → Str
  shown_time none = []
  shown_time (some t) = formats.time t

  -- One round of `buildAgentStatusList`
  unfoldable pub agent_status : AgentState F → AgentStatus
  agent_status a = record {
    id = a.id;
    state = if a.has_pipe then bytes "running" else bytes "idle";
    last_prompt_seq = a.last_prompt_seq;
    last_event_at = shown_time a.last_event_at;
    last_outcome = a.last_outcome;
    last_failure_detail = a.last_failure_detail;
    model = a.model;
    input_tokens = a.input_tokens;
    output_tokens = a.output_tokens;
    cost_usd = if formats.is_free a.cost_usd then [] else formats.cost a.cost_usd;
    tool_calls = a.tool_calls;
  }

  -- `buildAgentStatusList`, in the order of Go's `range`, which is open
  unfoldable pub build_agent_status_list {ℓ} : {W : Type ℓ} → Daemon W F → List AgentStatus
  build_agent_status_list d = map agent_status (values d.agents)

  -- `buildStatus`, `uptime` seconds after the start
  unfoldable pub build_status {ℓ} : {W : Type ℓ} → Str → ℕ → Daemon W F → List ℕ
  build_status version uptime d = marshal_status (record {
    daemon_version = version;
    uptime_seconds = uptime;
    agents = build_agent_status_list d;
  })

  -- `buildAgentList`
  unfoldable pub build_agent_list {ℓ} : {W : Type ℓ} → Daemon W F → List ℕ
  build_agent_list d = marshal_agent_list (build_agent_status_list d)

-- The header and the payload of a reply, the daemon and the world.
pub record Reply {ℓ} (W : Type ℓ) (F : Type 0) : Type ℓ where
  pub type : ℕ
  pub payload : List ℕ
  pub daemon : Daemon W F
  pub world : W

abbrev send_text : (Str → Str) → SendError → Str
send_text quote (no_pipe id) = bytes "router: no pipe registered for " ++ quote id
send_text quote (write_failed e) = error_text e

module _ {ℓ} {W : Type ℓ} {F : Type 0} (quote : Str → Str) where
  abbrev pub forwarded : Str → Daemon W F → Option SendError × W → Option Str × (Daemon W F × W)
  forwarded id d (none, w) = (none, (d, w))
  forwarded id d (some e, w) = (
    some (bytes "forward prompt to agent " ++ quote id ++ bytes ": " ++ send_text quote e),
    (d, w),
  )

  abbrev pub prompt_agent :
      PromptPayload
      → List ℕ
      → Daemon W F
      → W
      → Option (AgentState F)
      → Option Str × (Daemon W F × W)
  prompt_agent req payload d w none =
      (some (bytes "agent " ++ quote req.agent_id ++ bytes " not found"), (d, w))
  prompt_agent req payload d w (some a) =
      if not a.has_pipe
      then (
        some
            (bytes "agent " ++ quote req.agent_id ++ bytes " has no active pipe (not yet spawned)"),
        (d, w),
      )
      else let recorded =
          update_agent req.agent_id (λ b. record b { last_prompt_seq = req.seq }) d in
        let (seq, counter) = seq_next d.seq_out in
        forwarded req.agent_id (record recorded { seq_out = counter })
          (send d.router req.agent_id (fresh_header MsgType.ctl_prompt keeper req.agent_id seq)
            payload w)

  abbrev pub decoded_prompt :
      List ℕ → Daemon W F → W → Result (PromptPayload × List ℕ) → Option Str × (Daemon W F × W)
  decoded_prompt payload d w (err e) =
      (some (bytes "invalid PromptPayload: " ++ error_text e), (d, w))
  decoded_prompt payload d w panicked = (some [], (d, w))
  decoded_prompt payload d w (ok (req, rest)) =
      prompt_agent req payload d w (lookup req.agent_id d.agents)

  -- `dispatchPrompt`; its decoder makes no slice, and so does not panic.
  unfoldable pub dispatch_prompt : List ℕ → Daemon W F → W → Option Str × (Daemon W F × W)
  dispatch_prompt payload d w = decoded_prompt payload d w (unmarshal_prompt memory payload)

  abbrev pub replied : ℕ → Option Str × (Daemon W F × W) → Reply W F
  replied type (outcome, (d, w)) = record {
    type = type;
    payload = outcome_payload outcome;
    daemon = d;
    world = w;
  }

  module _ (provision : Provision W F) where
    -- A payload that does not decode: the type of the reply is still 0. The decoders of these two
    -- requests make no slice, so the case `panicked` does not occur.
    abbrev pub created : Daemon W F → W → Result (AgentCreatePayload × List ℕ) → Reply W F
    created d w (ok (req, rest)) = replied MsgType.ctl_agent_create (provision.create req d w)
    created d w (err e) = record {
      type = 0;
      payload = error_payload (error_text e);
      daemon = d;
      world = w;
    }
    created d w panicked = record { type = 0; payload = []; daemon = d; world = w }

    abbrev pub destroyed : Daemon W F → W → Result (AgentDestroyPayload × List ℕ) → Reply W F
    destroyed d w (ok (req, rest)) = replied MsgType.ctl_agent_destroy (provision.destroy req d w)
    destroyed d w (err e) = record {
      type = 0;
      payload = error_payload (error_text e);
      daemon = d;
      world = w;
    }
    destroyed d w panicked = record { type = 0; payload = []; daemon = d; world = w }

    -- `dispatchCtl`
    unfoldable pub dispatch_ctl : Formats F → Str → ℕ → ℕ → List ℕ → Daemon W F → W → Reply W F
    dispatch_ctl formats version uptime type payload d w =
        if type == MsgType.ctl_status
        then record {
          type = type;
          payload = build_status formats version uptime d;
          daemon = d;
          world = w;
        }
        else if type == MsgType.ctl_agent_list
        then record { type = type; payload = build_agent_list formats d; daemon = d; world = w }
        else if type == MsgType.ctl_agent_create
        then created d w (unmarshal_agent_create memory payload)
        else if type == MsgType.ctl_agent_destroy
        then destroyed d w (unmarshal_agent_destroy memory payload)
        else if type == MsgType.ctl_prompt
        then replied type (dispatch_prompt payload d w)
        else if type == MsgType.ping
        then record { type = MsgType.pong; payload = []; daemon = d; world = w }
        else if type == MsgType.ctl_approval
        then record {
          type = type;
          payload = error_payload (bytes "approval gate not yet implemented (Phase 2)");
          daemon = d;
          world = w;
        }
        else record { type = 0; payload = []; daemon = d; world = w }
