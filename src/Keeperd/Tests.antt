-- ===== src/Keeperd/Tests.antt =====
-- The daemon on concrete frames. The world is the list of what was written to pipes and to the log.
use vivary.Prelude.{
  length, str_eq, some, none, ℕ, ◌^◌, ◌≡◌, refl, sym, ap, ◌∙◌, ◌⊎◌, inl, inr, true, false, List, [],
  ◌∷◌, ◌++◌, append-nil, arith, ◌==◌, Bool-cases, some-injective, Str, bytes, str_eq_iff,
}
use vivary.Prelude.Map.{lookup, values}
use vivary.Mus.{ok, panicked, ◌>>=◌, read_string, read_varint, read_varint_byte}
use vivary.Mus.Strings.{varint_bytes, string_bytes}
use vivary.Switchboard.MsgType
use vivary.Switchboard.Codec.{SwarmHeader}
use vivary.Switchboard.Router.{Frame, Endpoint, send}
use vivary.Capabilities.Payloads.{
  CapabilityRequestPayload, marshal_capability_response, marshal_capability_request,
  unmarshal_capability_request,
}
use vivary.Capabilities.RoundTrip.{unmarshal_capability_request-marshal_capability_request}
use vivary.Capabilities.Dispatch.{ScopeConstraint, Capability}
use vivary.Capabilities.Grants.{IsGranted}
use vivary.Ctl.Requests.{PromptPayload, marshal_prompt}
use vivary.Ctl.RoundTrip.{IsPromptPayload}
use vivary.Ctl.Status.{unmarshal_status}
use vivary.Mus.{pure}
use vivary.Ctl.Status.{CompletionEventPayload, marshal_completion_event, unmarshal_completion_event}
use vivary.Keeperd.Handlers.{handle_completion_event}
use vivary.Keeperd.Events.{IsReported, handle_completion_event_lem}
use vivary.Mus.{append_string, append_varint}
use vivary.Keeperd.State.{AgentState, Daemon, Audit, fresh_header}
use vivary.Keeperd.Handlers.{
  memory, handle_frame, handle_capability_request, audit_frame, should_audit_payload, handle_type,
}
use vivary.Keeperd.Isolation.{IsSound, IsKept, handle_frame-IsKept}
use vivary.Keeperd.Requests.{request_of, handle_capability_request-IsDenied, handle_frame-panicked}
use vivary.Keeperd.Ctl.{
  Formats, Provision, dispatch_prompt, dispatch_ctl, build_agent_status_list, agent_status,
}
use vivary.Keeperd.Replies.{
  IsSeen, IsForwarded, IsTurnedDown, dispatch_prompt-IsForwarded, dispatch_prompt-IsTurnedDown,
  unmarshal_status-dispatch_ctl,
}

abbrev World : Type 0
World = List Str

abbrev log : Audit World
log = record {
  write_audit_frame = λ kind from to seq payload w. w ++ (kind ∷ []);
  write_security_event = λ agent kind detail w. w ++ (kind ∷ []);
}

abbrev plain : Str → Str
plain s = s

abbrev stdin : Endpoint World
stdin = record { agent_id = bytes "agent-1"; writer = λ frame w. (none, w ++ (frame ∷ [])) }

abbrev agent : AgentState ℕ
agent = record {
  id = bytes "agent-1";
  subvol_path = [];
  has_pipe = true;
  last_prompt_seq = 0;
  last_event_at = none;
  last_outcome = [];
  last_failure_detail = [];
  model = [];
  input_tokens = 0;
  output_tokens = 0;
  cost_usd = 0;
  tool_calls = 0;
}

abbrev daemon : Daemon World ℕ
daemon = record {
  dispatcher = record { registry = record { entries = [] }; acls = record { entries = [] } };
  router = record {
    pipes = record { entries = (bytes "agent-1", stdin) ∷ [] };
    handlers = [];
    security = none;
  };
  seq_out = 0;
  agents = record { entries = (bytes "agent-1", agent) ∷ [] };
  ctl_subs = record { channel = 1; queue = [] } ∷ [];
}

daemon-IsSound : IsSound daemon
daemon-IsSound = record {
  keyed = λ id a e. keyed id a (Bool-cases (str_eq (bytes "agent-1") id)) e;
  bounded = (omega arith, tt);
}
  where
    keyed :
        (id : Str) (a : AgentState ℕ)
        → (str_eq (bytes "agent-1") id ≡ true) ⊎ (str_eq (bytes "agent-1") id ≡ false)
        → lookup id daemon.agents ≡ some a
        → a.id ≡ id
    keyed id a (inl same) e =
        let got : agent ≡ a = some-injective (unfold lookup in rw same at e) in
        ap (λ (x : AgentState ℕ). x.id) (sym got) ∙ (str_eq_iff (bytes "agent-1") id).0 same
    keyed id a (inr other) e = let got : none ≡ some a = unfold lookup in rw other at e in cc got

abbrev header : ℕ → SwarmHeader
header type = record {
  version = 0;
  msg_type = type;
  from_id = bytes "agent-1";
  to_id = bytes "keeper";
  seq_no = 7;
  payload_len = 0;
}

-- A frame of a type that the daemon does not handle.
abbrev strange : Frame
strange = record { header = header 0x55; payload = [] }

handle_frame-IsKept_example : IsKept daemon daemon
handle_frame-IsKept_example =
    handle_frame-IsKept log plain length 5 daemon strange daemon-IsSound [] daemon
      (MsgType.to_string 0x55 ∷ [])
      (unfold handle_frame audit_frame should_audit_payload handle_type in refl)

abbrev page_read : CapabilityRequestPayload
page_read = record { capability = bytes "Page_Read"; args = [] }

abbrev asked : Frame
asked = record {
  header = header MsgType.capability_request;
  payload = marshal_capability_request page_read;
}

handle_capability_request-IsDenied_example :
    (detail : Str) × (handle_capability_request log plain length daemon asked []
      ≡ ok (
        daemon,
        (send daemon.router
            (bytes "agent-1")
            (fresh_header MsgType.capability_response (bytes "keeper") (bytes "agent-1") 7)
            (marshal_capability_response (record {
              success = false;
              result = [];
              error_code = bytes "capability_denied";
              error_detail = detail;
            }))
            (bytes "capability_denied" ∷ [])).1,
      ))
handle_capability_request-IsDenied_example =
    handle_capability_request-IsDenied log plain length daemon asked [] page_read []
      (rw append-nil at reads_back) ungranted
  where
    reads_back :
        unmarshal_capability_request memory (marshal_capability_request page_read ++ [])
        ≡ ok (page_read, [])
    reads_back =
        unmarshal_capability_request-marshal_capability_request page_read memory []
          record { capability = omega arith; args = omega arith }

    ungranted :
        (c : Capability World) (constraints : List ScopeConstraint)
        → ¬ IsGranted daemon.dispatcher (request_of asked page_read) c constraints
    ungranted c constraints g = let e : none ≡ some g.acl = unfold lookup in g.listed in cc e

-- A dozen bytes
abbrev bomb : Frame
bomb = record {
  header = header MsgType.capability_request;
  payload = string_bytes (bytes "x") ++ (varint_bytes (2 ^ 63) ++ []);
}

handle_frame-panicked_example : handle_frame log plain length 5 daemon bomb [] ≡ panicked
handle_frame-panicked_example =
    handle_frame-panicked log plain length 5 daemon bomb [] (bytes "x") (2 ^ 63) [] refl refl
      (omega arith) (omega arith) (omega arith)

abbrev hello : PromptPayload
hello = record { agent_id = bytes "agent-1"; seq = 300; text = bytes "hello" }

hello-IsPromptPayload : IsPromptPayload hello
hello-IsPromptPayload = record { agent_id = omega arith; seq = omega arith; text = omega arith }

dispatch_prompt-IsForwarded_example :
    IsForwarded daemon [] hello agent
      (dispatch_prompt plain (marshal_prompt hello) daemon [])
      (bytes "agent-1")
dispatch_prompt-IsForwarded_example =
    dispatch_prompt-IsForwarded plain daemon [] hello hello-IsPromptPayload agent (bytes "agent-1")
      (unfold lookup str_eq in refl) refl

abbrev lost : PromptPayload
lost = record hello { agent_id = bytes "agent-2" }

dispatch_prompt-IsTurnedDown_sample :
    IsTurnedDown daemon [] (dispatch_prompt plain (marshal_prompt lost) daemon [])
dispatch_prompt-IsTurnedDown_sample =
    dispatch_prompt-IsTurnedDown plain daemon [] lost
      record { agent_id = omega arith; seq = omega arith; text = omega arith } (λ a e. absent a e)
  where
    absent :
        (a : AgentState ℕ) → lookup (bytes "agent-2") daemon.agents ≡ some a → a.has_pipe ≡ false
    absent a e = let got : none ≡ some a = unfold lookup str_eq in e in absurd (cc got)

abbrev formats : Formats ℕ
formats = record { time = λ t. bytes "now"; cost = λ c. bytes "1.000000"; is_free = λ c. c == 0 }

abbrev idle_provision : Provision World ℕ
idle_provision = record { create = λ req d w. (none, (d, w)); destroy = λ req d w. (none, (d, w)) }

unmarshal_status-dispatch_ctl_example : IsSeen formats (bytes "0.1") 9 daemon (
    unmarshal_status memory (
      (dispatch_ctl plain idle_provision formats
        (bytes "0.1")
        9
        MsgType.ctl_status
        []
        daemon
        []).payload
      ++ []))
unmarshal_status-dispatch_ctl_example =
    unmarshal_status-dispatch_ctl plain idle_provision formats (bytes "0.1") 9 daemon [] memory (
      unfold build_agent_status_list agent_status values in
      record {
        daemon_version = omega arith;
        uptime_seconds = omega arith;
        few = omega arith;
        agents = (
          record {
            id = omega arith;
            state = omega arith;
            last_prompt_seq = omega arith;
            last_event_at = omega arith;
            last_outcome = omega arith;
            last_failure_detail = omega arith;
            model = omega arith;
            input_tokens = omega arith;
            output_tokens = omega arith;
            cost_usd = omega arith;
            tool_calls = omega arith;
          },
          tt,
        );
      })

-- A report of another ward about agent-1.
abbrev report : CompletionEventPayload ℕ
report = record {
  agent_id = bytes "agent-1";
  prompt_seq = 3;
  model = bytes "m";
  input_tokens = 10;
  output_tokens = 20;
  cost_usd = 4;
  outcome = bytes "success";
  tool_calls = 1;
}

abbrev forged : Frame
forged = record {
  header = record (header MsgType.completion_event) { from_id = bytes "eve" };
  payload = marshal_completion_event (λ c. bytes "cost") report;
}

handle_completion_event_lem_example :
    (d' : Daemon World ℕ) × (handle_completion_event log plain length 5 daemon forged []
      ≡ ok (d', []))
    × IsReported 5 report forged agent daemon d'
handle_completion_event_lem_example =
    handle_completion_event_lem log plain length 5 daemon forged [] report [] agent
      (unfold marshal_completion_event unmarshal_completion_event append_string append_varint ◌>>=◌
          read_string read_varint read_varint_byte pure in
        refl)
      (unfold lookup str_eq in refl)
