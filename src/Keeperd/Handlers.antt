-- ===== src/Keeperd/Handlers.antt =====
-- cmd/keeperd/dispatch.go: what the daemon does with a frame of a ward. The clock is read once for
-- each handler; log lines are left out.
use vivary.Prelude.{
  ℕ, Bool, true, not, ◌&&◌, Option, none, some, List, [], ◌∷◌, ◌++◌, map, ltb, ◌==◌, if◌then◌else◌,
  length, Str, bytes, str_eq,
}
use vivary.Prelude.Map.{Map, lookup, insert}
use vivary.Mus.{Source, closed, Result, ok, err, panicked}
use vivary.Mus.Errors.{error_text}
use vivary.Switchboard.MsgType
use vivary.Switchboard.Router.{Frame, send, seq_next}
use vivary.Capabilities.Payloads.{
  CapabilityRequestPayload, marshal_capability_response, unmarshal_capability_request,
}
use vivary.Capabilities.Dispatch.{
  Response, denied_response, capability_denied, Capability, dispatch_request,
}
use vivary.Ctl.Status.{
  CompletionEventPayload, unmarshal_completion_event, FailureEventPayload, unmarshal_failure_event,
}
use vivary.Keeperd.State.{
  AgentState, Subscriber, push_capacity, Daemon, Audit, Step, fresh_header, keeper,
}

-- bytes.NewReader
abbrev pub memory : Source
memory = record { byte_reader = true; ending = closed }

-- A push that does not block: a full channel drops the frame.
abbrev pub push : Frame → Subscriber → Subscriber
push f s =
    if ltb (length s.queue) push_capacity then record s { queue = s.queue ++ (f ∷ []) } else s

module _ {F : Type 0} where
  abbrev change :
      Str
      → (AgentState F → AgentState F)
      → Option (AgentState F)
      → Map (AgentState F)
      → Map (AgentState F)
  change id g none agents = agents
  change id g (some a) agents = insert id (g a) agents

  abbrev pub completed : ℕ → CompletionEventPayload F → AgentState F → AgentState F
  completed now ev a = record a {
    last_event_at = some now;
    last_outcome = ev.outcome;
    model = ev.model;
    input_tokens = ev.input_tokens;
    output_tokens = ev.output_tokens;
    cost_usd = ev.cost_usd;
    tool_calls = ev.tool_calls;
    last_failure_detail = [];
  }

  abbrev failed : ℕ → FailureEventPayload → AgentState F → AgentState F
  failed now ev a = record a {
    last_event_at = some now;
    last_outcome = ev.kind;
    last_failure_detail = ev.detail;
  }

abbrev audit_known {ℓ} : {W : Type ℓ} → Option (Capability W) → Bool
audit_known none = true
audit_known (some c) = c.audit_payload

module _ {ℓ} {W : Type ℓ} {F : Type 0} where
  -- `pushToCtlSubscribers`
  unfoldable pub push_to_ctl_subscribers : Frame → Daemon W F → Daemon W F
  push_to_ctl_subscribers f d = record d { ctl_subs = map (push f) d.ctl_subs }

  -- `if a, ok := d.agents[id]; ok { … }`
  unfoldable pub update_agent : Str → (AgentState F → AgentState F) → Daemon W F → Daemon W F
  update_agent id g d = record d { agents = change id g (lookup id d.agents) d.agents }

  -- `updateAgentCompletionState`
  unfoldable pub update_agent_completion_state :
      ℕ → CompletionEventPayload F → Daemon W F → Daemon W F
  update_agent_completion_state now ev d = update_agent ev.agent_id (completed now ev) d

  -- `updateAgentFailureState`
  unfoldable pub update_agent_failure_state : ℕ → FailureEventPayload → Daemon W F → Daemon W F
  update_agent_failure_state now ev d = update_agent ev.agent_id (failed now ev) d

  abbrev decoded_name : Daemon W F → Result (CapabilityRequestPayload × List ℕ) → Result Bool
  decoded_name d (err e) = ok true
  decoded_name d panicked = panicked
  decoded_name d (ok (req, rest)) = ok (audit_known (lookup req.capability d.dispatcher.registry))

  -- `shouldAuditPayload`, which panics where the decoder does
  unfoldable pub should_audit_payload : Daemon W F → Frame → Result Bool
  should_audit_payload d f =
      if not (f.header.msg_type == MsgType.capability_request)
      then ok true
      else decoded_name d (unmarshal_capability_request memory f.payload)

module _ {ℓ} {W : Type ℓ} {F : Type 0} (audit : Audit W) (quote : Str → Str) (scan : Str → F) where
  abbrev stored : Frame → Bool → W → W
  stored f keep w =
      audit.write_audit_frame (MsgType.to_string f.header.msg_type) f.header.from_id f.header.to_id
        f.header.seq_no (if keep then f.payload else []) w

  abbrev stored_if : Frame → W → Result Bool → Result W
  stored_if f w (ok keep) = ok (stored f keep w)
  stored_if f w (err e) = err e
  stored_if f w panicked = panicked

  -- `auditFrame`
  unfoldable pub audit_frame : Daemon W F → Frame → W → Result W
  audit_frame d f w = stored_if f w (should_audit_payload d f)

  -- `auditCapabilityDenial`
  unfoldable pub audit_capability_denial : Str → Str → Response → W → W
  audit_capability_denial agent capability resp w =
      if not resp.success && str_eq resp.error_code capability_denied
      then audit.write_security_event agent capability_denied
          (bytes "cap=" ++ capability ++ bytes " detail=" ++ resp.error_detail) w
      else w

  -- `sendCapabilityResponse`: a failed Send is only logged.
  unfoldable pub send_capability_response : Daemon W F → Frame → Response → W → W
  send_capability_response d f resp w =
      (send d.router f.header.from_id
        (fresh_header MsgType.capability_response keeper f.header.from_id f.header.seq_no)
        (marshal_capability_response (record {
          success = resp.success;
          result = resp.result;
          error_code = resp.error_code;
          error_detail = resp.error_detail;
        }))
        w).1

  abbrev pub settle : Result Response × W → Result Response × W
  settle (ok resp, w) = (ok resp, w)
  settle (err e, w) = (ok (denied_response (bytes "internal error: " ++ error_text e)), w)
  settle (panicked, w) = (panicked, w)

  -- `dispatchCapabilityRequest`: an error becomes a denial.
  unfoldable pub dispatch_capability_request :
      Daemon W F → Frame → CapabilityRequestPayload → W → Result Response × W
  dispatch_capability_request d f payload w = settle (
      dispatch_request quote d.dispatcher
        (record {
          name = payload.capability;
          agent_id = f.header.from_id;
          seq_no = f.header.seq_no;
          args = payload.args;
        })
        w)

  abbrev pub answer_capability :
      Daemon W F → Frame → CapabilityRequestPayload → Result Response × W → Step W F
  answer_capability d f payload (ok resp, w) = ok (
    d,
    send_capability_response d f resp
        (audit_capability_denial f.header.from_id payload.capability resp w),
  )
  answer_capability d f payload (err e, w) = err e
  answer_capability d f payload (panicked, w) = panicked

  abbrev pub decoded_request :
      Daemon W F → Frame → W → Result (CapabilityRequestPayload × List ℕ) → Step W F
  decoded_request d f w (err e) = ok (
    d,
    send_capability_response d f (denied_response (bytes "malformed request: " ++ error_text e)) w,
  )
  decoded_request d f w panicked = panicked
  decoded_request d f w (ok (payload, rest)) =
      answer_capability d f payload (dispatch_capability_request d f payload w)

  -- `handleCapabilityRequest`
  unfoldable pub handle_capability_request : Daemon W F → Frame → W → Step W F
  handle_capability_request d f w =
      decoded_request d f w (unmarshal_capability_request memory f.payload)

  abbrev pub decoded_completion :
      ℕ → Daemon W F → Frame → W → Result (CompletionEventPayload F × List ℕ) → Step W F
  decoded_completion now d f w (err e) = ok (d, w)
  decoded_completion now d f w panicked = panicked
  decoded_completion now d f w (ok (ev, rest)) =
      ok (push_to_ctl_subscribers f (update_agent_completion_state now ev d), w)

  -- `handleCompletionEvent`
  unfoldable pub handle_completion_event : ℕ → Daemon W F → Frame → W → Step W F
  handle_completion_event now d f w =
      decoded_completion now d f w (unmarshal_completion_event scan memory f.payload)

  abbrev pub decoded_failure :
      ℕ → Daemon W F → Frame → W → Result (FailureEventPayload × List ℕ) → Step W F
  decoded_failure now d f w (err e) = ok (d, w)
  decoded_failure now d f w panicked = panicked
  decoded_failure now d f w (ok (ev, rest)) =
      ok (push_to_ctl_subscribers f (update_agent_failure_state now ev d), w)

  -- `handleFailureEvent`
  unfoldable pub handle_failure_event : ℕ → Daemon W F → Frame → W → Step W F
  handle_failure_event now d f w =
      decoded_failure now d f w (unmarshal_failure_event memory f.payload)

  -- The answer to a ping
  unfoldable pub handle_ping : Daemon W F → Frame → W → Step W F
  handle_ping d f w =
      let (seq, counter) = seq_next d.seq_out in
      ok (
        record d { seq_out = counter },
        (send d.router f.header.from_id (fresh_header MsgType.pong keeper f.header.from_id seq) []
            w).1,
      )

  unfoldable pub handle_type : ℕ → Daemon W F → Frame → W → Step W F
  handle_type now d f w =
      if f.header.msg_type == MsgType.capability_request
      then handle_capability_request d f w
      else if f.header.msg_type == MsgType.completion_event
      then handle_completion_event now d f w
      else if f.header.msg_type == MsgType.failure_event
      then handle_failure_event now d f w
      else if f.header.msg_type == MsgType.ping
      then handle_ping d f w
      else ok (d, w)

  abbrev pub audited : ℕ → Daemon W F → Frame → Result W → Step W F
  audited now d f (ok w) = handle_type now d f w
  audited now d f (err e) = err e
  audited now d f panicked = panicked

  -- `handleFrame`
  unfoldable pub handle_frame : ℕ → Daemon W F → Frame → W → Step W F
  handle_frame now d f w = audited now d f (audit_frame d f w)
