-- ===== src/Keeperd/Requests.antt =====
-- What becomes of a capability request at the daemon.
use vivary.Prelude.{
  ℕ, ◌≤◌, ◌<◌, ◌≡◌, refl, ap, ◌∙◌, false, List, [], ◌++◌, arith, lt→leb_false, ==_iff, length, Str,
  bytes, str_eq,
}
use vivary.Mus.{
  Result, ok, panicked, max_alloc, ◌>>=◌, pure, read_varint, read_string, make_and_read,
}
use vivary.Mus.Varint.{IsU64}
use vivary.Mus.Strings.{
  varint_bytes, string_bytes, bind_ok, read_varint-varint_bytes, read_string-string_bytes,
}
use vivary.Switchboard.MsgType
use vivary.Switchboard.Codec.{max_id_len}
use vivary.Switchboard.Router.{Frame, send}
use vivary.Capabilities.Payloads.{
  CapabilityRequestPayload, marshal_capability_response, unmarshal_capability_request,
}
use vivary.Capabilities.Dispatch.{Request, Response, ScopeConstraint, Capability, denied_response}
use vivary.Capabilities.Grants.{IsGranted, dispatch_request-IsDenied}
use vivary.Keeperd.State.{Daemon, Audit, fresh_header}
use vivary.Keeperd.Handlers.{
  memory, audit_capability_denial, send_capability_response, dispatch_capability_request,
  handle_capability_request, answer_capability, settle, should_audit_payload, audit_frame,
  handle_frame,
}

-- The request that a frame of an agent stands for: the agent is the one that the router stamped.
abbrev pub request_of : Frame → CapabilityRequestPayload → Request
request_of f payload = record {
  name = payload.capability;
  agent_id = f.header.from_id;
  seq_no = f.header.seq_no;
  args = payload.args;
}

module _ {ℓ} {W : Type ℓ} {F : Type 0} (audit : Audit W) (quote : Str → Str) (scan : Str → F)
    (d : Daemon W F) (f : Frame) (w : W) where
  -- The log entry and then the answer of a denial: a frame for the agent that asked, under the
  -- number of its request, that says no success, no result and why.
  abbrev denial : CapabilityRequestPayload → Str → W
  denial payload detail =
      (send d.router f.header.from_id
        (fresh_header MsgType.capability_response (bytes "keeper") f.header.from_id f.header.seq_no)
        (marshal_capability_response (record {
          success = false;
          result = [];
          error_code = bytes "capability_denied";
          error_detail = detail;
        }))
        (audit.write_security_event f.header.from_id (bytes "capability_denied")
          (bytes "cap=" ++ payload.capability ++ bytes " detail=" ++ detail) w)).1

  answer-denied :
      (payload : CapabilityRequestPayload) (detail : Str) (r : Result Response × W)
      → r.0 ≡ ok (denied_response detail)
      → r.1 ≡ w
      → answer_capability audit quote scan d f payload (settle audit quote scan r)
        ≡ ok (d, denial payload detail)
  unfolding audit_capability_denial send_capability_response denied_response str_eq
  answer-denied payload detail (r, w') e e' = rw (e, e') refl

  -- A capability request that the policy does not grant to the agent that sent it is written to
  -- the audit log as capability_denied and then answered by a frame without success, with the code
  -- capability_denied; the daemon is as before and nothing else happens to the world.
  pub handle_capability_request-IsDenied :
      (payload : CapabilityRequestPayload) (rest : List ℕ)
      → unmarshal_capability_request memory f.payload ≡ ok (payload, rest)
      → ((c : Capability W) (constraints : List ScopeConstraint)
          → ¬ IsGranted d.dispatcher (request_of f payload) c constraints)
      → (detail : Str) × (handle_capability_request audit quote scan d f w
          ≡ ok (d, denial payload detail))
  unfolding handle_capability_request dispatch_capability_request
  handle_capability_request-IsDenied payload rest e none_granted =
      let denied =
        dispatch_request-IsDenied quote d.dispatcher (request_of f payload) w none_granted in
      (denied.detail, rw e (answer-denied payload denied.detail _ denied.response denied.world))

-- A request whose length field asks for more than can be allocated
oversized :
    (name : Str) (n : ℕ) (rest : List ℕ)
    → length name ≤ max_id_len
    → IsU64 n
    → max_alloc < n
    → unmarshal_capability_request memory (string_bytes name ++ (varint_bytes n ++ rest)) ≡ panicked
unfolding unmarshal_capability_request
oversized name n rest short wide large =
    bind_ok (read_string max_id_len) _ memory _
      (read_string-string_bytes max_id_len name memory _ short (omega arith))
    ∙ bind_ok read_varint _ memory _ (read_varint-varint_bytes n memory rest wide)
    ∙ too_large
  where
    too_large :
        (◌>>=◌ {B = CapabilityRequestPayload}
            (make_and_read n)
            (λ args. pure (record { capability = name; args = args })))
          memory rest
        ≡ panicked
    too_large = unfold ◌>>=◌ make_and_read in rw (lt→leb_false n max_alloc large) refl

module _ {ℓ} {W : Type ℓ} {F : Type 0} (audit : Audit W) (quote : Str → Str) (scan : Str → F)
    (now : ℕ) (d : Daemon W F) (f : Frame) (w : W) where
  -- A capability request whose length field is above the largest allocation ends the daemon, in
  -- whatever state it is and whatever the agent may do: the handler panics before any check.
  pub handle_frame-panicked :
      (name : Str) (n : ℕ) (rest : List ℕ)
      → f.header.msg_type ≡ MsgType.capability_request
      → f.payload ≡ string_bytes name ++ (varint_bytes n ++ rest)
      → length name ≤ max_id_len
      → IsU64 n
      → max_alloc < n
      → handle_frame audit quote scan now d f w ≡ panicked
  unfolding handle_frame audit_frame should_audit_payload
  handle_frame-panicked name n rest type payload short wide large =
      rw
        (
          (==_iff _ _).1 type,
          ap (unmarshal_capability_request memory) payload ∙ oversized name n rest short wide large,
        )
        refl
