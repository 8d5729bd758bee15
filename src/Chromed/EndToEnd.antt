-- ===== src/Chromed/EndToEnd.antt =====
-- The client, a connection and the manager together.
use vivary.Prelude.{
  ℕ, ◌≤◌, ◌≡◌, refl, sym, ap, ◌∙◌, ◌⊎◌, inl, inr, Option, none, some, List, [], append-nil, arith,
  Bool-cases, length, Str,
}
use vivary.Mus.{Source, ok, max_payload_bytes}
use vivary.Switchboard.Codec.{SwarmHeader, read_frame, write_frame}
use vivary.Switchboard.Frames.{IsSendable, read_frame-write_frame}
use vivary.Chromed.Payloads.{
  AcquireRequest, AcquireResponse, msg_type_acquire, response_type_for, marshal_acquire_request,
  unmarshal_acquire_request, marshal_acquire_response, unmarshal_acquire_response,
}
use vivary.Chromed.RoundTrip.{
  IsAcquireRequest, IsAcquireResponse, unmarshal_acquire_request-marshal_acquire_request,
  unmarshal_acquire_response-marshal_acquire_response,
}
use vivary.Chromed.Blank.{is_blank}
use vivary.Chromed.Manager.{Instance, launch, launched, acquire_known, Manager, Machine, acquire}
use vivary.Chromed.Conn.{
  reader, answer_acquire, response_header, request_header, acquired, handle_conn, acquire_result,
  client_acquire,
}

read_one :
    (h : SwarmHeader) (payload : Str) (src : Source)
    → IsSendable h payload
    → read_frame src (write_frame h payload)
      ≡ ok ((record h { payload_len = length payload }, payload), [])
read_one h payload src s =
    ap (read_frame src) (sym (append-nil _)) ∙ read_frame-write_frame h payload src [] s

sendable :
    (type : ℕ) (payload : Str)
    → length payload ≤ max_payload_bytes
    → IsSendable (request_header type) payload
      × IsSendable (response_header (request_header type) type) payload
sendable type payload size = (
  record { from_id = omega arith; to_id = omega arith; seq_no = omega arith; size = size },
  record { from_id = omega arith; to_id = omega arith; seq_no = omega arith; size = size },
)

module _ {ℓ} {W : Type ℓ} (machine : Machine W) (conn : Source) where
  abbrev pub served : Option (List ℕ) × (Manager × W) → (Str ⊎ List ℕ) × (Manager × W)
  served (none, s) = (inr [], s)
  served (some bs, s) = (inr bs, s)

  -- A connection to the service: what it writes is what the client reads.
  abbrev pub to_service : List ℕ → Manager × W → (Str ⊎ List ℕ) × (Manager × W)
  to_service bs s = served (handle_conn machine conn bs s.0 s.1)

  handle_conn_lem :
      (req : AcquireRequest) (m : Manager) (w : W)
      → IsAcquireRequest req
      → length (marshal_acquire_request req) ≤ max_payload_bytes
      → handle_conn machine conn
          (write_frame (request_header msg_type_acquire) (marshal_acquire_request req))
          m
          w
        ≡ acquired machine
            (response_header (request_header msg_type_acquire) msg_type_acquire)
            (acquire machine m req w)
  unfolding handle_conn response_type_for
  handle_conn_lem req m w valid size =
      rw
        (
          read_one _ _ conn (sendable msg_type_acquire _ size).0,
          ap (unmarshal_acquire_request reader) (sym (append-nil (marshal_acquire_request req)))
              ∙ unmarshal_acquire_request-marshal_acquire_request req reader [] valid,
        )
        refl

  -- The answer to `Acquire` says by its flag whether it is an error.
  abbrev IsSettled : Str ⊎ AcquireResponse → Type 0
  IsSettled r = acquire_result (inr (answer_acquire r)) ≡ r

  launched-IsSettled : (m : Manager) (r : (Str ⊎ Instance) × W) → IsSettled (launched machine m r).0
  launched-IsSettled m (inl e, w) = refl
  launched-IsSettled m (inr inst, w) = refl

  acquire_known-IsSettled :
      (m : Manager) (req : AcquireRequest) (w : W) (o : Option Instance)
      → IsSettled (acquire_known machine m req w o).0
  acquire_known-IsSettled m req w (some inst) = refl
  acquire_known-IsSettled m req w none = launched-IsSettled m (launch machine m req w)

  acquire-IsSettled :
      (m : Manager) (req : AcquireRequest) (w : W) → IsSettled (acquire machine m req w).0
  unfolding acquire
  acquire-IsSettled m req w = elim (Bool-cases (is_blank req.agent_id)) [
    | inl e ↦ rw e refl
    | inr e ↦ rw e (acquire_known-IsSettled m req w _)
  ]

  -- A client that acquires over a connection to the service gets what the manager's `Acquire`
  -- answers, an error as its message, and the manager and the world are as after that call, if
  -- request and answer fit into their fields and frames.
  pub client_acquire-acquire :
      (req : AcquireRequest) (m : Manager) (w : W)
      → IsAcquireRequest req
      → length (marshal_acquire_request req) ≤ max_payload_bytes
      → IsAcquireResponse (answer_acquire (acquire machine m req w).0)
      → length (marshal_acquire_response (answer_acquire (acquire machine m req w).0))
        ≤ max_payload_bytes
      → client_acquire to_service conn req (m, w) ≡ acquire machine m req w
  unfolding client_acquire
  client_acquire-acquire req m w valid size valid' size' =
      let resp = answer_acquire (acquire machine m req w).0 in
      rw
        (
          handle_conn_lem req m w valid size,
          read_one _ _ conn (sendable msg_type_acquire _ size').1,
          ap (unmarshal_acquire_response reader) (sym (append-nil (marshal_acquire_response resp)))
              ∙ unmarshal_acquire_response-marshal_acquire_response resp reader [] valid',
          acquire-IsSettled m req w,
        )
        refl
