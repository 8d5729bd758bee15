-- ===== src/Chromed/Conn.antt =====
-- chromed/service.go `handleConn`, and the client of internal/chromed/protocol.go. A connection
-- carries one request and one answer. The decoders of the six payloads make no slice, so the case
-- `panicked` of a decoder does not occur.
use vivary.Prelude.{
  ℕ, ◌⊎◌, inl, inr, true, false, not, ◌&&◌, Option, none, some, List, [], ◌++◌, ◌==◌, if◌then◌else◌,
  Str, bytes, str_eq,
}
use vivary.Mus.{Source, closed, Result, ok, err, panicked, Parser}
use vivary.Mus.Errors.{error_text}
use vivary.Switchboard.MsgType
use vivary.Switchboard.Codec.{SwarmHeader, read_frame, write_frame}
use vivary.Chromed.Payloads.{
  AcquireRequest, AcquireResponse, ReleaseRequest, ReleaseResponse, StatusRequest, StatusResponse,
  msg_type_acquire, msg_type_release, msg_type_status, response_type_for, marshal_acquire_request,
  unmarshal_acquire_request, marshal_acquire_response, unmarshal_acquire_response,
  marshal_release_request, unmarshal_release_request, marshal_release_response,
  unmarshal_release_response, marshal_status_request, unmarshal_status_request,
  marshal_status_response, unmarshal_status_response,
}
use vivary.Chromed.Manager.{Manager, Machine, acquire}
use vivary.Chromed.Sessions.{release, status}

-- bytes.NewReader
abbrev pub reader : Source
reader = record { byte_reader = true; ending = closed }

abbrev pub identity : Str
identity = bytes "chromed"

abbrev pub acquire_error : Str → AcquireResponse
acquire_error e = record { success = false; debug_addr = []; profile_dir = []; error = e }

abbrev pub release_error : Str → ReleaseResponse
release_error e = record { success = false; error = e }

abbrev pub status_error : Str → StatusResponse
status_error e = record {
  found = false;
  running = false;
  debug_addr = [];
  profile_dir = [];
  error = e;
}

abbrev pub answer_acquire : Str ⊎ AcquireResponse → AcquireResponse
answer_acquire (inl e) = acquire_error e
answer_acquire (inr resp) = resp

abbrev pub answer_release : Str ⊎ ReleaseResponse → ReleaseResponse
answer_release (inl e) = release_error e
answer_release (inr resp) = resp

abbrev pub answer_status : Str ⊎ StatusResponse → StatusResponse
answer_status (inl e) = status_error e
answer_status (inr resp) = resp

abbrev pub response_header : SwarmHeader → ℕ → SwarmHeader
response_header hdr resp_type = record {
  version = 0;
  msg_type = resp_type;
  from_id = identity;
  to_id = hdr.from_id;
  seq_no = hdr.seq_no;
  payload_len = 0;
}

-- `writeError`, at the types that have an answer
unfoldable pub write_error : SwarmHeader → ℕ → Str → Option (List ℕ)
write_error hdr resp_type message =
    if hdr.msg_type == msg_type_acquire
    then some (
        write_frame (response_header hdr resp_type)
          (marshal_acquire_response (acquire_error message)))
    else if hdr.msg_type == msg_type_release
    then some (
        write_frame (response_header hdr resp_type)
          (marshal_release_response (release_error message)))
    else if hdr.msg_type == msg_type_status
    then some (
        write_frame (response_header hdr resp_type)
          (marshal_status_response (status_error message)))
    else none

module _ {ℓ} {W : Type ℓ} (machine : Machine W) where
  -- The bytes written, if any, the manager and the world
  abbrev pub Served : Type ℓ
  Served = Option (List ℕ) × (Manager × W)

  abbrev pub acquired : SwarmHeader → (Str ⊎ AcquireResponse) × (Manager × W) → Served
  acquired hdr (r, s) = (some (write_frame hdr (marshal_acquire_response (answer_acquire r))), s)

  abbrev pub released : SwarmHeader → (Str ⊎ ReleaseResponse) × (Manager × W) → Served
  released hdr (r, s) = (some (write_frame hdr (marshal_release_response (answer_release r))), s)

  abbrev pub serve_acquire : SwarmHeader → Manager → W → Result (AcquireRequest × List ℕ) → Served
  serve_acquire hdr m w (ok (req, rest)) = acquired hdr (acquire machine m req w)
  serve_acquire hdr m w (err e) = acquired hdr (inl (error_text e), (m, w))
  serve_acquire hdr m w panicked = (none, (m, w))

  abbrev pub serve_release : SwarmHeader → Manager → W → Result (ReleaseRequest × List ℕ) → Served
  serve_release hdr m w (ok (req, rest)) = released hdr (release machine req.agent_id m w)
  serve_release hdr m w (err e) = released hdr (inl (error_text e), (m, w))
  serve_release hdr m w panicked = (none, (m, w))

  abbrev pub serve_status : SwarmHeader → Manager → W → Result (StatusRequest × List ℕ) → Served
  serve_status hdr m w (ok (req, rest)) = (
    some (write_frame hdr (marshal_status_response (answer_status (status req.agent_id m)))),
    (m, w),
  )
  serve_status hdr m w (err e) =
      (some (write_frame hdr (marshal_status_response (status_error (error_text e)))), (m, w))
  serve_status hdr m w panicked = (none, (m, w))

  abbrev pub serve_type : SwarmHeader → Str → ℕ → Manager → W → Served
  serve_type hdr payload resp_type m w =
      let resp_hdr = response_header hdr resp_type in
      if hdr.msg_type == msg_type_acquire
      then serve_acquire resp_hdr m w (unmarshal_acquire_request reader payload)
      else if hdr.msg_type == msg_type_release
      then serve_release resp_hdr m w (unmarshal_release_request reader payload)
      else if hdr.msg_type == msg_type_status
      then serve_status resp_hdr m w (unmarshal_status_request reader payload)
      else (
        write_error hdr resp_type (bytes "unsupported msg type " ++ MsgType.to_string hdr.msg_type),
        (m, w),
      )

  abbrev pub serve_known : SwarmHeader → Str → Manager → W → Option ℕ → Served
  serve_known hdr payload m w none = (
    write_error hdr 0 (bytes "unsupported chromed msg type " ++ MsgType.to_string hdr.msg_type),
    (m, w),
  )
  serve_known hdr payload m w (some resp_type) = serve_type hdr payload resp_type m w

  abbrev pub serve_frame : Manager → W → Result ((SwarmHeader × Str) × List ℕ) → Served
  serve_frame m w (err e) = (none, (m, w))
  serve_frame m w panicked = (none, (m, w))
  serve_frame m w (ok ((hdr, payload), rest)) =
      serve_known hdr payload m w (response_type_for hdr.msg_type)

  -- `handleConn`
  unfoldable pub handle_conn : Source → List ℕ → Manager → W → Served
  handle_conn conn bs m w = serve_frame m w (read_frame conn bs)

-- The client dials, writes a frame and reads what comes back; a failed call answers its message.
abbrev pub request_header : ℕ → SwarmHeader
request_header type = record {
  version = 0;
  msg_type = type;
  from_id = bytes "keeper";
  to_id = identity;
  seq_no = 1;
  payload_len = 0;
}

abbrev pub parsed {ℓ} : {A : Type ℓ} → Result (A × List ℕ) → Str ⊎ A
parsed (ok (resp, rest)) = inr resp
parsed (err e) = inl (error_text e)
parsed panicked = inl []

module _ {A : Type 0} where
  abbrev pub read_response : Parser A → ℕ → Result ((SwarmHeader × Str) × List ℕ) → Str ⊎ A
  read_response unmarshal type (err e) = inl (error_text e)
  read_response unmarshal type panicked = inl []
  read_response unmarshal type (ok ((hdr, payload), rest)) =
      if hdr.msg_type == type
      then parsed (unmarshal reader payload)
      else inl (bytes "unexpected response type " ++ MsgType.to_string hdr.msg_type)

module _ {ℓ} {W : Type ℓ} {A : Type 0} where
  abbrev pub response_of : Source → Parser A → ℕ → (Str ⊎ List ℕ) × W → (Str ⊎ A) × W
  response_of conn unmarshal type (inl e, w) = (inl e, w)
  response_of conn unmarshal type (inr bs, w) =
      (read_response unmarshal type (read_frame conn bs), w)

  -- `roundTrip`; `exchange` is the connection, to the bytes written the bytes to read.
  unfoldable pub round_trip :
      (List ℕ → W → (Str ⊎ List ℕ) × W) → Source → ℕ → Str → Parser A → W → (Str ⊎ A) × W
  round_trip exchange conn type payload unmarshal w =
      response_of conn unmarshal type (exchange (write_frame (request_header type) payload) w)

abbrev pub acquire_result : Str ⊎ AcquireResponse → Str ⊎ AcquireResponse
acquire_result (inl e) = inl e
acquire_result (inr resp) = if resp.success then inr resp else inl resp.error

abbrev pub release_result : Str ⊎ ReleaseResponse → Str ⊎ ReleaseResponse
release_result (inl e) = inl e
release_result (inr resp) =
    if not resp.success && not (str_eq resp.error []) then inl resp.error else inr resp

abbrev pub status_result : Str ⊎ StatusResponse → Str ⊎ StatusResponse
status_result (inl e) = inl e
status_result (inr resp) = if str_eq resp.error [] then inr resp else inl resp.error

module _ {ℓ} {W : Type ℓ} (exchange : List ℕ → W → (Str ⊎ List ℕ) × W) (conn : Source) where
  -- `Client.Acquire`
  unfoldable pub client_acquire : AcquireRequest → W → (Str ⊎ AcquireResponse) × W
  unfolding round_trip
  client_acquire req w =
      let r =
        round_trip exchange conn msg_type_acquire (marshal_acquire_request req)
          unmarshal_acquire_response w in
      (acquire_result r.0, r.1)

  -- `Client.Release`
  unfoldable pub client_release : Str → W → (Str ⊎ ReleaseResponse) × W
  unfolding round_trip
  client_release agent_id w =
      let r =
        round_trip exchange conn msg_type_release
          (marshal_release_request (record { agent_id = agent_id })) unmarshal_release_response w in
      (release_result r.0, r.1)

  -- `Client.Status`
  unfoldable pub client_status : Str → W → (Str ⊎ StatusResponse) × W
  unfolding round_trip
  client_status agent_id w =
      let r =
        round_trip exchange conn msg_type_status
          (marshal_status_request (record { agent_id = agent_id })) unmarshal_status_response w in
      (status_result r.0, r.1)
