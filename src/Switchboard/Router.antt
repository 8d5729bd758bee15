-- ===== src/Switchboard/Router.antt =====
-- internal/switchboard/router.go and seq.go: pipes, the read loop of a pipe, and the router.
-- A goroutine's turn reads the clock twice and the context once: a Tick holds what it saw. The
-- loop's effects on the rest of the program are the list of its actions, which `perform` runs.
pub mod Rules
pub mod Order
pub mod Budget
pub mod Ends
pub mod Filter
pub mod Send
use vivary.Prelude.{
  ℕ, zero, suc, ◌+◌, ◌-◌, ◌*◌, ◌/◌, ◌%◌, ◌^◌, ◌≤◌, ◌<◌, min, max, ◌≡◌, refl, sym, ap, ◌∙◌, ◌≢◌, ◌↔◌,
  ◌⊎◌, inl, inr, Bool, true, false, not, ◌&&◌, ◌||◌, Option, none, some, List, [], ◌∷◌, ◌++◌, map,
  foldl, append_assoc, append-nil, arith, ltb, leb, ◌==◌, if◌then◌else◌, leb→le, le→leb, lt→ltb,
  lt→leb_false, ==_iff, Bool-cases, Option-cases, length, take, drop, get_or, All, All-append, any,
  length-append, Str, bytes, str_eq, str_eq_iff, str_eq_self, has_prefix, has_prefix-append,
  after_prefix, has_suffix, String,
}
use vivary.Prelude.Map.{
  Map, empty, lookup, insert, delete, keys, values, lookup-insert, lookup-delete, lookup-empty,
  map_laws,
}
use vivary.Mus.{
  Error, eof, unexpected_eof, payload_too_large, frame_truncated, fault, wrap, Result, ok, err,
  panicked, Source, Ending, closed, broken, Parser, ◌>>=◌, pure, fail, within, read_full,
  read_varint, read_string, make_and_read, append_varint, append_string, varint_len,
  max_payload_bytes, max_alloc,
}
use vivary.Switchboard.Codec.{SwarmHeader, read_frame, write_frame, header_size}
use vivary.Switchboard.Limiter.{ByteRateLimiter, allow}

-- The writer of a pipe lives outside of the loop, in `Endpoint`.
pub record Pipe : Type 0 where
  pub agent_id : Str
  pub limiter : Option ByteRateLimiter
  pub last_seq_no : ℕ

pub record Frame : Type 0 where
  pub header : SwarmHeader
  pub payload : Str

-- The detail of an event, before it is formatted.
pub data Detail : Type 0 where
  draining : Detail
  claimed : Str → Str → Detail
  rewind : ℕ → ℕ → Detail
  over_budget : ℕ → Detail

pub record SecurityEvent : Type 0 where
  pub agent_id : Str
  pub kind : Str
  pub detail : Detail

-- What the loop does to others.
pub data Action : Type 0 where
  emit : SecurityEvent → Action
  dispatch : Frame → Action

pub record Tick : Type 0 where
  pub cancelled : Bool
  pub gate : ℕ
  pub full : ℕ

-- `p.Limiter == nil || p.Limiter.Allow(n)`
abbrev allow_limiter : ℕ → ℕ → Option ByteRateLimiter → Bool × Option ByteRateLimiter
allow_limiter now n none = (true, none)
allow_limiter now n (some l) = let r = allow now n l in (r.0, some r.1)

unfoldable pub allow_pipe : ℕ → ℕ → Pipe → Bool × Pipe
allow_pipe now n p = let r = allow_limiter now n p.limiter in (r.0, record p { limiter = r.1 })

abbrev pub event : Pipe → Str → Detail → Action
event p kind detail = emit (record { agent_id = p.agent_id; kind = kind; detail = detail })

-- One turn of the loop ends it, or goes on with what is left of the input.
pub data Turn : Type 0 where
  stop : Pipe → List Action → Turn
  crash : Pipe → Turn
  next : Pipe → List ℕ → List Action → Turn

abbrev pub frame_bytes : SwarmHeader → ℕ
frame_bytes hdr = header_size hdr + hdr.payload_len

-- identity enforcement
unfoldable pub stamp : Pipe → SwarmHeader → SwarmHeader × List Action
stamp p hdr = if str_eq hdr.from_id p.agent_id then (hdr, []) else (
  record hdr { from_id = p.agent_id },
  event p (bytes "identity_overwrite") (claimed hdr.from_id p.agent_id) ∷ [],
)

-- the byte rate of the full frame, and the delivery
unfoldable pub deliver : ℕ → Pipe → SwarmHeader → Str → Pipe × List Action
deliver now p hdr payload =
    let r = allow_pipe now (frame_bytes hdr) p in
    (
      r.1,
      if r.0
          then dispatch (record { header = hdr; payload = payload }) ∷ []
          else event p (bytes "pipe_flood") (over_budget (frame_bytes hdr)) ∷ [],
    )

-- SeqNo monotonicity; the number is taken before the rate of the frame is looked at.
unfoldable pub enforce : ℕ → Pipe → SwarmHeader → Str → Pipe × List Action
enforce now p hdr payload =
    let (hdr', stamped) = stamp p hdr in
    let (p', delivered) = deliver now (record p { last_seq_no = hdr'.seq_no }) hdr' payload in
    if leb hdr'.seq_no p.last_seq_no && ltb 0 p.last_seq_no
    then (p, stamped ++ (event p (bytes "seq_no_rewind") (rewind hdr'.seq_no p.last_seq_no) ∷ []))
    else (p', stamped ++ delivered)

unfoldable pub on_frame : ℕ → Pipe → Result ((SwarmHeader × Str) × List ℕ) → Turn
on_frame now p (err e) = stop p []
on_frame now p panicked = crash p
on_frame now p (ok ((hdr, payload), rest)) =
    let (p', actions) = enforce now p hdr payload in next p' rest actions

-- `Peek(2)`, the gate, and `ReadFrame`. The goroutine that drains a flooded pipe is left out: it
-- throws its bytes away.
unfoldable pub read_turn : Tick → Pipe → Source → List ℕ → Turn
read_turn t p src bs =
    let (admitted, p') = allow_pipe t.gate 2 p in
    let turn = on_frame t.full p' (read_frame src bs) in
    if t.cancelled || ltb (length bs) 2
    then stop p []
    else if admitted
    then turn
    else stop p' (event p' (bytes "pipe_flood") draining ∷ [])

pub data Finish : Type 0 where
  running returned crashed : Finish

pub record Run : Type 0 where
  pub actions : List Action
  pub pipe : Pipe
  pub finish : Finish

-- `readLoop`, for as many turns as there are ticks
unfoldable pub read_loop : List Tick → Pipe → Source → List ℕ → Run
read_loop [] p src bs = record { actions = []; pipe = p; finish = running }
read_loop (t ∷ ts) p src bs = elim (read_turn t p src bs) [
  | stop p' actions ↦ record { actions = actions; pipe = p'; finish = returned }
  | crash p' ↦ record { actions = []; pipe = p'; finish = crashed }
  | next p' rest actions ↦
      let run = read_loop ts p' src rest in record run { actions = actions ++ run.actions }
]

-- A writer takes bytes and may fail; `W` is the state of the program that it changes.
abbrev pub Writer {ℓ} : Type ℓ → Type ℓ
Writer W = Str → W → Option Error × W

-- The error of `Send`: of its own, or of the writer.
pub data SendError : Type 0 where
  no_pipe : Str → SendError
  write_failed : Error → SendError

pub record Endpoint {ℓ} (W : Type ℓ) : Type ℓ where
  pub agent_id : Str
  pub writer : Writer W

pub record Router {ℓ} (W : Type ℓ) : Type ℓ where
  pub pipes : Map (Endpoint W)
  pub handlers : List (Frame → W → W)
  pub security : Option (SecurityEvent → W → W)

module _ {ℓ} {W : Type ℓ} where
  unfoldable pub new_router : Option (SecurityEvent → W → W) → Router W
  new_router sink = record { pipes = empty; handlers = []; security = sink }

  unfoldable pub register_handler : (Frame → W → W) → Router W → Router W
  register_handler h r = record r { handlers = r.handlers ++ (h ∷ []) }

  -- `AddPipe`, without the goroutine that it starts
  unfoldable pub add_pipe : Endpoint W → Router W → Router W
  add_pipe p r = record r { pipes = insert p.agent_id p r.pipes }

  unfoldable pub remove_pipe : Str → Router W → Router W
  remove_pipe id r = record r { pipes = delete id r.pipes }

  abbrev write_result : Option Error × W → Option SendError × W
  write_result (none, w) = (none, w)
  write_result (some e, w) = (some (write_failed e), w)

  abbrev pub send_to : Str → Option (Endpoint W) → Str → W → Option SendError × W
  send_to id none frame w = (some (no_pipe id), w)
  send_to id (some p) frame w = write_result (p.writer frame w)

  -- `Send`
  unfoldable pub send : Router W → Str → SwarmHeader → Str → W → Option SendError × W
  send r id hdr payload w = send_to id (lookup id r.pipes) (write_frame hdr payload) w

  abbrev call_security : Option (SecurityEvent → W → W) → SecurityEvent → W → W
  call_security none ev w = w
  call_security (some sink) ev w = sink ev w

  -- `dispatch` calls every handler in order; `emit` calls the sink, if there is one.
  unfoldable pub perform : Router W → Action → W → W
  perform r (emit ev) w = call_security r.security ev w
  perform r (dispatch f) w = foldl (λ w' h. h f w') w r.handlers

  unfoldable pub perform_all : Router W → List Action → W → W
  unfolding perform
  perform_all r [] w = w
  perform_all r (a ∷ actions) w = perform_all r actions (perform r a w)

-- `SeqCounter.Next`: the number, and the counter afterwards
unfoldable pub seq_next : ℕ → ℕ × ℕ
seq_next n = let n' = (n + 1) % 2 ^ 64 in (n', n')
