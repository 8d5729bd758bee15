-- ===== src/Switchboard/Router/Budget.antt =====
-- The bytes that the read loop lets through.
use vivary.Prelude.{
  ℕ, ◌+◌, ◌*◌, ◌^◌, ◌≤◌, ◌<◌, ◌≡◌, refl, inl, inr, true, ◌&&◌, some, List, [], ◌∷◌, ◌++◌, arith,
  ltb, leb, Bool-cases, length, All, Str,
}
use vivary.Mus.{Source, max_payload_bytes}
use vivary.Mus.Varint.{varint_len_le}
use vivary.Switchboard.Codec.{SwarmHeader, max_id_len, header_size}
use vivary.Switchboard.Bounds.{IsAccepted}
use vivary.Switchboard.Limiter.{
  ByteRateLimiter, allow, second, room, admitted, allow-room, allow-bytes, room-le,
}
use vivary.Switchboard.Router.{
  Pipe, Frame, Action, Tick, allow_pipe, deliver, enforce, read_loop, frame_bytes,
}
use vivary.Switchboard.Router.Rules.{
  delivered, delivered-append, gated, allow_pipe-agent, enforce-agent, read_loop_rule,
}
use vivary.Switchboard.Router.Order.{stamped, stamp-header, delivered-stamp}

-- The bytes of frames on the wire.
unfoldable pub total : List Frame → ℕ
total [] = 0
total (f ∷ fs) = frame_bytes f.header + total fs

total-append : (xs ys : List Frame) → total (xs ++ ys) ≡ total xs + total ys
unfolding total
total-append [] ys = omega arith
total-append (f ∷ xs) ys = omega (arith, total-append xs ys)

-- The largest frame.
abbrev pub max_frame_bytes : ℕ
max_frame_bytes = 554 + max_payload_bytes

frame_bytes-le :
    (p : Pipe) (hdr : SwarmHeader) (payload : Str)
    → length p.agent_id ≤ max_id_len
    → IsAccepted hdr payload
    → frame_bytes (stamped p hdr) ≤ max_frame_bytes
unfolding header_size
frame_bytes-le p hdr payload short h = omega (
  arith,
  h.to_id,
  h.payload_len,
  varint_len_le (length p.agent_id),
  varint_len_le (length hdr.to_id),
  varint_len_le hdr.seq_no,
  varint_len_le hdr.payload_len,
)

-- A limiter as a turn leaves it: `bytes` of its room were spent, `n` bytes were counted at most.
record Spent (stop bytes n : ℕ) (l : ByteRateLimiter) (p : Pipe) : Type 0 where
  pub limiter : ByteRateLimiter
  pub is : p.limiter ≡ some limiter
  pub spent : bytes + room stop limiter ≤ room stop l
  pub counted : limiter.bytes_in_window ≤ l.bytes_in_window + n

allow_pipe-Spent :
    (stop now n : ℕ) (p : Pipe) (l : ByteRateLimiter)
    → p.limiter ≡ some l
    → now < stop
    → stop ≤ now + second
    → l.bytes_in_window + n < 2 ^ 64
    → Spent stop (admitted n (allow_pipe now n p).0) n l (allow_pipe now n p).1
unfolding allow_pipe
allow_pipe-Spent stop now n p l e early late fits = rw e record {
  limiter = (allow now n l).1;
  is = refl;
  spent = allow-room stop now n l early late fits;
  counted = allow-bytes now n l fits;
}

deliver-total :
    (now : ℕ) (p : Pipe) (hdr : SwarmHeader) (payload : Str)
    → total (delivered (deliver now p hdr payload).1)
      ≡ admitted (frame_bytes hdr) (allow_pipe now (frame_bytes hdr) p).0
unfolding deliver delivered total
deliver-total now p hdr payload = ground arith

enforce-Spent :
    (stop now : ℕ) (p : Pipe) (l : ByteRateLimiter) (hdr : SwarmHeader) (payload : Str)
    → p.limiter ≡ some l
    → now < stop
    → stop ≤ now + second
    → l.bytes_in_window + frame_bytes (stamped p hdr) < 2 ^ 64
    → Spent stop
        (total (delivered (enforce now p hdr payload).1))
        (frame_bytes (stamped p hdr))
        l
        (enforce now p hdr payload).0
unfolding enforce
enforce-Spent stop now p l hdr payload e early late fits =
    elim (Bool-cases (leb hdr.seq_no p.last_seq_no && ltb 0 p.last_seq_no)) [
      | inl rewound ↦
          rw (stamp-header p hdr, rewound, delivered-append, delivered-stamp p hdr)
            (unfold delivered total in
              record { limiter = l; is = e; spent = omega arith; counted = omega arith })
      | inr fresh ↦
          rw (stamp-header p hdr, fresh, delivered-append, delivered-stamp p hdr, deliver-total)
            (unfold deliver in
              allow_pipe-Spent stop now (frame_bytes (stamped p hdr))
                (record p { last_seq_no = hdr.seq_no }) l e early late fits)
    ]

-- The clock of a turn, in the last second before `stop`.
abbrev pub InSecond : ℕ → Tick → Type 0
InSecond stop t =
    (t.gate < stop) × (stop ≤ t.gate + second) × (t.full < stop) × (stop ≤ t.full + second)

WithinRoom : ℕ → List Tick → Pipe → List Action → Type 0
WithinRoom stop ts p actions =
    (l : ByteRateLimiter)
    → p.limiter ≡ some l
    → length p.agent_id ≤ max_id_len
    → All (InSecond stop) ts
    → l.bytes_in_window + (2 + max_frame_bytes) * length ts < 2 ^ 64
    → total (delivered actions) ≤ room stop l

turn-WithinRoom :
    (stop : ℕ) (t : Tick) (ts : List Tick) (p : Pipe) (hdr : SwarmHeader) (payload : Str)
    (actions : List Action)
    → IsAccepted hdr payload
    → (allow_pipe t.gate 2 p).0 ≡ true
    → WithinRoom stop ts (enforce t.full (gated t p) hdr payload).0 actions
    → WithinRoom stop (t ∷ ts) p ((enforce t.full (gated t p) hdr payload).1 ++ actions)
unfolding WithinRoom
turn-WithinRoom stop t ts p hdr payload actions accepted gate later l e short
      ((g, g', f, f'), ticks) fits =
    let agent = allow_pipe-agent t.gate 2 p in
    let small = frame_bytes-le (gated t p) hdr payload (rw agent short) accepted in
    let first = allow_pipe-Spent stop t.gate 2 p l e g g' (omega arith) in
    let second_ =
      enforce-Spent stop t.full (gated t p) first.limiter hdr payload first.is f f'
        (omega (arith, first.counted)) in
    let rest =
      later second_.limiter second_.is
        (rw (enforce-agent t.full (gated t p) hdr payload, agent) short) ticks
        (omega (arith, first.counted, second_.counted)) in
    rw (delivered-append, total-append) (omega (arith, first.spent, second_.spent, rest))

-- A pipe of at most `b` bytes a second has frames of at most 2 * b bytes delivered in any second,
-- however fast the agent sends: for each run whose clock stays within one second, from any state
-- of the limiter, as long as the byte counter does not wrap.
pub read_loop-total :
    (stop : ℕ) (ts : List Tick) (p : Pipe) (src : Source) (bs : List ℕ) (l : ByteRateLimiter)
    → p.limiter ≡ some l
    → length p.agent_id ≤ max_id_len
    → All (InSecond stop) ts
    → l.bytes_in_window + (2 + max_frame_bytes) * length ts < 2 ^ 64
    → total (delivered (read_loop ts p src bs).actions) ≤ 2 * l.limit_per_sec
unfolding WithinRoom
read_loop-total stop ts p src bs l e short ticks fits =
    let inside : WithinRoom stop ts p (read_loop ts p src bs).actions =
      read_loop_rule (WithinRoom stop)
        (λ ts' p' actions none_ l' e' short' ticks' fits'. rw none_ (unfold total in omega arith))
        (turn-WithinRoom stop) ts p src bs in
    omega (arith, inside l e short ticks fits, room-le stop l)
