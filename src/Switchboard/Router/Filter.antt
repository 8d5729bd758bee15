-- ===== src/Switchboard/Router/Filter.antt =====
-- The read loop against a description of what it should deliver.
use vivary.Prelude.{
  ℕ, ◌≤◌, ◌≡◌, refl, inl, inr, Bool, true, false, ◌&&◌, none, List, [], ◌∷◌, ◌++◌, arith, ltb, leb,
  if◌then◌else◌, Bool-cases, length, All, Str,
}
use vivary.Mus.{Source}
use vivary.Switchboard.Codec.{SwarmHeader, write_frame}
use vivary.Mus.Wire.{concat}
use vivary.Switchboard.Frames.{marshal_mus-wire, IsSendable, read_frame-write_frame}
use vivary.Switchboard.Router.{
  Pipe, Frame, Tick, next, allow_pipe, deliver, enforce, on_frame, read_turn, read_loop,
  frame_bytes,
}
use vivary.Switchboard.Router.Rules.{delivered, delivered-append}
use vivary.Switchboard.Router.Order.{stamped, stamp-header, delivered-stamp}

abbrev pub Message : Type 0
Message = SwarmHeader × Str

-- What an agent writes on its pipe.
unfoldable pub transport : List Message → Str
transport [] = []
transport ((h, s) ∷ ms) = write_frame h s ++ transport ms

abbrev stamped_frame : Str → SwarmHeader → Str → Frame
stamped_frame agent h s = record {
  header = record h { from_id = agent; payload_len = length s };
  payload = s;
}

-- The messages whose number is above that of the last one kept, each under the agent's identity.
unfoldable pub survivors : Str → ℕ → List Message → List Frame
survivors agent last [] = []
survivors agent last ((h, s) ∷ ms) =
    let old = survivors agent last ms in
    let new = stamped_frame agent h s ∷ survivors agent h.seq_no ms in
    if ltb last h.seq_no then new else old

write_frame-long :
    (h : SwarmHeader) (s rest : Str) → ltb (length (write_frame h s ++ rest)) 2 ≡ false
unfolding write_frame
write_frame-long h s rest = rw marshal_mus-wire (unfold concat in ground arith)

unlimited : (now n : ℕ) (p : Pipe) → p.limiter ≡ none → allow_pipe now n p ≡ (true, p)
unfolding allow_pipe
unlimited now n p e = rw e refl

-- How far a message takes the pipe, and what of it is delivered.
abbrev is_old : Pipe → SwarmHeader → Bool
is_old p h = leb h.seq_no p.last_seq_no && ltb 0 p.last_seq_no

enforce-old :
    (now : ℕ) (p : Pipe) (h : SwarmHeader) (s : Str)
    → is_old p h ≡ true
    → ((enforce now p h s).0 ≡ p) × (delivered (enforce now p h s).1 ≡ [])
unfolding enforce
enforce-old now p h s old =
    rw (stamp-header p h, old, delivered-append, delivered-stamp p h)
      (refl, unfold delivered in refl)

enforce-new :
    (now : ℕ) (p : Pipe) (h : SwarmHeader) (s : Str)
    → p.limiter ≡ none
    → is_old p h ≡ false
    → ((enforce now p h s).0 ≡ record p { last_seq_no = h.seq_no })
      × (delivered (enforce now p h s).1 ≡ record { header = stamped p h; payload = s } ∷ [])
unfolding enforce deliver
enforce-new now p h s free new =
    rw
      (
        stamp-header p h,
        new,
        delivered-append,
        delivered-stamp p h,
        unlimited now (frame_bytes (stamped p h)) (record p { last_seq_no = h.seq_no }) free,
      )
      (refl, unfold delivered in refl)

-- The turn that meets a whole message.
read_turn-message :
    (t : Tick) (p : Pipe) (src : Source) (h : SwarmHeader) (s rest : Str)
    → t.cancelled ≡ false
    → p.limiter ≡ none
    → IsSendable h s
    → let r = enforce t.full p (record h { payload_len = length s }) s in
      read_turn t p src (write_frame h s ++ rest) ≡ next r.0 rest r.1
unfolding read_turn on_frame
read_turn-message t p src h s rest live free sendable =
    rw
      (
        live,
        write_frame-long h s rest,
        unlimited t.gate 2 p free,
        read_frame-write_frame h s src rest sendable,
      )
      refl

-- What makes a run of the loop undisturbed.
pub record IsQuiet (ts : List Tick) (p : Pipe) (ms : List Message) : Type 0 where
  pub live : All (λ t. t.cancelled ≡ false) ts
  pub free : p.limiter ≡ none
  pub sendable : All (λ m. IsSendable m.0 m.1) ms
  pub numbered : All (λ m. 1 ≤ m.0.seq_no) ms
  pub enough : length ms ≤ length ts

read_loop-message :
    (t : Tick) (ts : List Tick) (p : Pipe) (src : Source) (h : SwarmHeader) (s rest : Str)
    → t.cancelled ≡ false
    → p.limiter ≡ none
    → IsSendable h s
    → let r = enforce t.full p (record h { payload_len = length s }) s in
      delivered (read_loop (t ∷ ts) p src (write_frame h s ++ rest)).actions
      ≡ delivered r.1 ++ delivered (read_loop ts r.0 src rest).actions
unfolding read_loop delivered
read_loop-message t ts p src h s rest live free sendable =
    rw (read_loop, read_turn-message t p src h s rest live free sendable, delivered-append) refl

message_step :
    (t : Tick) (ts : List Tick) (p : Pipe) (src : Source) (h : SwarmHeader) (s rest : Str)
    (ms : List Message)
    → t.cancelled ≡ false
    → p.limiter ≡ none
    → IsSendable h s
    → 1 ≤ h.seq_no
    → ((p' : Pipe)
        → p'.limiter ≡ none
        → delivered (read_loop ts p' src rest).actions ≡ survivors p'.agent_id p'.last_seq_no ms)
    → delivered (read_loop (t ∷ ts) p src (write_frame h s ++ rest)).actions
      ≡ survivors p.agent_id p.last_seq_no ((h, s) ∷ ms)
unfolding survivors
message_step t ts p src h s rest ms live free sendable numbered later =
    elim (Bool-cases (is_old p h)) [
      | inl old ↦
          let (same, none_) = enforce-old t.full p (record h { payload_len = length s }) s old in
          rw
            (
              read_loop-message t ts p src h s rest live free sendable,
              none_,
              same,
              later p free,
              kept_out old,
            )
            refl
      | inr new ↦
          let (moved, one) =
            enforce-new t.full p (record h { payload_len = length s }) s free new in
          rw
            (
              read_loop-message t ts p src h s rest live free sendable,
              one,
              moved,
              later (record p { last_seq_no = h.seq_no }) free,
              let_in new,
            )
            refl
    ]
  where
    kept_out : is_old p h ≡ true → ltb p.last_seq_no h.seq_no ≡ false
    kept_out e = ground arith

    let_in : is_old p h ≡ false → ltb p.last_seq_no h.seq_no ≡ true
    let_in e = ground arith

-- Without a rate limit, and if every message has a number of 1 or more, the read loop delivers
-- exactly the messages whose number is above that of the last one delivered, each once and under the
-- identity of the pipe, and in the order in which they were sent.
pub read_loop-survivors :
    (ts : List Tick) (p : Pipe) (src : Source) (ms : List Message)
    → IsQuiet ts p ms
    → delivered (read_loop ts p src (transport ms)).actions ≡ survivors p.agent_id p.last_seq_no ms
unfolding transport survivors read_loop delivered read_turn
read_loop-survivors [] p src [] q = refl
read_loop-survivors (t ∷ ts) p src [] q = rw (read_turn, q.live.0) refl
read_loop-survivors [] p src (m ∷ ms) q = absurd (omega (arith, q.enough))
read_loop-survivors (t ∷ ts) p src ((h, s) ∷ ms) q =
    message_step t ts p src h s (transport ms) ms q.live.0 q.free q.sendable.0 q.numbered.0
      (λ p' free'. read_loop-survivors ts p' src ms (record {
        live = q.live.1;
        free = free';
        sendable = q.sendable.1;
        numbered = q.numbered.1;
        enough = omega (arith, q.enough);
      }))
