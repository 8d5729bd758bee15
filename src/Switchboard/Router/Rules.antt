-- ===== src/Switchboard/Router/Rules.antt =====
-- The read loop: what its turns have in common.
use vivary.Prelude.{
  ℕ, ◌≡◌, refl, ap, inl, inr, true, ◌||◌, List, [], ◌∷◌, ◌++◌, arith, ltb, Bool-cases, length, Str,
}
use vivary.Mus.{Result, ok, err, panicked, Source}
use vivary.Switchboard.Codec.{SwarmHeader, read_frame}
use vivary.Switchboard.Bounds.{IsAccepted, read_frame_bounds}
use vivary.Switchboard.Router.{
  Pipe, Frame, Action, emit, dispatch, Tick, Turn, stop, crash, next, allow_pipe, stamp, deliver,
  enforce, on_frame, read_turn, read_loop,
}

-- The frames among the actions.
unfoldable pub delivered : List Action → List Frame
delivered [] = []
delivered (emit ev ∷ actions) = delivered actions
delivered (dispatch f ∷ actions) = f ∷ delivered actions

pub delivered-append : (xs ys : List Action) → delivered (xs ++ ys) ≡ delivered xs ++ delivered ys
unfolding delivered
delivered-append [] ys = refl
delivered-append (emit ev ∷ xs) ys = delivered-append xs ys
delivered-append (dispatch f ∷ xs) ys = ap (λ fs. f ∷ fs) (delivered-append xs ys)

pub allow_pipe-agent : (now n : ℕ) (p : Pipe) → (allow_pipe now n p).1.agent_id ≡ p.agent_id
unfolding allow_pipe
allow_pipe-agent now n p = ground arith

pub allow_pipe-seq : (now n : ℕ) (p : Pipe) → (allow_pipe now n p).1.last_seq_no ≡ p.last_seq_no
unfolding allow_pipe
allow_pipe-seq now n p = ground arith

pub enforce-agent :
    (now : ℕ) (p : Pipe) (hdr : SwarmHeader) (payload : Str)
    → (enforce now p hdr payload).0.agent_id ≡ p.agent_id
unfolding enforce deliver stamp allow_pipe
enforce-agent now p hdr payload = ground arith

-- The pipe behind the gate of a turn.
abbrev pub gated : Tick → Pipe → Pipe
gated t p = (allow_pipe t.gate 2 p).1

-- What a turn can be: one that ends the loop delivers nothing, one that goes on has let an accepted
-- frame through the rules.
data Passed (t : Tick) (p p' : Pipe) (actions : List Action) : Type 0 where
  passed :
      (hdr : SwarmHeader) (payload : Str)
      → IsAccepted hdr payload
      → (allow_pipe t.gate 2 p).0 ≡ true
      → enforce t.full (gated t p) hdr payload ≡ (p', actions)
      → Passed t p p' actions

abbrev TurnIsGood : Tick → Pipe → Turn → Type 0
TurnIsGood t p (stop p' actions) = delivered actions ≡ []
TurnIsGood t p (crash p') = Unit
TurnIsGood t p (next p' rest actions) = Passed t p p' actions

on_frame_good :
    (t : Tick) (p : Pipe) (src : Source) (bs : List ℕ) (r : Result ((SwarmHeader × Str) × List ℕ))
    → read_frame src bs ≡ r
    → (allow_pipe t.gate 2 p).0 ≡ true
    → TurnIsGood t p (on_frame t.full (gated t p) r)
unfolding on_frame delivered
on_frame_good t p src bs (err e) h admitted = refl
on_frame_good t p src bs panicked h admitted = tt
on_frame_good t p src bs (ok ((hdr, payload), rest)) h admitted =
    passed hdr payload (read_frame_bounds src bs hdr payload rest h).0 admitted refl

read_turn_good :
    (t : Tick) (p : Pipe) (src : Source) (bs : List ℕ) → TurnIsGood t p (read_turn t p src bs)
unfolding read_turn delivered
read_turn_good t p src bs = elim (Bool-cases (t.cancelled || ltb (length bs) 2)) [
  | inl e ↦ rw e refl
  | inr e ↦ elim (Bool-cases (allow_pipe t.gate 2 p).0) [
    | inl admitted ↦ rw (e, admitted) (on_frame_good t p src bs _ refl admitted)
    | inr flooded ↦ rw (e, flooded) refl
  ]
]

-- To show something of every run: of the ends of the loop, and of a turn that goes on.
module _ {κ} (P : List Tick → Pipe → List Action → Type κ)
    (ends : (ts : List Tick) (p : Pipe) (actions : List Action)
      → delivered actions ≡ []
      → P ts p actions)
    (turns : (t : Tick) (ts : List Tick) (p : Pipe) (hdr : SwarmHeader) (payload : Str)
        (actions : List Action)
      → IsAccepted hdr payload
      → (allow_pipe t.gate 2 p).0 ≡ true
      → P ts (enforce t.full (gated t p) hdr payload).0 actions
      → P (t ∷ ts) p ((enforce t.full (gated t p) hdr payload).1 ++ actions)) where
  passed_rule :
      (t : Tick) (ts : List Tick) (p p' : Pipe) (actions later : List Action)
      → Passed t p p' actions
      → P ts p' later
      → P (t ∷ ts) p (actions ++ later)
  passed_rule t ts p p' actions later (passed hdr payload accepted admitted e) h =
      let q = turns t ts p hdr payload later accepted admitted (rw e h) in rw e at q

  turn_rule :
      (t : Tick) (ts : List Tick) (p : Pipe) (src : Source) (bs : List ℕ) (turn : Turn)
      → read_turn t p src bs ≡ turn
      → TurnIsGood t p turn
      → ((p' : Pipe) (rest : List ℕ) → P ts p' (read_loop ts p' src rest).actions)
      → P (t ∷ ts) p (read_loop (t ∷ ts) p src bs).actions
  unfolding read_loop
  turn_rule t ts p src bs (stop p' actions) e good rest_of =
      rw (read_loop, e) (ends (t ∷ ts) p actions good)
  turn_rule t ts p src bs (crash p') e good rest_of =
      rw (read_loop, e) (ends (t ∷ ts) p [] (unfold delivered in refl))
  turn_rule t ts p src bs (next p' rest actions) e good rest_of =
      rw (read_loop, e) (passed_rule t ts p p' actions _ good (rest_of p' rest))

  pub read_loop_rule :
      (ts : List Tick) (p : Pipe) (src : Source) (bs : List ℕ)
      → P ts p (read_loop ts p src bs).actions
  read_loop_rule [] p src bs = unfold read_loop in ends [] p [] (unfold delivered in refl)
  read_loop_rule (t ∷ ts) p src bs =
      turn_rule t ts p src bs _ refl (read_turn_good t p src bs)
        (λ p' rest. read_loop_rule ts p' src rest)
