-- ===== src/Switchboard/Router/Ends.antt =====
-- The read loop comes to an end.
use vivary.Prelude.{
  ℕ, ◌<◌, ◌≡◌, refl, ◌≢◌, inl, inr, ◌||◌, List, [], ◌∷◌, arith, ltb, Bool-cases, length, Str,
}
use vivary.Mus.{Result, ok, err, panicked, Source}
use vivary.Switchboard.Codec.{SwarmHeader, read_frame}
use vivary.Switchboard.Bounds.{Shrinks-read_frame}
use vivary.Switchboard.Router.{
  Pipe, Tick, Turn, stop, crash, next, Finish, running, returned, crashed, allow_pipe, on_frame,
  read_turn, read_loop,
}

-- A turn that goes on leaves less input.
abbrev TurnShrinks : List ℕ → Turn → Type 0
TurnShrinks bs (stop p actions) = Unit
TurnShrinks bs (crash p) = Unit
TurnShrinks bs (next p rest actions) = length rest < length bs

on_frame-Shrinks :
    (now : ℕ) (p : Pipe) (src : Source) (bs : List ℕ) (r : Result ((SwarmHeader × Str) × List ℕ))
    → read_frame src bs ≡ r
    → TurnShrinks bs (on_frame now p r)
unfolding on_frame
on_frame-Shrinks now p src bs (err e) h = tt
on_frame-Shrinks now p src bs panicked h = tt
on_frame-Shrinks now p src bs (ok ((hdr, payload), rest)) h =
    Shrinks-read_frame.at src bs (hdr, payload) rest h

read_turn-Shrinks :
    (t : Tick) (p : Pipe) (src : Source) (bs : List ℕ) → TurnShrinks bs (read_turn t p src bs)
unfolding read_turn
read_turn-Shrinks t p src bs = elim (Bool-cases (t.cancelled || ltb (length bs) 2)) [
  | inl e ↦ rw e tt
  | inr e ↦ elim (Bool-cases (allow_pipe t.gate 2 p).0) [
    | inl admitted ↦
        rw (e, admitted) (on_frame-Shrinks t.full (allow_pipe t.gate 2 p).1 src bs _ refl)
    | inr flooded ↦ rw (e, flooded) tt
  ]
]

abbrev Ended : Finish → Type 0
Ended running = ⊥
Ended returned = Unit
Ended crashed = Unit

Ended-turn :
    (t : Tick) (ts : List Tick) (p : Pipe) (src : Source) (bs : List ℕ) (turn : Turn)
    → read_turn t p src bs ≡ turn
    → TurnShrinks bs turn
    → length bs < length (t ∷ ts)
    → ((p' : Pipe) (rest : List ℕ)
        → length rest < length ts
        → Ended (read_loop ts p' src rest).finish)
    → Ended (read_loop (t ∷ ts) p src bs).finish
unfolding read_loop
Ended-turn t ts p src bs (stop p' actions) e shrinks enough rest_of = rw (read_loop, e) tt
Ended-turn t ts p src bs (crash p') e shrinks enough rest_of = rw (read_loop, e) tt
Ended-turn t ts p src bs (next p' rest actions) e shrinks enough rest_of =
    rw (read_loop, e) (rest_of p' rest (omega arith))

read_loop-Ended :
    (ts : List Tick) (p : Pipe) (src : Source) (bs : List ℕ)
    → length bs < length ts
    → Ended (read_loop ts p src bs).finish
read_loop-Ended [] p src bs enough = absurd (omega arith)
read_loop-Ended (t ∷ ts) p src bs enough =
    Ended-turn t ts p src bs _ refl (read_turn-Shrinks t p src bs) enough
      (λ p' rest. read_loop-Ended ts p' src rest)

ended : (f : Finish) → Ended f → f ≢ running
ended running h = absurd h
ended returned h = λ e. cc
ended crashed h = λ e. cc

-- The read loop ends on every finite input, after at most one turn more than the input has bytes.
pub read_loop-running :
    (ts : List Tick) (p : Pipe) (src : Source) (bs : List ℕ)
    → length bs < length ts
    → (read_loop ts p src bs).finish ≢ running
read_loop-running ts p src bs enough = ended _ (read_loop-Ended ts p src bs enough)
