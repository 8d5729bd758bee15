-- ===== src/Ward/Requests.antt =====
-- Which tool calls reach the daemon, and under which number.
use vivary.Prelude.{
  ℕ, ◌+◌, ◌^◌, ◌≤◌, ◌<◌, ◌≡◌, refl, sym, ap, ◌∙◌, ◌≢◌, ◌⊎◌, inl, inr, Bool, true, false, Option,
  none, some, List, [], arith, ◌==◌, if◌then◌else◌, le→leb, ==_iff, Bool-cases, Str, bytes,
}
use native.Mathlib.Nat.{mod-eq_of_lt}
use vivary.Mus.{Parser, Error}
use vivary.Switchboard.Router.{Writer, seq_next}
use vivary.Capabilities.Payloads.{ToolRequestPayload, CapabilityResponsePayload}
use vivary.Ward.Loop.{
  LoopDetector, new_loop_detector, key_of, check, check_all, occurrences, check-occurrences,
}
use vivary.Ward.State.{
  Ward, channel, register_pending, remove_pending, next_seq, channel-close, channel-register,
}
use vivary.Ward.Tools.{
  refusal, validate_tool_args, abort_active_prompt, sent, forward, validated, loop_checked,
  in_prompt, begin_tool,
}

-- Nothing went to the daemon: no number is taken, and no call waits that did not.
pub record IsKeptBack (ward ward' : Ward) : Type 0 where
  pub seq : ward'.seq ≡ ward.seq
  pub pending : ward'.pending ≡ ward.pending

-- Each call that waits has a number that was given out.
pub record IsCounted (ward : Ward) : Type 0 where
  pub counted : (j : ℕ) → ward.seq < j → channel j ward.pending ≡ none

-- A call that waits has the next number, which no other call waits under.
pub record IsWaiting (ward : Ward) (seq : ℕ) (ward' : Ward) : Type 0 where
  pub number : seq ≡ ward.seq + 1
  pub unused : channel seq ward.pending ≡ none
  pub waits : channel seq ward'.pending ≡ some none
  pub others : (j : ℕ) → j ≢ seq → channel j ward'.pending ≡ channel j ward.pending
  pub still_counted : IsCounted ward'

abbrev pub Settles {ℓ} : {W : Type ℓ} → Ward → (CapabilityResponsePayload ⊎ ℕ) × (Ward × W) → Type 0
Settles ward (inl resp, (ward', w)) =
    ((j : ℕ) → channel j ward'.pending ≡ channel j ward.pending) × IsCounted ward'
Settles ward (inr seq, (ward', w)) = IsWaiting ward seq ward'

-- A call refused as a loop
pub record IsLooped {ℓ} {W : Type ℓ} (ward : Ward)
    (begun : (CapabilityResponsePayload ⊎ ℕ) × (Ward × W)) : Type 0 where
  pub detail : Str
  pub answer : begun.0 ≡ inl (refusal (bytes "loop_detected") detail)
  pub kept_back : IsKeptBack ward begun.1.0
  pub aborted : begun.1.0.active_abort ≡ some (bytes "loop_detected")

module _ {ℓ} {W : Type ℓ} (pipe : Writer W) (kill : ℕ → W → W)
    (arguments : Str → Option (Parser (Unit {0}))) (quote : Str → Str) (req : ToolRequestPayload)
    (w : W) where
  looped :
      (ward : Ward) (r : Bool × LoopDetector)
      → r.0 ≡ true
      → IsLooped ward (loop_checked pipe kill arguments quote req ward w r)
  looped ward (true, l) found = record {
    detail = _;
    answer = refl;
    kept_back = record { seq = refl; pending = refl };
    aborted = refl;
  }
  looped ward (false, l) found = cc

  IsLooped-in :
      (ward : Ward) (l : LoopDetector) (o : Option LoopDetector)
      → o ≡ some l
      → (check (req.capability, req.args) l).0 ≡ true
      → IsLooped ward (in_prompt pipe kill arguments quote req ward w o)
  IsLooped-in ward l o e found = rw e (looped ward _ found)

  -- A call that makes up the threshold together with the earlier calls of its prompt that have its
  -- key is refused as a loop and aborts the prompt, and nothing goes to the daemon.
  pub begin_tool-IsLooped :
      (ward : Ward) (threshold : ℕ) (before : List (Str × Str))
      → ward.active_loop ≡ some (check_all before (new_loop_detector threshold))
      → threshold ≤ occurrences (key_of (req.capability, req.args)) before + 1
      → IsLooped ward (begin_tool pipe kill arguments quote req ward w)
  unfolding begin_tool
  begin_tool-IsLooped ward threshold before prompt reached =
      IsLooped-in ward _ _ prompt
        (check-occurrences threshold before (req.capability, req.args) ∙ le→leb _ _ reached)

  Settles-same :
      (ward ward' : Ward) (resp : CapabilityResponsePayload) (v : W)
      → IsKeptBack ward ward'
      → IsCounted ward
      → Settles ward (inl resp, (ward', v))
  Settles-same ward ward' resp v same h = (
    λ j. ap (channel j) same.pending,
    record {
      counted =
          λ j above. ap (channel j) same.pending ∙ h.counted j (omega (arith, same.seq, above));
    },
  )

  numbered : Ward → Ward
  numbered ward = record ward { seq = ward.seq + 1 }

  registered :
      (ward : Ward) (j : ℕ)
      → channel j (register_pending (ward.seq + 1) (numbered ward)).pending
        ≡ (if ward.seq + 1 == j then some none else channel j ward.pending)
  unfolding numbered
  registered ward j = channel-register (ward.seq + 1) j (numbered ward)

  registered_other :
      (ward : Ward) (j : ℕ)
      → j ≢ ward.seq + 1
      → channel j (register_pending (ward.seq + 1) (numbered ward)).pending ≡ channel j ward.pending
  registered_other ward j other = ground (arith, registered ward j)

  registered_self :
      (ward : Ward)
      → channel (ward.seq + 1) (register_pending (ward.seq + 1) (numbered ward)).pending ≡ some none
  registered_self ward = ground (arith, registered ward (ward.seq + 1))

  IsCounted-registered :
      (ward : Ward) → IsCounted ward → IsCounted (register_pending (ward.seq + 1) (numbered ward))
  unfolding register_pending numbered
  IsCounted-registered ward h = record {
    counted = λ j above.
        registered_other ward j (omega (arith, above)) ∙ h.counted j (omega (arith, above));
  }

  taken_out :
      (ward : Ward) (j : ℕ)
      → IsCounted ward
      → channel j
          (remove_pending (ward.seq + 1) (register_pending (ward.seq + 1) (numbered ward))).pending
        ≡ channel j ward.pending
  unfolding remove_pending
  taken_out ward j h = channel-close (ward.seq + 1) j _ ∙ (elim (Bool-cases (ward.seq + 1 == j)) [
    | inl same ↦ rw same (sym (h.counted j (omega (arith, (==_iff _ j).0 same))))
    | inr other ↦ rw (other, registered, other) refl
  ])

  Settles-sent :
      (ward : Ward) (r : Option Error × W)
      → IsCounted ward
      → Settles ward (
          sent pipe kill arguments quote
            (ward.seq + 1)
            (register_pending (ward.seq + 1) (numbered ward))
            r)
  unfolding remove_pending register_pending numbered
  Settles-sent ward (none, v) h = record {
    number = refl;
    unused = h.counted (ward.seq + 1) (omega arith);
    waits = registered_self ward;
    others = λ j other. registered_other ward j other;
    still_counted = IsCounted-registered ward h;
  }
  Settles-sent ward (some e, v) h = (
    λ j. taken_out ward j h,
    record { counted = λ j above. taken_out ward j h ∙ h.counted j (omega (arith, above)) },
  )

  Settles-forward :
      (ward : Ward)
      → ward.seq + 1 < 2 ^ 64
      → IsCounted ward
      → Settles ward (forward pipe kill arguments quote req ward w)
  unfolding next_seq seq_next numbered
  Settles-forward ward small h = rw (mod-eq_of_lt small) (Settles-sent ward _ h)

  Settles-validated :
      (ward : Ward) (o : Option Str)
      → ward.seq + 1 < 2 ^ 64
      → IsCounted ward
      → Settles ward (validated pipe kill arguments quote req ward w o)
  unfolding abort_active_prompt
  Settles-validated ward (some e) small h =
      Settles-same ward _ (refusal [] []) w (record { seq = refl; pending = refl }) h
  Settles-validated ward none small h = Settles-forward ward small h

  relabelled :
      (ward : Ward) (o : Option LoopDetector) (b : (CapabilityResponsePayload ⊎ ℕ) × (Ward × W))
      → Settles (record ward { active_loop = o }) b
      → Settles ward b
  relabelled ward o (inl resp, (ward', v)) h = h
  relabelled ward o (inr seq, (ward', v)) h = record {
    number = h.number;
    unused = h.unused;
    waits = h.waits;
    others = h.others;
    still_counted = h.still_counted;
  }

  Settles-checked :
      (ward : Ward) (r : Bool × LoopDetector)
      → ward.seq + 1 < 2 ^ 64
      → IsCounted ward
      → Settles ward (loop_checked pipe kill arguments quote req ward w r)
  Settles-checked ward (true, l) small h =
      Settles-same ward _ (refusal [] []) w (record { seq = refl; pending = refl }) h
  Settles-checked ward (false, l) small h = relabelled ward (some l) _ (
      Settles-validated (record ward { active_loop = some l }) _ small
        (record { counted = h.counted }))

  Settles-prompt :
      (ward : Ward) (o : Option LoopDetector)
      → ward.seq + 1 < 2 ^ 64
      → IsCounted ward
      → Settles ward (in_prompt pipe kill arguments quote req ward w o)
  Settles-prompt ward none small h = Settles-validated ward _ small h
  Settles-prompt ward (some l) small h = Settles-checked ward _ small h

  -- A tool call either is answered at once, and then every other call waits as before; or it waits
  -- under the next number, under which no call waited, with no answer yet, and every other call
  -- waits as before. Either way each number under which a call waits has been given out, if so
  -- before and if the counter does not wrap.
  pub begin_tool-Settles :
      (ward : Ward)
      → ward.seq + 1 < 2 ^ 64
      → IsCounted ward
      → Settles ward (begin_tool pipe kill arguments quote req ward w)
  unfolding begin_tool
  begin_tool-Settles ward small h = Settles-prompt ward _ small h

  -- A call whose arguments do not satisfy the schema of its capability never reaches the daemon:
  -- it takes no number and makes no call wait, whether or not it is refused as a loop before.
  pub begin_tool-IsKeptBack :
      (ward : Ward) (e : Str)
      → validate_tool_args pipe kill arguments quote req.capability req.args ≡ some e
      → IsKeptBack ward (begin_tool pipe kill arguments quote req ward w).1.0
  unfolding begin_tool
  begin_tool-IsKeptBack ward e invalid = kept_prompt ward.active_loop
    where
      kept_checked :
          (r : Bool × LoopDetector)
          → IsKeptBack ward (loop_checked pipe kill arguments quote req ward w r).1.0
      kept_checked (true, l) = record { seq = refl; pending = refl }
      kept_checked (false, l) =
          rw invalid (unfold abort_active_prompt in record { seq = refl; pending = refl })

      kept_prompt :
          (o : Option LoopDetector)
          → IsKeptBack ward (in_prompt pipe kill arguments quote req ward w o).1.0
      kept_prompt none =
          rw invalid (unfold abort_active_prompt in record { seq = refl; pending = refl })
      kept_prompt (some l) = kept_checked _
