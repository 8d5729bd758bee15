-- ===== src/Chromed/Overlap.antt =====
-- chromed/service.go: two calls of `Acquire` at once. Each holds the lock to look for an instance
-- and again to file the one that it started, and not in between.
use vivary.Prelude.{
  ◌≡◌, sym, ap, ◌∙◌, ◌≢◌, ◌⊎◌, inl, inr, some, Bool-cases, some-injective, Str, str_eq,
}
use vivary.Prelude.Map.{lookup, lookup-insert}
use vivary.Chromed.Payloads.{AcquireRequest}
use vivary.Chromed.Manager.{Instance, Manager, Machine, launch, file, launched}

module _ {ℓ} {W : Type ℓ} (machine : Machine W) where
  abbrev both_filed : Manager → (Str ⊎ Instance) × W → (Str ⊎ Instance) → Manager × W
  both_filed m (r2, w) r1 =
      let s = (launched machine m (r1, w)).1 in (launched machine s.0 (r2, s.1)).1

  -- Both calls find no instance, start Chrome in turn, and file in turn.
  unfoldable pub overlapping_acquires : Manager → AcquireRequest → AcquireRequest → W → Manager × W
  overlapping_acquires m req1 req2 w =
      let first = launch machine m req1 w in both_filed m (launch machine m req2 first.1) first.0

  -- Two overlapping calls for one agent leave the first Chrome behind: no instance has its process,
  -- so that nothing releases it. The starts succeed and give two processes, and the first is new.
  pub overlapping_acquires-orphaned :
      (m : Manager) (req1 req2 : AcquireRequest) (i1 i2 : Instance) (w w1 w2 : W)
      → launch machine m req1 w ≡ (inr i1, w1)
      → launch machine m req2 w1 ≡ (inr i2, w2)
      → i1.agent_id ≡ i2.agent_id
      → i1.proc ≢ i2.proc
      → ((id : Str) (inst : Instance) → lookup id m.instances ≡ some inst → inst.proc ≢ i1.proc)
      → (id : Str) (inst : Instance)
      → lookup id (overlapping_acquires m req1 req2 w).0.instances ≡ some inst
      → inst.proc ≢ i1.proc
  unfolding overlapping_acquires file
  overlapping_acquires-orphaned m req1 req2 i1 i2 w w1 w2 e1 e2 agent differ new id inst e =
      let filed : lookup id (file i2 (file i1 m)).instances ≡ some inst = rw (e1, e2) at e in
      elim (Bool-cases (str_eq i2.agent_id id)) [
        | inl own ↦
            let got : i2 ≡ inst = some-injective (rw (lookup-insert, own) at filed) in
            λ same. differ (sym (ap (λ (x : Instance). x.proc) got ∙ same))
        | inr other ↦ new id inst (rw (lookup-insert, other, lookup-insert, agent, other) at filed)
      ]
