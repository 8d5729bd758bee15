-- ===== src/Chromed/Orphans.antt =====
-- Runs of calls of the manager, and the Chrome processes that they leave.
use vivary.Prelude.{
  ℕ, ◌≡◌, refl, sym, ap, ◌∙◌, ◌≢◌, ◌⊎◌, inl, inr, Bool, true, Option, none, some, List, [], ◌∷◌,
  ◌==◌, ==_iff, Bool-cases, some-injective, Str, str_eq, str_eq_iff, str_eq_self,
}
use vivary.Prelude.Act.{Leaves, failed, done}
use vivary.Prelude.Map.{lookup, lookup-insert, lookup-delete}
use vivary.Chromed.Payloads.{AcquireRequest}
use vivary.Chromed.Blank.{is_blank}
use vivary.Chromed.Manager.{
  Instance, Manager, Machine, close_forward, launch, file, launched, acquire_known, acquire,
}
use vivary.Chromed.Sessions.{
  forget, reap_found, reap, killed, release_found, release, remove_path, Event, acquiring,
  releasing, exited, asking, handle, handle_all,
}
use vivary.Chromed.Filing.{launch-IsOwn}
use vivary.Chromed.Signals.{IsOs, stray, Sheds-stray}
use vivary.Chromed.Processes.{Sheds, IsTracked, Besides-launch}

module _ {ℓ} {W : Type ℓ} (live : W → ℕ → Bool) where
  -- The processes of `w'` are among those of `w`.
  IsTracked-less :
      (m : Manager) (w w' : W)
      → ((p : ℕ) → live w' p ≡ true → live w p ≡ true)
      → IsTracked live m w
      → IsTracked live m w'
  IsTracked-less m w w' less h p l = h p (less p l)

  IsTracked-file :
      (m : Manager) (inst : Instance) (w w' : W)
      → lookup inst.agent_id m.instances ≡ none
      → ((p : ℕ) → live w' p ≡ true → (live w p ≡ true) ⊎ (inst.proc ≡ p))
      → IsTracked live m w
      → IsTracked live (file inst m) w'
  unfolding file
  IsTracked-file m inst w w' fresh besides h p l = elim (besides p l) [
    | inl old ↦
        let (id, other, e, owns) = h p old in
        elim (Bool-cases (str_eq inst.agent_id id)) [
          | inl same ↦ cc (e, fresh, ap (λ k. lookup k m.instances) ((str_eq_iff _ id).0 same))
          | inr differ ↦ (id, other, rw (lookup-insert, differ) e, owns)
        ]
    | inr new ↦ (inst.agent_id, inst, rw (lookup-insert, str_eq_self inst.agent_id) refl, new)
  ]

  -- An instance is forgotten once its process has ended.
  IsTracked-forget :
      (m : Manager) (id : Str) (inst : Instance) (w w' : W)
      → lookup id m.instances ≡ some inst
      → ((p : ℕ) → live w' p ≡ true → (live w p ≡ true) × (p ≢ inst.proc))
      → IsTracked live m w
      → IsTracked live (forget id m) w'
  IsTracked-forget m id inst w w' e less h p l =
      let (l1, differ) = less p l in
      let (j, other, e', owns) = h p l1 in
      elim (Bool-cases (str_eq id j)) [
        | inl same ↦
            let at_j : lookup j m.instances ≡ some inst = rw (← (str_eq_iff id j).0 same) e in
            let one : other ≡ inst = some-injective (sym e' ∙ at_j) in
            absurd (differ (sym owns ∙ ap (λ (x : Instance). x.proc) one))
        | inr differ ↦ (j, other, rw (lookup-delete, differ) e', owns)
      ]

module _ {ℓ} {W : Type ℓ} (machine : Machine W) (live : W → ℕ → Bool)
    (os : Sheds machine live) where
  launched-IsTracked :
      (m : Manager) (req : AcquireRequest) (w : W) (r : (Str ⊎ Instance) × W)
      → launch machine m req w ≡ r
      → Leaves
          (λ w'. (p : ℕ) → live w' p ≡ true → live w p ≡ true)
          (λ (inst : Instance) w'. (p : ℕ) → live w' p ≡ true → (live w p ≡ true) ⊎ (inst.proc ≡ p))
          r
      → lookup req.agent_id m.instances ≡ none
      → IsTracked live m w
      → IsTracked live (launched machine m r).1.0 (launched machine m r).1.1
  launched-IsTracked m req w (inl e, w') run (failed less) fresh h =
      IsTracked-less live m w w' less h
  launched-IsTracked m req w (inr inst, w') run (done besides) fresh h =
      let agent : inst.agent_id ≡ req.agent_id = (launch-IsOwn machine m req inst w w' run).agent in
      IsTracked-file live m inst w w' (ap (λ k. lookup k m.instances) agent ∙ fresh) besides h

  acquire_known-IsTracked :
      (m : Manager) (req : AcquireRequest) (w : W) (o : Option Instance)
      → lookup req.agent_id m.instances ≡ o
      → IsTracked live m w
      → IsTracked live (acquire_known machine m req w o).1.0 (acquire_known machine m req w o).1.1
  acquire_known-IsTracked m req w (some inst) e h = h
  acquire_known-IsTracked m req w none e h =
      launched-IsTracked m req w _ refl (Besides-launch machine live os w m req) e h

  less_close_forward :
      (ln : Option ℕ) (w : W) (p : ℕ) → live (close_forward machine ln w) p ≡ true → live w p ≡ true
  less_close_forward none w p l = l
  less_close_forward (some ln) w p l = os.close ln w p l

  less_remove_path :
      (path : Str) (w : W) (p : ℕ) → live (remove_path machine path w) p ≡ true → live w p ≡ true
  less_remove_path path w p l = elim (Bool-cases (str_eq path [])) [
    | inl e ↦ rw e at l
    | inr e ↦ os.remove path w p (rw e at l)
  ]

  killed-IsTracked :
      (inst : Instance) (m : Manager) (r : Option Str × W)
      → IsTracked live m r.1
      → IsTracked live (killed machine inst m r).1.0 (killed machine inst m r).1.1
  killed-IsTracked inst m (some e, w) h = h
  killed-IsTracked inst m (none, w) h =
      IsTracked-less live m w _
        (λ p l. less_close_forward inst.forward_ln w p (less_remove_path inst.forward_path _ p l)) h

  release_found-IsTracked :
      (id : Str) (m : Manager) (w : W) (o : Option Instance)
      → lookup id m.instances ≡ o
      → IsTracked live m w
      → IsTracked live (release_found machine id m w o).1.0 (release_found machine id m w o).1.1
  release_found-IsTracked id m w none e h = h
  release_found-IsTracked id m w (some inst) e h =
      killed-IsTracked inst (forget id m) (machine.kill inst.proc w)
        (IsTracked-forget live m id inst w _ e (os.kill inst.proc w) h)

  reap_found-IsTracked :
      (id : Str) (proc : ℕ) (m : Manager) (w : W) (o : Option Instance)
      → lookup id m.instances ≡ o
      → IsTracked live m w
      → IsTracked live (reap_found id proc m o) (machine.wait proc w)
  reap_found-IsTracked id proc m w none e h =
      IsTracked-less live m w _ (λ p l. (os.wait proc w p l).0) h
  reap_found-IsTracked id proc m w (some inst) e h = elim (Bool-cases (inst.proc == proc)) [
    | inl own ↦
        let one : proc ≡ inst.proc = sym ((==_iff _ _).0 own) in
        rw own (
          IsTracked-forget live m id inst w _ e
            (λ p l. let (l1, differ) = os.wait proc w p l in (l1, λ same. differ (same ∙ sym one)))
            h)
    | inr other ↦ rw other (IsTracked-less live m w _ (λ p l. (os.wait proc w p l).0) h)
  ]

  handle-IsTracked :
      (ev : Event) (m : Manager) (w : W)
      → IsTracked live m w
      → IsTracked live (handle machine ev m w).0 (handle machine ev m w).1
  unfolding handle acquire release reap
  handle-IsTracked (acquiring req) m w h = elim (Bool-cases (is_blank req.agent_id)) [
    | inl e ↦ rw (handle, acquire, e) h
    | inr e ↦ rw (handle, acquire, e) (acquire_known-IsTracked m req w _ refl h)
  ]
  handle-IsTracked (releasing id) m w h = elim (Bool-cases (is_blank id)) [
    | inl e ↦ rw (handle, release, e) h
    | inr e ↦ rw (handle, release, e) (release_found-IsTracked id m w _ refl h)
  ]
  handle-IsTracked (exited id proc) m w h = reap_found-IsTracked id proc m w _ refl h
  handle-IsTracked (asking id) m w h = h

  run-IsTracked :
      (evs : List Event) (m : Manager) (w : W)
      → IsTracked live m w
      → IsTracked live (handle_all machine evs m w).0 (handle_all machine evs m w).1
  unfolding handle_all
  run-IsTracked [] m w h = h
  run-IsTracked (ev ∷ evs) m w h = run-IsTracked evs _ _ (handle-IsTracked ev m w h)

-- On a machine whose calls make and end processes as documented, no run of calls one after another
-- leaves a Chrome process that runs, belongs to no instance and was never told to end by Kill: neither
-- a start that does not get ready, nor a release, nor the exit of a process, in whatever order they
-- come.
pub handle_all-IsTracked {ℓ} :
    {W : Type ℓ}
    → (machine : Machine W) (live told : W → ℕ → Bool) (evs : List Event) (m : Manager) (w : W)
    → IsOs machine live told
    → IsTracked (stray live told) m w
    → IsTracked (stray live told) (handle_all machine evs m w).0 (handle_all machine evs m w).1
handle_all-IsTracked machine live told evs m w os h =
    run-IsTracked machine (stray live told) (Sheds-stray live told machine os) evs m w h
