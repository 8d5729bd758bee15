-- ===== src/Chromed/Processes.antt =====
-- The Chrome processes that run, beside the instances of the manager.
use vivary.Prelude.{
  ℕ, ◌≡◌, sym, ◌≢◌, ◌⊎◌, inl, inr, Bool, true, Option, none, some, [], ◌++◌, Bool-cases, Str, bytes,
  str_eq,
}
use vivary.Prelude.Act.{check_result, Leaves, failed, done, after-Leaves, tagged-Leaves}
use vivary.Prelude.Map.{lookup}
use vivary.Chromed.Payloads.{AcquireRequest}
use vivary.Capabilities.Paths.{join}
use vivary.Chromed.Manager.{
  Instance, Manager, Machine, Removal, removed, missing, not_removed, LaunchSpec, forwarder_of,
  stale_removed, readied, Forwarder, close_forward, unix_forwarder, over_unix, remove_stale,
  choose_forwarder, launch,
}

-- What the calls of the machine do to a set `live` of processes: no call but Start adds one, Kill and
-- Wait take theirs out.
pub record Sheds {ℓ} {W : Type ℓ} (machine : Machine W) (live : W → ℕ → Bool) : Type ℓ where
  pub mkdir_all :
      (path : Str) (w : W) (p : ℕ) → live (machine.mkdir_all path w).1 p ≡ true → live w p ≡ true
  pub remove :
      (path : Str) (w : W) (p : ℕ) → live (machine.remove path w).1 p ≡ true → live w p ≡ true
  pub alloc_debug :
      (proxy : Str) (w : W) (p : ℕ)
      → live (machine.alloc_debug proxy w).1 p ≡ true
      → live w p ≡ true
  pub start_debug_forwarder :
      (proxy addr : Str) (w : W) (p : ℕ)
      → live (machine.start_debug_forwarder proxy addr w).1 p ≡ true
      → live w p ≡ true
  pub start_unix_debug_forwarder :
      (path addr : Str) (w : W) (p : ℕ)
      → live (machine.start_unix_debug_forwarder path addr w).1 p ≡ true
      → live w p ≡ true
  pub close : (ln : ℕ) (w : W) (p : ℕ) → live (machine.close ln w) p ≡ true → live w p ≡ true
  pub wait_ready :
      (seconds : ℕ) (addr : Str) (w : W) (p : ℕ)
      → live (machine.wait_ready seconds addr w).1 p ≡ true
      → live w p ≡ true
  pub start :
      (spec : LaunchSpec) (w : W) (p : ℕ)
      → live (machine.start spec w).1 p ≡ true
      → (live w p ≡ true) ⊎ ((machine.start spec w).0 ≡ inr p)
  pub kill :
      (q : ℕ) (w : W) (p : ℕ) → live (machine.kill q w).1 p ≡ true → (live w p ≡ true) × (p ≢ q)
  pub wait :
      (q : ℕ) (w : W) (p : ℕ) → live (machine.wait q w) p ≡ true → (live w p ≡ true) × (p ≢ q)

-- Every process of the set belongs to an instance.
abbrev pub IsTracked {ℓ} : {W : Type ℓ} → (W → ℕ → Bool) → Manager → W → Type 0
IsTracked live m w =
    (p : ℕ)
    → live w p ≡ true
    → (id : Str) × (inst : Instance) × (lookup id m.instances ≡ some inst) × (inst.proc ≡ p)

module _ {ℓ} {W : Type ℓ} (machine : Machine W) (live : W → ℕ → Bool) (os : Sheds machine live)
    (w0 : W) where
  -- No process is new since `w0`, or none but one
  abbrev pub Same : W → Type 0
  Same w = (p : ℕ) → live w p ≡ true → live w0 p ≡ true

  abbrev After : {A : Type 0} → A → W → Type 0
  After a w = Same w

  abbrev pub Besides : ℕ → W → Type 0
  Besides q w = (p : ℕ) → live w p ≡ true → (live w0 p ≡ true) ⊎ (q ≡ p)

  Same-check : (r : Option Str × W) → Same r.1 → Leaves Same After (check_result r)
  Same-check (none, w) h = done h
  Same-check (some e, w) h = failed h

  Same-result : {A : Type 0} (r : (Str ⊎ A) × W) → Same r.1 → Leaves Same After r
  Same-result (inl e, w) h = failed h
  Same-result (inr a, w) h = done h

  Same-forwarder_of :
      (addr : Str) (r : (Str ⊎ ℕ) × W) → Same r.1 → Leaves Same After (forwarder_of machine addr r)
  Same-forwarder_of addr (inl e, w) h = done h
  Same-forwarder_of addr (inr ln, w) h = done h

  Same-close_forward : (ln : Option ℕ) (w : W) → Same w → Same (close_forward machine ln w)
  Same-close_forward none w h = h
  Same-close_forward (some ln) w h = λ p l. h p (os.close ln w p l)

  Same-unix_forwarder :
      (id path : Str) (ln : Option ℕ) (r : (Str ⊎ ℕ) × W)
      → Same r.1
      → Leaves Same After (unix_forwarder machine id path ln r)
  Same-unix_forwarder id path ln (inl e, w) h = failed (Same-close_forward ln w h)
  Same-unix_forwarder id path ln (inr unix_ln, w) h = done (Same-close_forward ln w h)

  Same-stale_removed : (r : Removal × W) → Same r.1 → Leaves Same After (stale_removed machine r)
  Same-stale_removed (removed, w) h = done h
  Same-stale_removed (missing, w) h = done h
  Same-stale_removed (not_removed e, w) h = failed h

  Same-choose_forwarder :
      (m : Manager) (req : AcquireRequest) (addr : Str) (tcp : Forwarder) (w : W)
      → Same w
      → Leaves Same After (choose_forwarder machine m req addr tcp w)
  Same-choose_forwarder m req addr tcp w h = elim (Bool-cases (str_eq m.forward_root [])) [
    | inl off ↦ rw off (done h)
    | inr on ↦ rw on (
        after-Leaves Same After After (remove_stale machine path w)
          (λ _. over_unix machine req.agent_id path addr tcp)
          (Same-stale_removed (machine.remove path w) (λ p l. h p (os.remove path w p l)))
          (λ _ w1 h1.
            Same-unix_forwarder req.agent_id path tcp.ln _
              (λ p l. h1 p (os.start_unix_debug_forwarder path addr w1 p l))))
  ]
    where
      path : Str
      path = join m.forward_root (req.agent_id ++ bytes ".cdp.sock")

  Besides-start :
      (w : W) (r : (Str ⊎ ℕ) × W)
      → Same w
      → ((p : ℕ) → live r.1 p ≡ true → (live w p ≡ true) ⊎ (r.0 ≡ inr p))
      → Leaves Same Besides r
  Besides-start w (inl e, w1) h law =
      failed λ p l. elim (law p l) [ inl old ↦ h p old | inr new ↦ cc ]
  Besides-start w (inr q, w1) h law =
      done {a = q} λ p l. elim (law p l) [ inl old ↦ inl (h p old) | inr new ↦ inr cc ]

  killed_waited : (q : ℕ) (w : W) → Besides q w → Same (machine.wait q (machine.kill q w).1)
  killed_waited q w h p l =
      let (l1, differ) = os.wait q _ p l in
      let (l2, _) = os.kill q w p l1 in
      elim (h p l2) [ inl old ↦ old | inr new ↦ absurd (differ (sym new)) ]

  Besides-close_forward :
      (q : ℕ) (ln : Option ℕ) (w : W) → Besides q w → Besides q (close_forward machine ln w)
  Besides-close_forward q none w h = h
  Besides-close_forward q (some ln) w h = λ p l. h p (os.close ln w p l)

  -- The process that does not get ready is killed and waited for.
  Besides-readied :
      (ln : Option ℕ) (q : ℕ) (r : Option Str × W)
      → Besides q r.1
      → Leaves Same (λ (_ : Unit {0}). Besides q) (readied machine ln q r)
  Besides-readied ln q (none, w) h = done h
  Besides-readied ln q (some e, w) h =
      failed (killed_waited q (close_forward machine ln w) (Besides-close_forward q ln w h))

  pub Besides-launch :
      (m : Manager) (req : AcquireRequest)
      → Leaves Same (λ inst. Besides inst.proc) (launch machine m req w0)
  unfolding launch
  Besides-launch m req =
      let Made : Instance → W → Type 0 = λ inst. Besides inst.proc in
      after-Leaves Same After Made _ _
        (tagged-Leaves Same After _ _ (Same-check _ (λ p l. os.mkdir_all _ w0 p l)))
        λ _ w1 h1.
          after-Leaves Same After Made _ _
            (tagged-Leaves Same After _ _ (Same-result _ (λ p l. h1 p (os.alloc_debug _ w1 p l))))
            λ addr w2 h2.
              after-Leaves Same After Made _ _
                (Same-forwarder_of addr _ (λ p l. h2 p (os.start_debug_forwarder _ addr w2 p l)))
                λ tcp w3 h3.
                  after-Leaves Same After Made _ _ (Same-choose_forwarder m req addr tcp w3 h3)
                    λ fwd w4 h4.
                      after-Leaves Same Besides Made _ _ (Besides-start w4 _ h4 (os.start _ w4))
                        λ proc w5 h5.
                          after-Leaves Same (λ (_ : Unit {0}). Besides proc) Made _ _
                            (Besides-readied fwd.ln proc _
                              (λ p l. h5 p (os.wait_ready _ addr w5 p l)))
                            λ _ w6 h6. done h6
