-- ===== src/Chromed/Filing.antt =====
-- How the manager files its instances.
use vivary.Prelude.{
  ℕ, ◌≡◌, refl, sym, ap, ◌∙◌, ◌⊎◌, inl, inr, true, false, Option, none, some, List, [], ◌∷◌, ◌++◌,
  ◌==◌, Bool-cases, some-injective, Str, bytes, str_eq, str_eq_iff,
}
use vivary.Prelude.Act.{after-inr}
use vivary.Prelude.Map.{lookup, lookup-insert, lookup-delete}
use vivary.Capabilities.Paths.{join}
use vivary.Chromed.Payloads.{AcquireRequest}
use vivary.Chromed.Blank.{is_blank}
use vivary.Chromed.Manager.{
  Instance, Manager, Machine, Forwarder, unix_forwarder, instance_of, over_unix, remove_stale,
  choose_forwarder, launch, file, launched, acquire_known, acquire,
}
use vivary.Chromed.Sessions.{
  forget, reap_found, reap, killed, release_found, release, Event, acquiring, releasing, exited,
  asking, handle, handle_all,
}

-- An instance that this manager made for the agent: its profile is the agent's directory under the
-- profile root, it runs, and where sockets are forwarded, its address is the agent's socket.
pub record IsOwn (profile_root forward_root id : Str) (inst : Instance) : Type 0 where
  pub agent : inst.agent_id ≡ id
  pub profile : inst.profile_dir ≡ join profile_root id
  pub running : inst.running ≡ true
  pub socket :
      str_eq forward_root [] ≡ false
      → inst.debug_addr ≡ bytes "unix:/run/vivary/chromed-host/" ++ id ++ bytes ".cdp.sock"

own_address : Str → Str
own_address id = bytes "unix:/run/vivary/chromed-host/" ++ id ++ bytes ".cdp.sock"

answer_of {ℓ} : {A : Type ℓ} → A → Str ⊎ A → A
answer_of d (inl e) = d
answer_of d (inr a) = a

answer_of-inr {ℓ κ} :
    {A : Type ℓ} {W : Type κ} {a b : A} {w w' : W}
    → ◌≡◌ {A = (Str ⊎ A) × W} (inr a, w) (inr b, w')
    → a ≡ b
unfolding answer_of
answer_of-inr {a} e = ap (λ r. answer_of a r.0) e

module _ {ℓ} {W : Type ℓ} (machine : Machine W) where
  unix_forwarder_lem :
      (id path : Str) (ln : Option ℕ) (fwd : Forwarder) (w' : W) (r : (Str ⊎ ℕ) × W)
      → unix_forwarder machine id path ln r ≡ (inr fwd, w')
      → fwd.public_addr ≡ own_address id
  unfolding own_address
  unix_forwarder_lem id path ln fwd w' (inl e, w) h = cc
  unix_forwarder_lem id path ln fwd w' (inr unix_ln, w) h =
      ap (λ (f : Forwarder). f.public_addr) (sym (answer_of-inr h))

  choose_forwarder_lem :
      (m : Manager) (req : AcquireRequest) (debug_addr : Str) (tcp fwd : Forwarder) (w w' : W)
      → choose_forwarder machine m req debug_addr tcp w ≡ (inr fwd, w')
      → str_eq m.forward_root [] ≡ false
      → fwd.public_addr ≡ own_address req.agent_id
  choose_forwarder_lem m req debug_addr tcp fwd w w' h on =
      let path = join m.forward_root (req.agent_id ++ bytes ".cdp.sock") in
      let (_, w1, _, e) =
        after-inr (remove_stale machine path w)
          (λ _. over_unix machine req.agent_id path debug_addr tcp) (rw on at h) in
      unix_forwarder_lem req.agent_id path tcp.ln fwd w' _ e

  instance_of-IsOwn :
      (m : Manager) (req : AcquireRequest) (fwd : Forwarder) (proc : ℕ) (inst : Instance)
      → (str_eq m.forward_root [] ≡ false → fwd.public_addr ≡ own_address req.agent_id)
      → instance_of m req fwd proc ≡ inst
      → IsOwn m.profile_root m.forward_root req.agent_id inst
  unfolding own_address
  instance_of-IsOwn m req fwd proc inst addressed e =
      rw (← e) (record { agent = refl; profile = refl; running = refl; socket = addressed })

  pub launch-IsOwn :
      (m : Manager) (req : AcquireRequest) (inst : Instance) (w w' : W)
      → launch machine m req w ≡ (inr inst, w')
      → IsOwn m.profile_root m.forward_root req.agent_id inst
  unfolding launch
  launch-IsOwn m req inst w w' h =
      let (_, w1, _, h1) = after-inr _ _ h in
      let (debug_addr, w2, _, h2) = after-inr _ _ h1 in
      let (tcp, w3, _, h3) = after-inr _ _ h2 in
      let (fwd, w4, chosen, h4) = after-inr _ _ h3 in
      let (proc, w5, _, h5) = after-inr _ _ h4 in
      let (_, w6, _, made) = after-inr _ _ h5 in
      instance_of-IsOwn m req fwd proc inst
        (choose_forwarder_lem m req debug_addr tcp fwd w3 w4 chosen) (answer_of-inr made)

-- The manager has these settings, and every instance of it is its agent's own.
pub record IsFiled (profile_root forward_root : Str) (m : Manager) : Type 0 where
  pub profile_root_eq : m.profile_root ≡ profile_root
  pub forward_root_eq : m.forward_root ≡ forward_root
  pub own :
      (id : Str) (inst : Instance)
      → lookup id m.instances ≡ some inst
      → IsOwn profile_root forward_root id inst

forget_own :
    (id j : Str) (m : Manager) (inst : Instance)
    → lookup j (forget id m).instances ≡ some inst
    → lookup j m.instances ≡ some inst
forget_own id j m inst e = elim (Bool-cases (str_eq id j)) [
  | inl same ↦ cc (rw (lookup-delete, same) at e)
  | inr other ↦ rw (lookup-delete, other) at e
]

module _ (roots : Str × Str) where
  forget-IsFiled :
      (id : Str) (m : Manager) → IsFiled roots.0 roots.1 m → IsFiled roots.0 roots.1 (forget id m)
  forget-IsFiled id m h = record {
    profile_root_eq = h.profile_root_eq;
    forward_root_eq = h.forward_root_eq;
    own = λ j inst e. h.own j inst (forget_own id j m inst e);
  }

  file-IsFiled :
      (id : Str) (inst : Instance) (m : Manager)
      → IsOwn roots.0 roots.1 id inst
      → IsFiled roots.0 roots.1 m
      → IsFiled roots.0 roots.1 (file inst m)
  unfolding file
  file-IsFiled id inst m o h = record {
    profile_root_eq = h.profile_root_eq;
    forward_root_eq = h.forward_root_eq;
    own = λ j other e. elim (Bool-cases (str_eq inst.agent_id j)) [
      | inl same ↦
          let got : inst ≡ other = some-injective (rw (lookup-insert, same) at e) in
          let agent : id ≡ j = sym o.agent ∙ (str_eq_iff inst.agent_id j).0 same in
          rw (← got, ← agent) o
      | inr differ ↦ h.own j other (rw (lookup-insert, differ) at e)
    ];
  }

  reap_found-IsFiled :
      (id : Str) (proc : ℕ) (m : Manager) (o : Option Instance)
      → IsFiled roots.0 roots.1 m
      → IsFiled roots.0 roots.1 (reap_found id proc m o)
  reap_found-IsFiled id proc m none h = h
  reap_found-IsFiled id proc m (some inst) h = elim (Bool-cases (inst.proc == proc)) [
    | inl e ↦ rw e (forget-IsFiled id m h)
    | inr e ↦ rw e h
  ]

module _ {ℓ} {W : Type ℓ} (machine : Machine W) (roots : Str × Str) where
  launched-IsFiled :
      (m : Manager) (req : AcquireRequest) (w : W) (r : (Str ⊎ Instance) × W)
      → launch machine m req w ≡ r
      → IsFiled roots.0 roots.1 m
      → IsFiled roots.0 roots.1 (launched machine m r).1.0
  launched-IsFiled m req w (inl e, w') run h = h
  launched-IsFiled m req w (inr inst, w') run h =
      file-IsFiled roots req.agent_id inst m
        (rw (← h.profile_root_eq, ← h.forward_root_eq) (launch-IsOwn machine m req inst w w' run)) h

  acquire_known-IsFiled :
      (m : Manager) (req : AcquireRequest) (w : W) (o : Option Instance)
      → IsFiled roots.0 roots.1 m
      → IsFiled roots.0 roots.1 (acquire_known machine m req w o).1.0
  acquire_known-IsFiled m req w (some inst) h = h
  acquire_known-IsFiled m req w none h = launched-IsFiled m req w _ refl h

  killed-IsFiled :
      (inst : Instance) (m : Manager) (r : Option Str × W)
      → IsFiled roots.0 roots.1 m
      → IsFiled roots.0 roots.1 (killed machine inst m r).1.0
  killed-IsFiled inst m (none, w) h = h
  killed-IsFiled inst m (some e, w) h = h

  release_found-IsFiled :
      (id : Str) (m : Manager) (w : W) (o : Option Instance)
      → IsFiled roots.0 roots.1 m
      → IsFiled roots.0 roots.1 (release_found machine id m w o).1.0
  release_found-IsFiled id m w none h = h
  release_found-IsFiled id m w (some inst) h =
      killed-IsFiled inst (forget id m) (machine.kill inst.proc w) (forget-IsFiled roots id m h)

  handle-IsFiled :
      (ev : Event) (m : Manager) (w : W)
      → IsFiled roots.0 roots.1 m
      → IsFiled roots.0 roots.1 (handle machine ev m w).0
  unfolding handle acquire release reap
  handle-IsFiled (acquiring req) m w h = elim (Bool-cases (is_blank req.agent_id)) [
    | inl e ↦ rw (handle, acquire, e) h
    | inr e ↦ rw (handle, acquire, e) (acquire_known-IsFiled m req w _ h)
  ]
  handle-IsFiled (releasing id) m w h = elim (Bool-cases (is_blank id)) [
    | inl e ↦ rw (handle, release, e) h
    | inr e ↦ rw (handle, release, e) (release_found-IsFiled id m w _ h)
  ]
  handle-IsFiled (exited id proc) m w h = reap_found-IsFiled roots id proc m _ h
  handle-IsFiled (asking id) m w h = h

  -- Through any run of acquires, releases, exits and questions, whatever the machine answers, each
  -- instance stays filed under its own agent: its profile is that agent's directory below the
  -- profile root, it runs, and where sockets are forwarded its address is that agent's socket.
  pub handle_all-IsFiled :
      (evs : List Event) (m : Manager) (w : W)
      → IsFiled roots.0 roots.1 m
      → IsFiled roots.0 roots.1 (handle_all machine evs m w).0
  unfolding handle_all
  handle_all-IsFiled [] m w h = h
  handle_all-IsFiled (ev ∷ evs) m w h = handle_all-IsFiled evs _ _ (handle-IsFiled ev m w h)
