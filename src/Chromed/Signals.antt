-- ===== src/Chromed/Signals.antt =====
-- What the manager relies on of the processes of its machine.
use vivary.Prelude.{ℕ, ◌≡◌, refl, ap, ◌≢◌, ◌⊎◌, inl, inr, Bool, true, false, not, ◌&&◌, Str}
use vivary.Chromed.Manager.{Machine, LaunchSpec}
use vivary.Chromed.Processes.{Sheds}

-- A call after which no process runs that did not run before, and which takes no Kill back.
pub record Keeps {ℓ} {W : Type ℓ} (live told : W → ℕ → Bool) (w w' : W) : Type 0 where
  pub fewer : (p : ℕ) → live w' p ≡ true → live w p ≡ true
  pub more : (p : ℕ) → told w p ≡ true → told w' p ≡ true

-- `live w p`: the process `p` runs. `told w p`: Kill was called on it. No call but Start makes a
-- process. Kill need not end its process, at once or at all: it may fail, and it does not wait.
-- Wait returns when its process has ended.
pub record IsOs {ℓ} {W : Type ℓ} (machine : Machine W) (live told : W → ℕ → Bool) : Type ℓ where
  pub mkdir_all : (path : Str) (w : W) → Keeps live told w (machine.mkdir_all path w).1
  pub remove : (path : Str) (w : W) → Keeps live told w (machine.remove path w).1
  pub alloc_debug : (proxy : Str) (w : W) → Keeps live told w (machine.alloc_debug proxy w).1
  pub start_debug_forwarder :
      (proxy addr : Str) (w : W) → Keeps live told w (machine.start_debug_forwarder proxy addr w).1
  pub start_unix_debug_forwarder :
      (path addr : Str) (w : W)
      → Keeps live told w (machine.start_unix_debug_forwarder path addr w).1
  pub close : (ln : ℕ) (w : W) → Keeps live told w (machine.close ln w)
  pub wait_ready :
      (seconds : ℕ) (addr : Str) (w : W) → Keeps live told w (machine.wait_ready seconds addr w).1
  pub start :
      (spec : LaunchSpec) (w : W) (p : ℕ)
      → live (machine.start spec w).1 p ≡ true
      → (live w p ≡ true) ⊎ ((machine.start spec w).0 ≡ inr p)
  pub start_told :
      (spec : LaunchSpec) (w : W) (p : ℕ) → told w p ≡ true → told (machine.start spec w).1 p ≡ true
  pub kill : (q : ℕ) (w : W) → Keeps live told w (machine.kill q w).1
  pub kill_told : (q : ℕ) (w : W) → told (machine.kill q w).1 q ≡ true
  pub wait : (q : ℕ) (w : W) → Keeps live told w (machine.wait q w)
  pub wait_ended : (q : ℕ) (w : W) (p : ℕ) → live (machine.wait q w) p ≡ true → p ≢ q

-- The process runs, and Kill was never called on it.
abbrev pub stray {ℓ} : {W : Type ℓ} → (W → ℕ → Bool) → (W → ℕ → Bool) → W → ℕ → Bool
stray live told w p = live w p && not (told w p)

both : (a b : Bool) → (a && not b) ≡ true → (a ≡ true) × (b ≡ false)
both true false e = (refl, refl)
both true true e = absurd (cc e)
both false true e = absurd (cc e)
both false false e = absurd (cc e)

joined : (a b : Bool) → a ≡ true → b ≡ false → (a && not b) ≡ true
joined a b e f = rw (e, f) refl

untold : (a b : Bool) → (a ≡ true → b ≡ true) → b ≡ false → a ≡ false
untold true b h e = absurd (cc (h refl, e))
untold false b h e = refl

module _ {ℓ} {W : Type ℓ} (live told : W → ℕ → Bool) where
  stray-Keeps :
      (w w' : W)
      → Keeps live told w w'
      → (p : ℕ) → stray live told w' p ≡ true
      → stray live told w p ≡ true
  stray-Keeps w w' k p l =
      let (runs, free) = both _ _ l in joined _ _ (k.fewer p runs) (untold _ _ (k.more p) free)

  pub Sheds-stray : (machine : Machine W) → IsOs machine live told → Sheds machine (stray live told)
  Sheds-stray machine os = record {
    mkdir_all = λ path w. stray-Keeps w _ (os.mkdir_all path w);
    remove = λ path w. stray-Keeps w _ (os.remove path w);
    alloc_debug = λ proxy w. stray-Keeps w _ (os.alloc_debug proxy w);
    start_debug_forwarder = λ proxy addr w. stray-Keeps w _ (os.start_debug_forwarder proxy addr w);
    start_unix_debug_forwarder =
        λ path addr w. stray-Keeps w _ (os.start_unix_debug_forwarder path addr w);
    close = λ ln w. stray-Keeps w _ (os.close ln w);
    wait_ready = λ seconds addr w. stray-Keeps w _ (os.wait_ready seconds addr w);
    start = λ spec w p l.
        let (runs, free) = both _ _ l in
        elim (os.start spec w p runs) [
          | inl old ↦ inl (joined _ _ old (untold _ _ (os.start_told spec w p) free))
          | inr new ↦ inr new
        ];
    kill = λ q w p l. (
      stray-Keeps w _ (os.kill q w) p l,
      λ same.
          let free = (both _ _ l).1 in
          cc (free, os.kill_told q w, ap (told (machine.kill q w).1) same),
    );
    wait = λ q w p l. (stray-Keeps w _ (os.wait q w) p l, os.wait_ended q w p (both _ _ l).0);
  }
