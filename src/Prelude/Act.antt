-- ===== src/Prelude/Act.antt =====
-- Go code that calls the outside world, whose state is `W`: an error, on the left, is its message.
use mathlib.Core.Path.{◌≡◌, refl}
use mathlib.Core.Logic.{◌⊎◌, inl, inr}
use mathlib.Core.Option.{Option, none, some}
use mathlib.Core.List.{◌++◌}
use vivary.Prelude.Text.{Str, bytes}

abbrev pub Act {ℓ κ} : Type ℓ → Type κ → Type (ℓ ⊔ κ)
Act W A = W → (Str ⊎ A) × W

module _ {ℓ κ μ} {W : Type ℓ} {A : Type κ} {B : Type μ} where
  unfoldable pub after : (Str ⊎ A) × W → (A → Act W B) → (Str ⊎ B) × W
  after (inl e, w) f = (inl e, w)
  after (inr a, w) f = f a w

  infixl 5 ◌>>=◌
  abbrev pub ◌>>=◌ : Act W A → (A → Act W B) → Act W B
  ◌>>=◌ m f w = after (m w) f

  -- What a successful chain went through
  pub after-inr :
      (r : (Str ⊎ A) × W) (f : A → Act W B) {b : B} {w' : W}
      → after r f ≡ (inr b, w')
      → (a : A) × (w : W) × (r ≡ (inr a, w)) × (f a w ≡ (inr b, w'))
  unfolding after
  after-inr (inl e, w) f h = cc
  after-inr (inr a, w) f h = (a, w, refl, h)

module _ {ℓ κ} {W : Type ℓ} {A : Type κ} where
  abbrev pub pure : A → Act W A
  pure a w = (inr a, w)

  unfoldable pub tagged_result : Str → (Str ⊎ A) × W → (Str ⊎ A) × W
  tagged_result tag (inl e, w) = (inl (tag ++ bytes ": " ++ e), w)
  tagged_result tag (inr a, w) = (inr a, w)

  -- fmt.Errorf("tag: %w")
  abbrev pub tagged : Str → Act W A → Act W A
  tagged tag m w = tagged_result tag (m w)

  pub tagged-inr :
      (tag : Str) (r : (Str ⊎ A) × W) {a : A} {w' : W}
      → tagged_result tag r ≡ (inr a, w')
      → r ≡ (inr a, w')
  unfolding tagged_result
  tagged-inr tag (inl e, w) h = cc
  tagged-inr tag (inr a, w) h = h

module _ {ℓ} {W : Type ℓ} where
  -- An operation that answers its error only
  abbrev pub check_result : Option Str × W → (Str ⊎ Unit {0}) × W
  check_result (none, w) = (inr tt, w)
  check_result (some e, w) = (inl e, w)

  abbrev pub check : (W → Option Str × W) → Act W (Unit {0})
  check m w = check_result (m w)

-- What holds of the world after an error, and of the result and the world after a success
pub data Leaves {ℓ κ} {W : Type ℓ} {A : Type κ} (R : W → Type 0) (S : A → W → Type 0)
    : (Str ⊎ A) × W → Type (ℓ ⊔ κ) where
  failed : {e : Str} {w : W} → R w → Leaves R S (inl e, w)
  done : {a : A} {w : W} → S a w → Leaves R S (inr a, w)

module _ {ℓ κ μ} {W : Type ℓ} {A : Type κ} {B : Type μ} where
  pub after-Leaves :
      (R : W → Type 0) (S : A → W → Type 0) (T : B → W → Type 0) (r : (Str ⊎ A) × W)
      (f : A → Act W B)
      → Leaves R S r
      → ((a : A) (w : W) → S a w → Leaves R T (f a w))
      → Leaves R T (after r f)
  unfolding after
  after-Leaves R S T _ f (failed h) k = failed h
  after-Leaves R S T _ f (done {a = a} {w = w} h) k = k a w h

module _ {ℓ κ} {W : Type ℓ} {A : Type κ} where
  pub tagged-Leaves :
      (R : W → Type 0) (S : A → W → Type 0) (tag : Str) (r : (Str ⊎ A) × W)
      → Leaves R S r
      → Leaves R S (tagged_result tag r)
  unfolding tagged_result
  tagged-Leaves R S tag _ (failed h) = failed h
  tagged-Leaves R S tag _ (done h) = done h
