-- ===== src/Prelude/Map.antt =====
-- A Go map with string keys: an association list whose keys are only seen through `lookup`.
use mathlib.Core.Path.{◌≡◌, refl}
use mathlib.Core.Option.{Option, none, some}
use mathlib.Core.List.{List, [], ◌∷◌, map}
use native.Mathlib.Omega.{arith}
use vivary.Prelude.Tests.{if◌then◌else◌}
use vivary.Prelude.Text.{Str, str_eq, str_eq_iff}

pub record Map {ℓ} (V : Type ℓ) : Type ℓ where
  pub entries : List (Str × V)

module _ {ℓ} {V : Type ℓ} where
  find : Str → List (Str × V) → Option V
  find k [] = none
  find k ((j, v) ∷ m) = if str_eq j k then some v else find k m

  without : Str → List (Str × V) → List (Str × V)
  without k [] = []
  without k ((j, v) ∷ m) = let rest = without k m in if str_eq j k then rest else (j, v) ∷ rest

  unfoldable pub empty : Map V
  empty = record { entries = [] }

  -- `v, ok := m[k]`
  unfoldable pub lookup : Str → Map V → Option V
  unfolding find
  lookup k m = find k m.entries

  -- `delete(m, k)`
  unfoldable pub delete : Str → Map V → Map V
  unfolding without
  delete k m = record { entries = without k m.entries }

  -- `m[k] = v`
  unfoldable pub insert : Str → V → Map V → Map V
  unfolding delete
  insert k v m = record { entries = (k, v) ∷ without k m.entries }

  -- the keys that `range m` visits; Go leaves their order open
  unfoldable pub keys : Map V → List Str
  keys m = map (λ e. e.0) m.entries

  unfoldable pub values : Map V → List V
  values m = map (λ e. e.1) m.entries

  find-without :
      (k j : Str) (m : List (Str × V))
      → find j (without k m) ≡ (if str_eq k j then none else find j m)
  unfolding find without
  find-without k j [] = ground arith
  find-without k j ((i, v) ∷ m) =
      ground (arith, str_eq_iff i k, str_eq_iff i j, str_eq_iff k j, find-without k j m)

  pub lookup-delete :
      (k j : Str) (m : Map V) → lookup j (delete k m) ≡ (if str_eq k j then none else lookup j m)
  unfolding lookup delete
  lookup-delete k j m = find-without k j m.entries

  pub lookup-insert :
      (k j : Str) (v : V) (m : Map V)
      → lookup j (insert k v m) ≡ (if str_eq k j then some v else lookup j m)
  unfolding lookup insert
  lookup-insert k j v m = ground (arith, str_eq_iff k j, find-without k j m.entries)

pub lookup-empty {ℓ} : {V : Type ℓ} (k : Str) → lookup k (empty {V = V}) ≡ none
unfolding lookup empty
lookup-empty k = refl

pub ruleset map_laws = (lookup-empty, lookup-delete, lookup-insert)
