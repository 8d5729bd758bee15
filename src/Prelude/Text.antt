-- ===== src/Prelude/Text.antt =====
-- Go strings are byte sequences: lists of numbers. A literal is written as a `String`.
use Prim.Native.Nat.{ℕ}
use Prim.Native.Char.{code}
use Prim.Native.String.{String}
use mathlib.Core.Path.{◌≡◌, refl}
use mathlib.Core.Logic.{◌↔◌, ◌≢◌}
use mathlib.Core.Bool.{Bool, true, false, ◌&&◌, false≢true}
use mathlib.Core.List.{List, [], ◌∷◌, ◌++◌, reverse}
use native.Mathlib.Omega.{arith}
use vivary.Prelude.Tests.{◌==◌}

abbrev pub Str : Type 0
Str = List ℕ

-- The code points of a literal, which are its bytes, since every literal of the model is ASCII.
abbrev pub bytes : String → Str
bytes String.[] = []
bytes (String.◌∷◌ c s) = code c ∷ bytes s

-- `a == b` on strings.
unfoldable pub str_eq : Str → Str → Bool
str_eq [] [] = true
str_eq [] (b ∷ y) = false
str_eq (a ∷ x) [] = false
str_eq (a ∷ x) (b ∷ y) = a == b && str_eq x y

pub str_eq_iff : (a b : Str) → (str_eq a b ≡ true) ↔ (a ≡ b)
unfolding str_eq
str_eq_iff [] [] = ground arith
str_eq_iff [] (b ∷ y) = ground arith
str_eq_iff (a ∷ x) [] = ground arith
str_eq_iff (a ∷ x) (b ∷ y) = ground (arith, str_eq_iff x y)

pub str_eq_self : (a : Str) → str_eq a a ≡ true
str_eq_self a = (str_eq_iff a a).1 refl

-- strings.HasPrefix
unfoldable pub has_prefix : Str → Str → Bool
has_prefix s [] = true
has_prefix [] (p ∷ ps) = false
has_prefix (c ∷ s) (p ∷ ps) = c == p && has_prefix s ps

pub has_prefix-append : (p t : Str) → has_prefix (p ++ t) p ≡ true
unfolding has_prefix
has_prefix-append [] [] = refl
has_prefix-append [] (c ∷ t) = refl
has_prefix-append (a ∷ p) t = ground (arith, has_prefix-append p t)

-- What is left of a string behind a prefix of it.
pub after_prefix : (s p : Str) → has_prefix s p ≡ true → (t : Str) × (s ≡ p ++ t)
unfolding has_prefix
after_prefix [] [] h = ([], refl)
after_prefix (c ∷ s) [] h = (c ∷ s, refl)
after_prefix [] (a ∷ p) h = absurd (false≢true h)
after_prefix (c ∷ s) (a ∷ p) h = let (t, e) = after_prefix s p (ground arith) in (t, ground arith)

-- strings.HasSuffix
unfoldable pub has_suffix : Str → Str → Bool
unfolding has_prefix
has_suffix s p = has_prefix (reverse s) (reverse p)

pub str_eq_no : (a b : Str) → a ≢ b → str_eq a b ≡ false
str_eq_no a b differ = ground (arith, str_eq_iff a b)
