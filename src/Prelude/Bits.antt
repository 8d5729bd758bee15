-- ===== src/Prelude/Bits.antt =====
-- Facts about the bit operations: tables over one byte, and the law of `bit_or` on disjoint bits.
use Prim.Native.Nat.{
  ℕ, zero, suc, ◌+◌, ◌*◌, ◌/◌, ◌%◌, ◌^◌, ◌≤◌, ◌<◌, max, bit_and, bit_or, digits, bit_or-bitwise,
}
use mathlib.Core.Path.{◌≡◌, refl, ◌∙◌}
use native.Mathlib.Omega.{arith}
use native.Mathlib.Nat.{pow-suc, le_refl}
use vivary.Prelude.Tests.{◌==◌, ==_iff, if◌then◌else◌}

-- The number of arguments below `n` at which `f` and `g` differ.
differences : (f g : ℕ → ℕ) → ℕ → ℕ
differences f g zero = 0
differences f g (suc n) = let rest = differences f g n in if f n == g n then rest else rest + 1

agree_below : (f g : ℕ → ℕ) (n b : ℕ) → differences f g n ≡ 0 → b < n → f b ≡ g b
unfolding differences
agree_below f g zero b none_ h = absurd (omega arith)
agree_below f g (suc n) b none_ h = ground (arith, ==_iff (f n) (g n), agree_below f g n b)

-- `b & 0x7f` on a byte
pub bit_and_low : (b : ℕ) → b < 256 → bit_and b 0x7f ≡ b % 128
bit_and_low b = agree_below (λ c. bit_and c 0x7f) (λ c. c % 128) 256 b (unfold differences in refl)

-- `b | 0x80` on a byte
pub bit_or_top : (b : ℕ) → b < 256 → bit_or b 0x80 ≡ b % 128 + 128
bit_or_top b =
    agree_below (λ c. bit_or c 0x80) (λ c. c % 128 + 128) 256 b (unfold differences in refl)

halve_shifted : (m s : ℕ) → (m * 2 ^ suc s / 2 ≡ m * 2 ^ s) × (m * 2 ^ suc s % 2 ≡ 0)
halve_shifted m s =
    let e : m * 2 ^ suc s ≡ 2 * (m * 2 ^ s) = rw pow-suc (omega arith) in rw e (omega arith)

-- The recursion that `bit_or` stands for, on numbers whose bits do not meet.
or_shifted : (n s a m : ℕ) → a ≤ n → a < 2 ^ s → digits (λ b. b) max n a (m * 2 ^ s) ≡ a + m * 2 ^ s
or_shifted zero s zero m le lt = omega arith
or_shifted zero s (suc a) m le lt = absurd (omega arith)
or_shifted (suc n) s zero m le lt = omega arith
or_shifted (suc n) zero (suc a) m le lt = absurd (omega arith)
or_shifted (suc n) (suc s) (suc a) m le lt =
    let smaller : suc a < 2 ^ s * 2 = rw (pow-suc 2 s) at lt in
    let (half, even) = halve_shifted m s in
    rw (half, even, or_shifted n s (suc a / 2) m (omega arith) (omega arith))
      (omega (arith, half, even))

-- Bits below `s` and a number shifted by `s` do not meet.
pub bit_or-shifted : (s a m : ℕ) → a < 2 ^ s → bit_or a (m * 2 ^ s) ≡ a + m * 2 ^ s
bit_or-shifted s a m lt = bit_or-bitwise a (m * 2 ^ s) ∙ or_shifted a s a m (le_refl a) lt
