-- ===== src/Mus/Read.antt =====
-- Reading integers: ReadVarint reads back what AppendVarint wrote, by either of its loops.
use vivary.Prelude.{
  ℕ, zero, suc, ◌+◌, ◌*◌, ◌/◌, ◌%◌, ◌^◌, ◌<◌, ◌≡◌, refl, ap, List, [], ◌∷◌, ◌++◌, lt→ltb, arith,
}
use vivary.Prelude.Bits.{bit_and_low, bit_or-shifted}
use vivary.Mus.{
  Source, ok, append_varint, add_group, read_varint_byte_loop, read_varint_byte, read_full,
  first_byte, read_varint_slow_loop, read_varint_slow, read_varint,
}
use vivary.Mus.Varint.{IsU64, groups, append_varint-groups}
use native.Mathlib.Nat.{mod-eq_of_lt}
use native.Mathlib.Decide.{dec_lt}
use native.Mathlib.Numerals.{towards_suc}

-- A byte contributes its low seven bits.
add_group-low :
    (acc b g shift : ℕ)
    → b < 256
    → b % 128 ≡ g
    → acc < 2 ^ shift
    → IsU64 (acc + g * 2 ^ shift)
    → add_group acc b shift ≡ acc + g * 2 ^ shift
add_group-low acc b g shift hb hg ha fits =
    rw (bit_and_low b hb, hg, mod-eq_of_lt {n = g * 2 ^ shift} {m = 2 ^ 64} (omega arith))
      (bit_or-shifted shift acc g ha)

-- The weight of the group that follows the one at bit `s`.
next_weight : (s : ℕ) → 128 * 2 ^ s ≡ 2 ^ (s + 7)
next_weight s = simp towards_suc (omega arith)

-- A number is its lowest group and the others, by weight `p` and by 128 times `p`.
by_weight : (w p : ℕ) → w % 128 * p + w / 128 * (128 * p) ≡ w * p
by_weight w p =
    let whole : w % 128 + w / 128 * 128 ≡ w = omega arith in
    grind (arith, ap (λ (n : ℕ). n * p) whole)

lowest_first : (w s : ℕ) → w % 128 * 2 ^ s + w / 128 * 2 ^ (s + 7) ≡ w * 2 ^ s
lowest_first w s = rw (← next_weight s) (by_weight w (2 ^ s))

group_room : (acc g s : ℕ) → g < 128 → acc < 2 ^ s → acc + g * 2 ^ s < 2 ^ (s + 7)
group_room acc g s hg ha = rw (← next_weight s) (grind arith)

read_loop-groups :
    (k w acc shift : ℕ) (src : Source) (rest : List ℕ)
    → w < 128 ^ suc k
    → acc < 2 ^ shift
    → IsU64 (acc + w * 2 ^ shift)
    → read_varint_byte_loop (suc k) acc shift src (groups k w ++ rest)
      ≡ ok (acc + w * 2 ^ shift, rest)
unfolding groups read_varint_byte_loop
read_loop-groups zero w acc shift src rest hw ha fits =
    ground (arith, add_group-low acc w w shift (omega arith) (omega arith) ha fits)
read_loop-groups (suc k) w acc shift src rest hw ha fits = elim (dec_lt w 128) [
  | yes small ↦
      rw (lt→ltb w 128 small)
        (ground (arith, add_group-low acc w w shift (omega arith) (omega arith) ha fits))
  | no large ↦
      let fits_low : IsU64 (acc + w % 128 * 2 ^ shift) = omega (arith, lowest_first w shift) in
      let total : acc + w % 128 * 2 ^ shift + w / 128 * 2 ^ (shift + 7) ≡ acc + w * 2 ^ shift =
        omega (arith, lowest_first w shift) in
      ground (
        arith,
        total,
        add_group-low acc (w % 128 + 128) (w % 128) shift (omega arith) (omega arith) ha fits_low,
        read_loop-groups k (w / 128) (acc + w % 128 * 2 ^ shift) (shift + 7) src rest (omega arith)
            (group_room acc (w % 128) shift (omega arith) ha) (rw total fits),
      )
]

slow-eq-byte :
    (k acc shift : ℕ) (src : Source) (bs : List ℕ)
    → read_varint_slow_loop k acc shift src bs ≡ read_varint_byte_loop k acc shift src bs
unfolding read_varint_slow_loop read_varint_byte_loop read_full first_byte
slow-eq-byte zero acc shift src bs = refl
slow-eq-byte (suc k) acc shift src [] = refl
slow-eq-byte (suc k) acc shift src (b ∷ bs) =
    ground (arith, slow-eq-byte k (add_group acc b shift) (shift + 7) src bs)

-- The loop over io.ReadFull does what the loop over ReadByte does.
pub read_varint_slow-eq-byte :
    (src : Source) (bs : List ℕ) → read_varint_slow src bs ≡ read_varint_byte src bs
unfolding read_varint_slow read_varint_byte
read_varint_slow-eq-byte src bs = slow-eq-byte 10 0 0 src bs

pub read_varint-eq-byte :
    (src : Source) (bs : List ℕ) → read_varint src bs ≡ read_varint_byte src bs
unfolding read_varint
read_varint-eq-byte src bs = ground (arith, read_varint_slow-eq-byte src bs)

-- ReadVarint reads back the uint64 that AppendVarint wrote, and leaves whatever follows it.
pub read_varint-append_varint :
    (v : ℕ) (src : Source) (rest : List ℕ)
    → IsU64 v
    → read_varint src (append_varint [] v ++ rest) ≡ ok (v, rest)
read_varint-append_varint v src rest h =
    rw (append_varint-groups [] v h, read_varint-eq-byte)
      (unfold read_varint_byte in ground (arith, read_loop-groups 9 v 0 0 src rest))
