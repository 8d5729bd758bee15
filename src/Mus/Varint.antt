-- ===== src/Mus/Varint.antt =====
-- The integers of pkg/mus/mus.go: what AppendVarint writes, its length, and reading it back.
use vivary.Prelude.{
  Bool, true, false, if◌then◌else◌, ◌==◌, ℕ, zero, suc, ◌+◌, ◌*◌, ◌/◌, ◌%◌, ◌^◌, ◌≤◌, ◌<◌, ◌≡◌,
  refl, List, [], ◌∷◌, ◌++◌, append_assoc, length, All, ltb, if◌then◌else◌, arith,
}
use vivary.Prelude.Order.{lt_wf}
use vivary.Prelude.Bits.{bit_or_top}
use vivary.Mus.{append_varint, append_varint_loop, bit_len, varint_len}
use mathlib.Core.WellFounded.{Acc}
use native.Mathlib.Decide.{dec_lt}
use native.Mathlib.Nat.{pow-suc}

abbrev pub IsU64 : ℕ → Type 0
IsU64 v = v < 2 ^ 64

abbrev pub IsByte : ℕ → Type 0
IsByte b = b < 256

-- The encoding in plain arithmetic: `v` in at most `k + 1` groups of seven bits, lowest first.
unfoldable pub groups : ℕ → ℕ → List ℕ
groups zero v = v ∷ []
groups (suc k) v =
    let higher = groups k (v / 128) in if ltb v 128 then v ∷ [] else (v % 128 + 128) ∷ higher

append_varint_loop-groups :
    (k : ℕ) (b : List ℕ) (v : ℕ) (w : Acc ◌<◌ v)
    → v < 128 ^ suc k
    → append_varint_loop b v w ≡ b ++ groups k v
unfolding append_varint_loop groups
append_varint_loop-groups zero b v (Acc.intro _ smaller) h = ground arith
append_varint_loop-groups (suc k) b v (Acc.intro _ smaller) h = grind (
  arith,
  bit_or_top (v % 256),
  λ (w : Acc ◌<◌ (v / 128)).
      append_varint_loop-groups k (b ++ ((v % 128 + 128) ∷ [])) (v / 128) w (omega arith),
  append_assoc b ((v % 128 + 128) ∷ []) (groups k (v / 128)),
)

-- On every uint64 AppendVarint keeps `b` and appends the groups of `v`.
pub append_varint-groups : (b : List ℕ) (v : ℕ) → IsU64 v → append_varint b v ≡ b ++ groups 9 v
unfolding append_varint
append_varint-groups b v h = append_varint_loop-groups 9 b v (lt_wf.apply v) (omega arith)

groups-IsByte : (k v : ℕ) → v < 128 ^ suc k → All IsByte (groups k v)
unfolding groups
groups-IsByte zero v h = omega arith
groups-IsByte (suc k) v h = ground (arith, groups-IsByte k (v / 128) (omega arith))

length-groups : (k v : ℕ) → (1 ≤ length (groups k v)) × (length (groups k v) ≤ k + 1)
unfolding groups
length-groups zero v = omega arith
length-groups (suc k) v = ground (arith, length-groups k (v / 128))

abbrev seven_more : ℕ → ℕ
seven_more f = suc (suc (suc (suc (suc (suc (suc f))))))

-- Seven binary digits make one group.
bit_len_seven : (f v : ℕ) → 128 ≤ v → bit_len (seven_more f) v ≡ bit_len f (v / 128) + 7
unfolding bit_len
bit_len_seven f v h = ground (arith, halves)
  where
    halves : v / 2 / 2 / 2 / 2 / 2 / 2 / 2 ≡ v / 128
    halves = omega arith

bit_len-le : (k f v : ℕ) → v < 2 ^ k → bit_len f v ≤ k
unfolding bit_len
bit_len-le k zero v h = omega arith
bit_len-le zero (suc f) v h = ground arith
bit_len-le (suc k) (suc f) v h = ground (arith, bit_len-le k f (v / 2), pow-suc 2 k)

bit_len_small :
    (f v : ℕ) → 0 < v → v < 128 → (1 ≤ bit_len (seven_more f) v) × (bit_len (seven_more f) v ≤ 7)
bit_len_small f v p h = (bit_len_pos _ v p, bit_len-le 7 (seven_more f) v h)
  where
    bit_len_pos : (g n : ℕ) → 0 < n → 1 ≤ bit_len (suc g) n
    bit_len_pos g n q = unfold bit_len in ground arith

digits_of : ℕ → ℕ
digits_of zero = 1
digits_of (suc k) = seven_more (digits_of k)

-- The length of the groups and the number of binary digits, `k` groups of seven and one digit.
length-groups-bit_len :
    (k v : ℕ)
    → 0 < v
    → v < 128 ^ k * 2
    → (7 * length (groups k v) < bit_len (digits_of k) v + 7)
      × (bit_len (digits_of k) v ≤ 7 * length (groups k v))
unfolding groups digits_of
length-groups-bit_len zero v p h = unfold bit_len in ground arith
length-groups-bit_len (suc k) v p h = ground (
  arith,
  bit_len_seven (digits_of k) v,
  bit_len_small (digits_of k) v,
  length-groups-bit_len k (v / 128),
  pow-suc 128 k,
)

-- VarintLen is the length of what AppendVarint writes.
pub length-append_varint : (v : ℕ) → IsU64 v → length (append_varint [] v) ≡ varint_len v
length-append_varint v h = rw (append_varint-groups [] v h) (elim (dec_lt 0 v) [
  | yes p ↦ unfold varint_len digits_of in ground (arith, length-groups-bit_len 9 v p h)
  | no z ↦ let e : v ≡ 0 = omega arith in rw e (unfold varint_len groups in refl)
])

pub varint_len_bounds : (v : ℕ) → IsU64 v → (1 ≤ varint_len v) × (varint_len v ≤ 10)
varint_len_bounds v h =
    rw (← length-append_varint v h, append_varint-groups [] v h) (length-groups 9 v)

-- A number of `k` groups takes at most `k` bytes.
pub varint_len_small : (k v : ℕ) → v < 128 ^ suc k → IsU64 v → varint_len v ≤ k + 1
varint_len_small k v small h =
    let e : append_varint [] v ≡ groups k v =
      unfold append_varint in append_varint_loop-groups k [] v (lt_wf.apply v) small in
    rw (← length-append_varint v h, e) ((length-groups k v).1)

bit_len-fuel : (f v : ℕ) → bit_len f v ≤ f
unfolding bit_len
bit_len-fuel zero v = omega arith
bit_len-fuel (suc f) v = ground (arith, bit_len-fuel f (v / 2))

groups_of : (c : Bool) (b : ℕ) → b ≤ 64 → (if c then 1 else (b + 6) / 7) ≤ 10
groups_of true b h = omega arith
groups_of false b h = omega arith

pub varint_len_le : (v : ℕ) → varint_len v ≤ 10
unfolding varint_len
varint_len_le v = groups_of (v == 0) (bit_len 64 v) (bit_len-fuel 64 v)
