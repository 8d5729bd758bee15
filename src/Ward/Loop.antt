-- ===== src/Ward/Loop.antt =====
-- cmd/ward/main.go, the loop detector: how often a tool was called with the same arguments.
use vivary.Prelude.{
  ℕ, ◌+◌, ◌*◌, ◌%◌, ◌^◌, ◌≡◌, refl, ap, ◌∙◌, Bool, List, [], ◌∷◌, ◌++◌, foldl, append_assoc, arith,
  leb, ◌==◌, if◌then◌else◌, ==_iff, Str,
}
use Prim.Native.Nat.{bit_xor}

pub record LoopDetector : Type 0 where
  pub threshold : ℕ
  pub counts : List (ℕ × ℕ)

unfoldable pub new_loop_detector : ℕ → LoopDetector
new_loop_detector threshold = record { threshold = threshold; counts = [] }

-- hash/fnv New64a
abbrev fnv_byte : ℕ → ℕ → ℕ
fnv_byte h b = bit_xor h b * 1099511628211 % 2 ^ 64

unfoldable pub fnv64a : Str → ℕ
fnv64a s = foldl fnv_byte 14695981039346656037 s

-- `counts[key]`, which is 0 for a new key, and its increment
unfoldable pub count : ℕ → List (ℕ × ℕ) → ℕ
count key [] = 0
count key ((k, n) ∷ counts) = let rest = count key counts in if k == key then n else rest

unfoldable pub increment : ℕ → List (ℕ × ℕ) → List (ℕ × ℕ)
increment key [] = (key, 1) ∷ []
increment key ((k, n) ∷ counts) =
    let rest = increment key counts in if k == key then (k, n + 1) ∷ counts else (k, n) ∷ rest

-- A call of a tool: its name and its arguments
abbrev pub Call : Type 0
Call = Str × Str

unfoldable pub key_of : Call → ℕ
unfolding fnv64a
key_of c = fnv64a (c.0 ++ c.1)

-- `check`
unfoldable pub check : Call → LoopDetector → Bool × LoopDetector
check c l =
    let counts = increment (key_of c) l.counts in
    (leb l.threshold (count (key_of c) counts), record l { counts = counts })

unfoldable pub check_all : List Call → LoopDetector → LoopDetector
check_all [] l = l
check_all (c ∷ calls) l = check_all calls (check c l).1

-- How many of the calls have the key
unfoldable pub occurrences : ℕ → List Call → ℕ
occurrences key [] = 0
occurrences key (c ∷ calls) =
    let rest = occurrences key calls in if key_of c == key then rest + 1 else rest

count-increment :
    (key k : ℕ) (counts : List (ℕ × ℕ))
    → count key (increment k counts) ≡ (if k == key then count key counts + 1 else count key counts)
unfolding count increment
count-increment key k [] = ground arith
count-increment key k ((j, n) ∷ counts) = ground (arith, count-increment key k counts)

check-threshold : (c : Call) (l : LoopDetector) → (check c l).1.threshold ≡ l.threshold
unfolding check
check-threshold c l = refl

count-check_all :
    (key : ℕ) (calls : List Call) (l : LoopDetector)
    → (count key (check_all calls l).counts ≡ count key l.counts + occurrences key calls)
      × ((check_all calls l).threshold ≡ l.threshold)
unfolding check_all occurrences
count-check_all key [] l = (omega arith, refl)
count-check_all key (c ∷ calls) l =
    let (n, t) = count-check_all key calls (check c l).1 in (n ∙ counted, t ∙ check-threshold c l)
  where
    counted :
        count key (check c l).1.counts + occurrences key calls
        ≡ count key l.counts + occurrences key (c ∷ calls)
    counted = unfold check in ground (arith, count-increment key (key_of c) l.counts)

-- A tool call is found to be a loop exactly when it and the earlier calls of the run with the
-- same key make up the threshold; calls with other keys do not count.
pub check-occurrences :
    (threshold : ℕ) (before : List Call) (c : Call)
    → (check c (check_all before (new_loop_detector threshold))).0
      ≡ leb threshold (occurrences (key_of c) before + 1)
unfolding check new_loop_detector
check-occurrences threshold before c =
    let start = new_loop_detector threshold in
    let (n, t) = count-check_all (key_of c) before start in
    rw
      (
        t,
        count-increment (key_of c) (key_of c) (check_all before start).counts,
        (==_iff (key_of c) (key_of c)).1 refl,
        counted n,
      )
      refl
  where
    counted :
        count (key_of c) (check_all before (new_loop_detector threshold)).counts
          ≡ count (key_of c) (new_loop_detector threshold).counts + occurrences (key_of c) before
        → count (key_of c) (check_all before (new_loop_detector threshold)).counts
          ≡ occurrences (key_of c) before
    counted n = unfold count in omega (arith, n)

-- The key is of the name and the arguments run together: where the name ends does not matter.
pub key_of-append : (a b rest : Str) → key_of (a ++ b, rest) ≡ key_of (a, b ++ rest)
unfolding key_of
key_of-append a b rest = ap fnv64a (append_assoc a b rest)
