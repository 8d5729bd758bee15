-- ===== src/Mus/Strings.antt =====
-- Length-prefixed strings: ReadString reads back what AppendString wrote.
use vivary.Prelude.{
  ℕ, zero, suc, ◌+◌, ◌^◌, ◌≤◌, ◌<◌, ◌≡◌, refl, sym, ap, ◌∙◌, true, false, List, Str, [], ◌∷◌, ◌++◌,
  append_assoc, length, length-append, take-length-append, drop-length-append, leb, ltb, ◌==◌,
  if◌then◌else◌, arith, le→leb, Bool-cases, inl, inr,
}
use vivary.Mus.{
  append_varint_loop, string_body, Source, ok, err, Parser, ◌>>=◌, within, append_varint,
  append_string, read_full, read_varint, read_string, varint_len, string_too_long,
}
use vivary.Prelude.{bit_or, ◌%◌, ◌/◌, append-nil}
use vivary.Prelude.Order.{lt_wf}
use mathlib.Core.WellFounded.{Acc}
use vivary.Mus.Varint.{IsU64, length-append_varint}
use vivary.Mus.Read.{read_varint-append_varint}

-- What AppendVarint and AppendString append.
unfoldable pub varint_bytes : ℕ → List ℕ
varint_bytes v = append_varint [] v

unfoldable pub string_bytes : Str → List ℕ
string_bytes s = varint_bytes (length s) ++ s

append_loop-append :
    (b c : List ℕ) (v : ℕ) (w : Acc ◌<◌ v)
    → append_varint_loop (b ++ c) v w ≡ b ++ append_varint_loop c v w
unfolding append_varint_loop
append_loop-append b c v (Acc.intro _ smaller) = grind (
  arith,
  append_assoc b c (bit_or (v % 256) 0x80 ∷ []),
  append_assoc b c ((v % 256) ∷ []),
  λ (q : v / 128 < v).
      append_loop-append b (c ++ (bit_or (v % 256) 0x80 ∷ [])) (v / 128) (smaller (v / 128) q),
)

pub append_varint-append : (b : List ℕ) (v : ℕ) → append_varint b v ≡ b ++ varint_bytes v
unfolding varint_bytes append_varint
append_varint-append b v =
    ap (λ (t : List ℕ). append_varint_loop t v (lt_wf.apply v)) (sym (append-nil b))
    ∙ append_loop-append b [] v (lt_wf.apply v)

pub append_string-append : (b : List ℕ) (s : Str) → append_string b s ≡ b ++ string_bytes s
unfolding append_string string_bytes
append_string-append b s =
    rw (append_varint-append b (length s)) (append_assoc b (varint_bytes (length s)) s)

-- `b = append(b, …)` in sequence, as one concatenation
pub ruleset wire_form = (append_varint-append, append_string-append, append_assoc)

pub length-varint_bytes : (v : ℕ) → IsU64 v → length (varint_bytes v) ≡ varint_len v
unfolding varint_bytes
length-varint_bytes v h = length-append_varint v h

pub length-string_bytes :
    (s : Str) → IsU64 (length s) → length (string_bytes s) ≡ varint_len (length s) + length s
unfolding string_bytes
length-string_bytes s h =
    length-append (varint_bytes (length s)) s
    ∙ ap (λ (n : ℕ). n + length s) (length-varint_bytes (length s) h)

-- io.ReadFull takes exactly the bytes that it was asked for.
pub read_full-append :
    (s : Str) (src : Source) (rest : List ℕ) → read_full (length s) src (s ++ rest) ≡ ok (s, rest)
unfolding read_full
read_full-append s src rest = rw (
  length-append s rest,
  le→leb (length s) (length s + length rest) (omega arith),
  take-length-append s rest,
  drop-length-append s rest,
)

-- A parser that succeeds hands its result on.
pub bind_ok {ℓ κ} :
    {A : Type ℓ} {B : Type κ} (p : Parser A) (f : A → Parser B) (src : Source) (bs : List ℕ) {a : A}
    {rest : List ℕ}
    → p src bs ≡ ok (a, rest)
    → (p >>= f) src bs ≡ f a src rest
unfolding ◌>>=◌
bind_ok p f src bs e = rw e

pub within_ok {ℓ} :
    {A : Type ℓ} (tag : Str) (p : Parser A) (src : Source) (bs : List ℕ) {a : A} {rest : List ℕ}
    → p src bs ≡ ok (a, rest)
    → within tag p src bs ≡ ok (a, rest)
unfolding within
within_ok tag p src bs e = rw e

string_body-append :
    (max_len : ℕ) (s : Str) (src : Source) (rest : List ℕ)
    → length s ≤ max_len
    → string_body max_len (length s) src (s ++ rest) ≡ ok (s, rest)
unfolding string_body
string_body-append max_len [] src rest fits = ground arith
string_body-append max_len (c ∷ s) src rest fits = ground (arith, read_full-append (c ∷ s) src rest)

pub read_varint-varint_bytes :
    (v : ℕ) (src : Source) (rest : List ℕ)
    → IsU64 v
    → read_varint src (varint_bytes v ++ rest) ≡ ok (v, rest)
unfolding varint_bytes
read_varint-varint_bytes = read_varint-append_varint

-- ReadString reads back a string that is not above its limit, and leaves what follows.
pub read_string-string_bytes :
    (max_len : ℕ) (s : Str) (src : Source) (rest : List ℕ)
    → length s ≤ max_len
    → IsU64 (length s)
    → read_string max_len src (string_bytes s ++ rest) ≡ ok (s, rest)
unfolding read_string string_bytes
read_string-string_bytes max_len s src rest fits h =
    rw (append_assoc (varint_bytes (length s)) s rest) (
      bind_ok read_varint (string_body max_len) src _
        (read_varint-varint_bytes (length s) src (s ++ rest) h)
      ∙ string_body-append max_len s src rest fits)

-- A string above the limit is refused, whatever bytes follow its length.
pub read_string-too_long :
    (max_len n : ℕ) (src : Source) (rest : List ℕ)
    → max_len < n
    → IsU64 n
    → read_string max_len src (varint_bytes n ++ rest) ≡ err string_too_long
unfolding read_string
read_string-too_long max_len n src rest long h =
    bind_ok read_varint (string_body max_len) src _ (read_varint-varint_bytes n src rest h)
    ∙ unfold string_body in ground arith
