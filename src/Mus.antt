-- ===== src/Mus.antt =====
-- pkg/mus/mus.go: unsigned LEB128 integers and length-prefixed strings over a byte stream.
-- A reader is a function from the bytes that are still to come; `Source` says what kind of reader
-- it is and what it answers when the bytes are used up. A uint64 is a number below 2 ^ 64.
pub mod Varint
pub mod Read
pub mod Strings
pub mod Extends
pub mod Wire
pub mod Flags
pub mod Ensures
pub mod Errors
mod Tests
use vivary.Prelude.{
  ℕ, zero, suc, ◌+◌, ◌-◌, ◌*◌, ◌/◌, ◌%◌, ◌^◌, ◌≤◌, ◌<◌, bit_and, bit_or, String, Bool, true, false,
  List, [], ◌∷◌, ◌++◌, Str, bytes, length, take, drop, ltb, leb, ◌==◌, if◌then◌else◌, arith, dite,
}
use vivary.Prelude.Order.{lt_wf}
use mathlib.Core.WellFounded.{Acc}
use native.Mathlib.Decide.{dec_le}

-- The errors of the package, of `io`, and of the packages that read frames. `wrap` is
-- fmt.Errorf("%s: %w"), `fault` any other error of the underlying reader.
pub data Error : Type 0 where
  eof unexpected_eof varint_overflow string_too_long payload_too_large frame_truncated : Error
  fault : Str → Error
  wrap : Str → Error → Error

-- `panicked`: the goroutine ends in a run-time panic.
pub data Result {ℓ} (A : Type ℓ) : Type ℓ where
  ok : A → Result A
  err : Error → Result A
  panicked : Result A

pub data Ending : Type 0 where
  closed : Ending
  broken : Str → Ending

-- `byte_reader`: the reader implements io.ByteReader, as bufio.Reader and bytes.Reader do.
pub record Source : Type 0 where
  pub byte_reader : Bool
  pub ending : Ending

abbrev pub Parser {ℓ} : Type ℓ → Type ℓ
Parser A = Source → List ℕ → Result (A × List ℕ)

module _ {ℓ κ} {A : Type ℓ} {B : Type κ} where
  abbrev continue : Result (A × List ℕ) → (A → List ℕ → Result (B × List ℕ)) → Result (B × List ℕ)
  continue (ok (a, rest)) f = f a rest
  continue (err e) f = err e
  continue panicked f = panicked

  infixl 5 ◌>>=◌
  unfoldable pub ◌>>=◌ : Parser A → (A → Parser B) → Parser B
  ◌>>=◌ p f src bs = continue (p src bs) (λ a rest. f a src rest)

module _ {ℓ} {A : Type ℓ} where
  unfoldable pub pure : A → Parser A
  pure a src bs = ok (a, bs)

  unfoldable pub fail : Error → Parser A
  fail e src bs = err e

  -- `if err != nil { return fmt.Errorf("tag: %w", err) }`
  wrap_error : Str → Result (A × List ℕ) → Result (A × List ℕ)
  wrap_error tag (ok r) = ok r
  wrap_error tag (err e) = err (wrap tag e)
  wrap_error tag panicked = panicked

  unfoldable pub within : Str → Parser A → Parser A
  unfolding wrap_error
  within tag p src bs = wrap_error tag (p src bs)

abbrev pub end_error : Ending → Error
end_error closed = eof
end_error (broken m) = fault m

-- what io.ReadFull answers when the bytes do not suffice
abbrev pub short_error : Ending → List ℕ → Error
short_error e [] = end_error e
short_error closed (b ∷ bs) = unexpected_eof
short_error (broken m) (b ∷ bs) = fault m

-- io.ReadFull into a buffer of `n` bytes
unfoldable pub read_full : ℕ → Parser Str
read_full n src bs =
    if leb n (length bs) then ok (take n bs, drop n bs) else err (short_error src.ending bs)

-- io.EOF becomes io.ErrUnexpectedEOF, any other error stays.
abbrev pub eof_unexpected : Error → Error
eof_unexpected eof = unexpected_eof
eof_unexpected e = e

abbrev pub max_payload_bytes : ℕ
max_payload_bytes = 4 * 1024 * 1024

pub shift_shrinks : (v : ℕ) → 128 ≤ v → v / 128 < v
shift_shrinks v h = omega arith

-- `byte(v)|0x80` while `v >= 0x80`, then `v >>= 7`
append_varint_loop : List ℕ → (v : ℕ) → Acc ◌<◌ v → List ℕ
append_varint_loop b v (Acc.intro _ smaller) =
    dite (dec_le 128 v)
      (λ more.
        append_varint_loop (b ++ (bit_or (v % 256) 0x80 ∷ [])) (v / 128)
          (smaller _ (shift_shrinks v more)))
      (λ _. b ++ ((v % 256) ∷ []))

unfoldable pub append_varint : List ℕ → ℕ → List ℕ
unfolding append_varint_loop lt_wf dec_le
append_varint b v = append_varint_loop b v (lt_wf.apply v)

-- math/bits.Len64, on `k` digits at most
bit_len : ℕ → ℕ → ℕ
bit_len zero v = 0
bit_len (suc k) v = let rest = bit_len k (v / 2) in if v == 0 then 0 else rest + 1

unfoldable pub varint_len : ℕ → ℕ
unfolding bit_len
varint_len v = if v == 0 then 1 else (bit_len 64 v + 6) / 7

-- `result |= uint64(b&0x7F) << shift`
abbrev pub add_group : ℕ → ℕ → ℕ → ℕ
add_group result b shift = bit_or result (bit_and b 0x7f * 2 ^ shift % 2 ^ 64)

-- The loop of `readVarintByte` with `k` rounds left; ReadByte answers the reader's own error.
read_varint_byte_loop : ℕ → ℕ → ℕ → Parser ℕ
read_varint_byte_loop zero result shift src bs = err varint_overflow
read_varint_byte_loop (suc k) result shift src [] = err (eof_unexpected (end_error src.ending))
read_varint_byte_loop (suc k) result shift src (b ∷ bs) =
    let result' = add_group result b shift in
    let rest = read_varint_byte_loop k result' (shift + 7) src bs in
    if ltb b 0x80 then ok (result', bs) else rest

unfoldable pub read_varint_byte : Parser ℕ
unfolding read_varint_byte_loop
read_varint_byte src bs = read_varint_byte_loop 10 0 0 src bs

first_byte : Str → ℕ
first_byte [] = 0
first_byte (b ∷ bs) = b

-- The loop of `readVarintSlow`, which reads each byte by io.ReadFull.
read_varint_slow_loop : ℕ → ℕ → ℕ → Parser ℕ
read_varint_slow_loop zero result shift src bs = err varint_overflow
read_varint_slow_loop (suc k) result shift src bs = elim (read_full 1 src bs) [
  | err e ↦ err (eof_unexpected e)
  | panicked ↦ panicked
  | ok (buf, bs') ↦
      let b = first_byte buf in
      let result' = add_group result b shift in
      if ltb b 0x80 then ok (result', bs') else read_varint_slow_loop k result' (shift + 7) src bs'
]

unfoldable pub read_varint_slow : Parser ℕ
unfolding read_varint_slow_loop read_full first_byte
read_varint_slow src bs = read_varint_slow_loop 10 0 0 src bs

unfoldable pub read_varint : Parser ℕ
read_varint src bs = if src.byte_reader then read_varint_byte src bs else read_varint_slow src bs

unfoldable pub append_string : List ℕ → Str → List ℕ
append_string b s = append_varint b (length s) ++ s

-- A failed io.ReadFull of the string's bytes
abbrev unexpected {ℓ} : {A : Type ℓ} → Result A → Result A
unexpected (ok r) = ok r
unexpected (err e) = err (eof_unexpected e)
unexpected panicked = panicked

-- `ReadString` once the length `n` is read
string_body : ℕ → ℕ → Parser Str
unfolding fail pure
string_body max_len n =
    if ltb max_len n then fail string_too_long else if n == 0 then pure [] else λ src bs.
    unexpected (read_full n src bs)

unfoldable pub read_string : ℕ → Parser Str
unfolding ◌>>=◌ string_body read_full
read_string max_len = read_varint >>= string_body max_len

-- The largest allocation of the Go runtime on a 64-bit machine, in bytes.
abbrev pub max_alloc : ℕ
max_alloc = 2 ^ 48

-- `make([]byte, n)` panics if `n` is out of range, and `io.ReadFull` fills it.
unfoldable pub make_and_read : ℕ → Parser Str
unfolding read_full
make_and_read n src bs = if leb n max_alloc then read_full n src bs else panicked
