-- ===== src/Mus/Extends.antt =====
-- A parser that succeeds does not look past what it read, so a proper prefix of a message is never
-- read as that message.
use vivary.Prelude.{
  ℕ, zero, suc, ◌+◌, ◌≡◌, ◌≢◌, refl, List, Str, [], ◌∷◌, ◌++◌, append-nil, length-append,
  take_append, drop_append, arith, if◌then◌else◌, Bool, true, false,
}
use vivary.Mus.{
  Source, Result, ok, err, panicked, Parser, Error, ◌>>=◌, pure, fail, within, read_full,
  read_varint, read_varint_byte, read_varint_byte_loop, read_string, string_body, make_and_read,
  add_group,
}
use vivary.Mus.Read.{read_varint-eq-byte}
use vivary.Mus.Wire.{Reads}

pub record Extends {ℓ} {A : Type ℓ} (p : Parser A) : Type ℓ where
  pub at :
      (src : Source) (bs more : List ℕ) (a : A) (rest : List ℕ)
      → p src bs ≡ ok (a, rest)
      → p src (bs ++ more) ≡ ok (a, rest ++ more)

pub Extends-pure {ℓ} : {A : Type ℓ} (a : A) → Extends (pure a)
unfolding pure
Extends-pure a = record { at = λ src bs more b rest e. cc }

pub Extends-fail {ℓ} : {A : Type ℓ} (e : Error) → Extends (fail {A = A} e)
unfolding fail
Extends-fail e = record { at = λ src bs more b rest h. cc }

pub Extends-if {ℓ} :
    {A : Type ℓ} (c : Bool) (p q : Parser A) → Extends p → Extends q → Extends (if c then p else q)
Extends-if true p q hp hq = hp
Extends-if false p q hp hq = hq

bind_cases {ℓ κ} :
    {A : Type ℓ} {B : Type κ} (p : Parser A) (f : A → Parser B) (src : Source) (bs more : List ℕ)
    (b : B) (rest : List ℕ) (r : Result (A × List ℕ))
    → p src bs ≡ r
    → Extends p
    → ((a : A) → Extends (f a))
    → (p >>= f) src bs ≡ ok (b, rest)
    → (p >>= f) src (bs ++ more) ≡ ok (b, rest ++ more)
unfolding ◌>>=◌
bind_cases p f src bs more b rest (ok (a, mid)) e hp hf h =
    rw (hp.at src bs more a mid e) ((hf a).at src mid more b rest (rw e at h))
bind_cases p f src bs more b rest (err x) e hp hf h = cc (rw e at h)
bind_cases p f src bs more b rest panicked e hp hf h = cc (rw e at h)

pub Extends-bind {ℓ κ} :
    {A : Type ℓ} {B : Type κ} (p : Parser A) (f : A → Parser B)
    → Extends p
    → ((a : A) → Extends (f a))
    → Extends (p >>= f)
Extends-bind p f hp hf = record {
  at = λ src bs more b rest h. bind_cases p f src bs more b rest (p src bs) refl hp hf h;
}

pub Extends-within {ℓ} :
    {A : Type ℓ} (tag : Str) (p : Parser A) → Extends p → Extends (within tag p)
unfolding within
Extends-within tag p hp = record {
  at = λ src bs more b rest h. ground (arith, hp.at src bs more b rest);
}

pub Extends-read_full : (n : ℕ) → Extends (read_full n)
unfolding read_full
Extends-read_full n = record {
  at = λ src bs more b rest h.
      ground (arith, length-append bs more, take_append n bs more, drop_append n bs more);
}

read_loop-append :
    (k acc shift : ℕ) (src : Source) (bs more : List ℕ) (v : ℕ) (rest : List ℕ)
    → read_varint_byte_loop k acc shift src bs ≡ ok (v, rest)
    → read_varint_byte_loop k acc shift src (bs ++ more) ≡ ok (v, rest ++ more)
unfolding read_varint_byte_loop
read_loop-append zero acc shift src bs more v rest e = cc
read_loop-append (suc k) acc shift src [] more v rest e = cc
read_loop-append (suc k) acc shift src (b ∷ bs) more v rest e =
    ground (arith, read_loop-append k (add_group acc b shift) (shift + 7) src bs more v rest)

pub Extends-read_varint : Extends read_varint
Extends-read_varint = record {
  at = λ src bs more b rest h. rw read_varint-eq-byte (
      unfold read_varint_byte in
      read_loop-append 10 0 0 src bs more b rest (rw read_varint-eq-byte at h));
}

Extends-string_body : (max_len n : ℕ) → Extends (string_body max_len n)
unfolding string_body
Extends-string_body max_len n = record {
  at = λ src bs more b rest h. ground (arith, (Extends-read_full n).at src bs more b rest);
}

pub Extends-read_string : (max_len : ℕ) → Extends (read_string max_len)
unfolding read_string
Extends-read_string max_len =
    Extends-bind read_varint (string_body max_len) Extends-read_varint (Extends-string_body max_len)

pub Extends-make_and_read : (n : ℕ) → Extends (make_and_read n)
unfolding make_and_read
Extends-make_and_read n = record {
  at = λ src bs more b rest h. ground (arith, (Extends-read_full n).at src bs more b rest);
}

pub ruleset extends_rules = (
  Extends-pure, Extends-fail, Extends-if, Extends-bind, Extends-within, Extends-read_full,
  Extends-read_varint, Extends-read_string, Extends-make_and_read,
)

append-eq-nil : (xs ys : List ℕ) → xs ++ ys ≡ [] → ys ≡ []
append-eq-nil [] ys e = e
append-eq-nil (x ∷ xs) ys e = cc

-- If `p` reads a message from `front ++ back` and `back` is not empty, it does not succeed on `front`.
pub Extends-prefix {ℓ} :
    {A : Type ℓ} {p : Parser A} {a : A} (src : Source) (front back : List ℕ)
    → Extends p
    → Reads p a (front ++ back)
    → back ≢ []
    → (b : A) (rest : List ℕ) → p src front ≢ ok (b, rest)
Extends-prefix {p} {a} src front back hp r ne b rest e =
    let whole : p src (front ++ back) ≡ ok (a, []) = rw append-nil at (r.at src []) in
    let left : rest ++ back ≡ [] = cc (whole, hp.at src front back b rest e) in
    ne (append-eq-nil rest back left)
