-- ===== src/Mus/Ensures.antt =====
-- What holds of a value that a parser returned, and that it did not invent input.
use vivary.Prelude.{
  ℕ, zero, suc, ◌+◌, ◌≤◌, ◌<◌, ◌≡◌, refl, List, Str, [], ◌∷◌, length, length-take, length-drop,
  arith, if◌then◌else◌, Bool, true, false,
}
use vivary.Mus.{
  Source, Result, ok, err, panicked, Parser, Error, ◌>>=◌, pure, fail, within, read_full,
  read_varint, read_varint_byte, read_varint_byte_loop, read_string, string_body, add_group,
}
use mathlib.Core.Path.{subst}
use native.Mathlib.Nat.{le_refl}
use vivary.Prelude.{ap, ◌∙◌}
use vivary.Mus.Read.{read_varint-eq-byte}

-- If `p` returns, its value satisfies `P`, and what is left is no longer than what there was.
pub record Ensures {ℓ κ} {A : Type ℓ} (P : A → Type κ) (p : Parser A) : Type (ℓ ⊔ κ) where
  pub at :
      (src : Source) (bs : List ℕ) (a : A) (rest : List ℕ)
      → p src bs ≡ ok (a, rest)
      → P a × (length rest ≤ length bs)

abbrev or_else {ℓ} : {A : Type ℓ} → A → Result A → A
or_else d (ok a) = a
or_else d (err e) = d
or_else d panicked = d

pub ok-injective {ℓ} : {A : Type ℓ} {a b : A} → ok a ≡ ok b → a ≡ b
ok-injective {a} e = ap (or_else a) e

within_cases {ℓ} :
    {A : Type ℓ} (tag : Str) (p : Parser A) (src : Source) (bs : List ℕ) (b : A) (rest : List ℕ)
    (r : Result (A × List ℕ))
    → p src bs ≡ r
    → within tag p src bs ≡ ok (b, rest)
    → p src bs ≡ ok (b, rest)
unfolding within
within_cases tag p src bs b rest (ok x) e h = e ∙ (rw e at h)
within_cases tag p src bs b rest (err x) e h = cc (rw e at h)
within_cases tag p src bs b rest panicked e h = cc (rw e at h)

module _ {ℓ κ} {A : Type ℓ} {P : A → Type κ} where
  pub Ensures-pure : (a : A) → P a → Ensures P (pure a)
  unfolding pure
  Ensures-pure a h = record {
    at = λ src bs b rest e.
        let same : ◌≡◌ {A = A × List ℕ} (a, bs) (b, rest) = ok-injective e in
        subst (λ (r : A × List ℕ). P r.0 × (length r.1 ≤ length bs)) same (h, le_refl (length bs));
  }

  pub Ensures-fail : (e : Error) → Ensures P (fail e)
  unfolding fail
  Ensures-fail e = record { at = λ src bs b rest h. cc }

  pub Ensures-if :
      (c : Bool) (p q : Parser A)
      → (c ≡ true → Ensures P p)
      → (c ≡ false → Ensures P q)
      → Ensures P (if c then p else q)
  Ensures-if true p q hp hq = hp refl
  Ensures-if false p q hp hq = hq refl

  pub Ensures-within : (tag : Str) (p : Parser A) → Ensures P p → Ensures P (within tag p)
  Ensures-within tag p hp = record {
    at = λ src bs b rest h. hp.at src bs b rest (within_cases tag p src bs b rest _ refl h);
  }

module _ {ℓ κ μ ν} {A : Type ℓ} {B : Type κ} {P : A → Type μ} {Q : B → Type ν} where
  bind_cases :
      (p : Parser A) (f : A → Parser B) (src : Source) (bs : List ℕ) (b : B) (rest : List ℕ)
      (r : Result (A × List ℕ))
      → p src bs ≡ r
      → Ensures P p
      → ((a : A) → P a → Ensures Q (f a))
      → (p >>= f) src bs ≡ ok (b, rest)
      → Q b × (length rest ≤ length bs)
  unfolding ◌>>=◌
  bind_cases p f src bs b rest (ok (a, mid)) e hp hf h =
      let (pa, shorter) = hp.at src bs a mid e in
      let (qb, shorter') = (hf a pa).at src mid b rest (rw e at h) in (qb, omega arith)
  bind_cases p f src bs b rest (err x) e hp hf h = cc (rw e at h)
  bind_cases p f src bs b rest panicked e hp hf h = cc (rw e at h)

  pub Ensures-bind :
      (p : Parser A) (f : A → Parser B)
      → Ensures P p
      → ((a : A) → P a → Ensures Q (f a))
      → Ensures Q (p >>= f)
  Ensures-bind p f hp hf = record {
    at = λ src bs b rest h. bind_cases p f src bs b rest (p src bs) refl hp hf h;
  }

pub Ensures-read_full : (n : ℕ) → Ensures (λ s. length s ≡ n) (read_full n)
unfolding read_full
Ensures-read_full n = record {
  at = λ src bs b rest h. ground (arith, length-take n bs, length-drop n bs);
}

read_loop_shorter :
    (k acc shift : ℕ) (src : Source) (bs : List ℕ) (v : ℕ) (rest : List ℕ)
    → read_varint_byte_loop k acc shift src bs ≡ ok (v, rest)
    → length rest < length bs
unfolding read_varint_byte_loop
read_loop_shorter zero acc shift src bs v rest e = cc
read_loop_shorter (suc k) acc shift src [] v rest e = cc
read_loop_shorter (suc k) acc shift src (b ∷ bs) v rest e =
    ground (arith, read_loop_shorter k (add_group acc b shift) (shift + 7) src bs v rest)

pub Ensures-read_varint : Ensures (λ v. Unit {0}) read_varint
Ensures-read_varint = record {
  at = λ src bs b rest h.
      let e : read_varint_byte_loop 10 0 0 src bs ≡ ok (b, rest) =
        unfold read_varint_byte in rw read_varint-eq-byte at h in
      (tt, omega (arith, read_loop_shorter 10 0 0 src bs b rest e));
}

Ensures-string_body : (max_len n : ℕ) → Ensures (λ s. length s ≤ max_len) (string_body max_len n)
unfolding string_body
Ensures-string_body max_len n = record {
  at = λ src bs b rest h. ground (arith, (Ensures-read_full n).at src bs b rest);
}

pub Ensures-read_string : (max_len : ℕ) → Ensures (λ s. length s ≤ max_len) (read_string max_len)
unfolding read_string
Ensures-read_string max_len =
    Ensures-bind read_varint (string_body max_len) Ensures-read_varint
      (λ n _. Ensures-string_body max_len n)

-- If `p` returns, it has taken some input.
pub record Shrinks {ℓ} {A : Type ℓ} (p : Parser A) : Type ℓ where
  pub at :
      (src : Source) (bs : List ℕ) (a : A) (rest : List ℕ)
      → p src bs ≡ ok (a, rest)
      → length rest < length bs

module _ {ℓ κ μ} {A : Type ℓ} {B : Type κ} {Q : B → Type μ} where
  shrink_cases :
      (p : Parser A) (f : A → Parser B) (src : Source) (bs : List ℕ) (b : B) (rest : List ℕ)
      (r : Result (A × List ℕ))
      → p src bs ≡ r
      → Shrinks p
      → ((a : A) → Ensures Q (f a))
      → (p >>= f) src bs ≡ ok (b, rest)
      → length rest < length bs
  unfolding ◌>>=◌
  shrink_cases p f src bs b rest (ok (a, mid)) e hp hf h =
      let shorter = hp.at src bs a mid e in
      let (qb, shorter') = (hf a).at src mid b rest (rw e at h) in omega arith
  shrink_cases p f src bs b rest (err x) e hp hf h = cc (rw e at h)
  shrink_cases p f src bs b rest panicked e hp hf h = cc (rw e at h)

  pub Shrinks-bind :
      (p : Parser A) (f : A → Parser B)
      → Shrinks p
      → ((a : A) → Ensures Q (f a))
      → Shrinks (p >>= f)
  Shrinks-bind p f hp hf = record {
    at = λ src bs b rest h. shrink_cases p f src bs b rest (p src bs) refl hp hf h;
  }
