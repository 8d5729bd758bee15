-- ===== src/Mus/Wire.antt =====
-- How a parser and what a marshaller writes fit: a rule for each way to build a parser.
use vivary.Prelude.{
  ℕ, ◌≤◌, ◌≡◌, refl, ◌∙◌, ap, List, Str, [], ◌∷◌, ◌++◌, append_assoc, length, arith, leb, true,
  le→leb, leb→le,
}
use vivary.Mus.{
  Source, ok, Parser, ◌>>=◌, pure, within, read_full, read_varint, read_string, make_and_read,
  max_alloc,
}
use vivary.Mus.Varint.{IsU64}
use vivary.Mus.Strings.{
  varint_bytes, string_bytes, read_varint-varint_bytes, read_string-string_bytes, read_full-append,
  bind_ok, within_ok,
}

-- `p` reads `a` from the bytes `w`, by any reader, and leaves whatever follows them.
pub record Reads {ℓ} {A : Type ℓ} (p : Parser A) (a : A) (w : Str) : Type ℓ where
  pub at : (src : Source) (rest : List ℕ) → p src (w ++ rest) ≡ ok (a, rest)

-- A message as the list of its parts. It stays shut, so that the rules see the parts.
unfoldable pub concat : List Str → Str
concat [] = []
concat (w ∷ ws) = w ++ concat ws

pub Reads-pure {ℓ} : {A : Type ℓ} {a b : A} → a ≡ b → Reads (pure a) b (concat [])
unfolding pure concat
Reads-pure e = record { at = λ src rest. ap (λ x. ok (x, rest)) e }

pub Reads-done {ℓ} : {A : Type ℓ} (a : A) → Reads (pure a) a (concat [])
Reads-done a = Reads-pure refl

pub Reads-bind {ℓ κ} :
    {A : Type ℓ} {B : Type κ} (p : Parser A) (f : A → Parser B) (ws : List Str) {a : A} {b : B}
    {w : Str}
    → Reads p a w
    → Reads (f a) b (concat ws)
    → Reads (p >>= f) b (concat (w ∷ ws))
unfolding concat
Reads-bind p f ws {w} rp rf = record {
  at = λ src rest.
      rw (append_assoc w (concat ws) rest)
        (bind_ok p f src _ (rp.at src (concat ws ++ rest)) ∙ rf.at src rest);
}

pub Reads-within {ℓ} :
    {A : Type ℓ} (tag : Str) {p : Parser A} {a : A} {w : Str}
    → Reads p a w
    → Reads (within tag p) a w
Reads-within tag {p} rp = record { at = λ src rest. within_ok tag p src _ (rp.at src rest) }

pub Reads-varint : (v : ℕ) → IsU64 v → Reads read_varint v (varint_bytes v)
Reads-varint v h = record { at = λ src rest. read_varint-varint_bytes v src rest h }

pub Reads-string :
    (n : ℕ) (s : Str)
    → length s ≤ n
    → leb n max_alloc ≡ true
    → Reads (read_string n) s (string_bytes s)
Reads-string n s fits small = record {
  at = λ src rest. read_string-string_bytes n s src rest fits (omega (arith, leb→le));
}

pub Reads-full : (s : Str) → Reads (read_full (length s)) s s
Reads-full s = record { at = λ src rest. read_full-append s src rest }

pub Reads-make : (s : Str) → length s ≤ max_alloc → Reads (make_and_read (length s)) s s
unfolding make_and_read
Reads-make s fits = record {
  at = λ src rest. rw (le→leb (length s) max_alloc fits) (read_full-append s src rest);
}

-- The rules for a block of reads, in which the bytes decide what is read.
module _ {ℓ} {B : Type ℓ} {b : B} (ws : List Str) where
  pub Reads-bind_string :
      (n : ℕ) (s : Str) (f : Str → Parser B)
      → length s ≤ n
      → leb n max_alloc ≡ true
      → Reads (f s) b (concat ws)
      → Reads (read_string n >>= f) b (concat (string_bytes s ∷ ws))
  Reads-bind_string n s f fits small r = Reads-bind _ _ _ (Reads-string n s fits small) r

  pub Reads-bind_varint :
      (v : ℕ) (f : ℕ → Parser B)
      → IsU64 v
      → Reads (f v) b (concat ws)
      → Reads (read_varint >>= f) b (concat (varint_bytes v ∷ ws))
  Reads-bind_varint v f h r = Reads-bind _ _ _ (Reads-varint v h) r

  pub Reads-bind_byte :
      (c : ℕ) (f : Str → Parser B)
      → Reads (f (c ∷ [])) b (concat ws)
      → Reads (read_full 1 >>= f) b (concat ((c ∷ []) ∷ ws))
  Reads-bind_byte c f r = Reads-bind _ _ _ (Reads-full (c ∷ [])) r

  pub Reads-bind_make :
      (s : Str) (f : Str → Parser B)
      → length s ≤ max_alloc
      → Reads (f s) b (concat ws)
      → Reads (make_and_read (length s) >>= f) b (concat (s ∷ ws))
  Reads-bind_make s f fits r = Reads-bind _ _ _ (Reads-make s fits) r

pub ruleset reads_rules =
    (Reads-done, Reads-bind_string, Reads-bind_varint, Reads-bind_byte, Reads-bind_make)
