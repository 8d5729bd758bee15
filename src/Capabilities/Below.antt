-- ===== src/Capabilities/Below.antt =====
-- filepath.Join of a directory and a plain name: the name is put below the directory as it stands.
use vivary.Prelude.{
  ◌≡◌, refl, sym, ◌∙◌, ◌≢◌, inl, inr, Bool, true, false, List, [], ◌∷◌, ◌++◌, foldl, append_assoc,
  ◌==◌, Bool-cases, Str, bytes, str_eq, str_eq_no, has_prefix,
}
use mathlib.Core.List.{foldl-append, reverse-append, append_cancel_left}
use vivary.Capabilities.Paths.{
  is_abs, split_slash, components, render, clean, join, push_part, join_slash,
}

-- A name of one path element, which stands for itself
pub record IsPlainName (name : Str) : Type 0 where
  pub nonempty : name ≢ []
  pub not_dot : name ≢ bytes "."
  pub not_dot_dot : name ≢ bytes ".."
  pub no_slash : split_slash name ≡ name ∷ []

split_nonempty : (p : Str) → (part : Str) × (parts : List Str) × (split_slash p ≡ part ∷ parts)
unfolding split_slash
split_nonempty [] = ([], [], refl)
split_nonempty (c ∷ p) =
    let (part, parts, e) = split_nonempty p in
    elim (Bool-cases (c == b'/')) [
      | inl slash ↦ ([], split_slash p, rw slash refl)
      | inr other ↦ (c ∷ part, parts, rw (other, e) refl)
    ]

split_slash-append : (a b : Str) → split_slash (a ++ (b'/' ∷ b)) ≡ split_slash a ++ split_slash b
unfolding split_slash
split_slash-append [] b = refl
split_slash-append (c ∷ a) b = elim (Bool-cases (c == b'/')) [
  | inl slash ↦ rw (slash, split_slash-append a b) refl
  | inr other ↦
      let (part, parts, e) = split_nonempty a in rw (other, split_slash-append a b, e) refl
]

push_plain :
    (rooted : Bool) (before : List Str) (name : Str)
    → IsPlainName name
    → push_part rooted before name ≡ name ∷ before
push_plain rooted before name h =
    rw
      (
        str_eq_no name [] h.nonempty,
        str_eq_no name (bytes ".") h.not_dot,
        str_eq_no name (bytes "..") h.not_dot_dot,
      )
      refl

is_abs-append : (root rest : Str) → is_abs root ≡ true → is_abs (root ++ rest) ≡ true
unfolding has_prefix
is_abs-append [] rest h = cc
is_abs-append (c ∷ root) rest h = h

components-below :
    (root name : Str)
    → is_abs root ≡ true
    → IsPlainName name
    → components (root ++ (b'/' ∷ name)) ≡ components root ++ (name ∷ [])
unfolding components
components-below root name absolute h =
    rw
      (
        is_abs-append root (b'/' ∷ name) absolute,
        split_slash-append root name,
        h.no_slash,
        foldl-append (push_part true) [] (split_slash root) (name ∷ []),
        push_plain true (foldl (push_part true) [] (split_slash root)) name h,
        absolute,
      )
      (reverse-append (name ∷ []) (foldl (push_part true) [] (split_slash root)))

-- What stands in front of the last part
in_front : List Str → Str
in_front [] = []
in_front (part ∷ parts) = part ++ (b'/' ∷ in_front parts)

join_slash-snoc :
    (parts : List Str) (name : Str) → join_slash (parts ++ (name ∷ [])) ≡ in_front parts ++ name
unfolding join_slash in_front
join_slash-snoc [] name = refl
join_slash-snoc (part ∷ []) name = rw append_assoc refl
join_slash-snoc (part ∷ (next ∷ parts)) name =
    rw (join_slash-snoc (next ∷ parts) name)
      (sym (append_assoc part (b'/' ∷ in_front (next ∷ parts)) name))

-- The text of a directory, with the slash behind it
pub below : Str → Str
below root = b'/' ∷ in_front (components root)

root_nonempty : (r : Str) → is_abs r ≡ true → str_eq r [] ≡ false
unfolding str_eq has_prefix
root_nonempty [] e = cc
root_nonempty (c ∷ r) e = refl

-- A plain name joined to an absolute directory is the text of the directory and then the name.
pub join-below :
    (root name : Str) → is_abs root ≡ true → IsPlainName name → join root name ≡ below root ++ name
unfolding join clean below render
join-below root name absolute h =
    rw
      (
        str_eq_no name [] h.nonempty,
        root_nonempty root absolute,
        is_abs-append root (b'/' ∷ name) absolute,
        components-below root name absolute h,
        join_slash-snoc (components root) name,
      )
      refl

-- Two plain names below one absolute directory give two paths.
pub join-injective :
    (root a b : Str)
    → is_abs root ≡ true
    → IsPlainName a
    → IsPlainName b
    → join root a ≡ join root b
    → a ≡ b
join-injective root a b absolute ha hb e =
    append_cancel_left (below root) a b
      (sym (join-below root a absolute ha) ∙ e ∙ join-below root b absolute hb)
