-- ===== src/Capabilities/Paths.antt =====
-- The path functions of package path/filepath on a Unix system, as internal/capabilities uses them,
-- and containsDotDot of internal/capabilities/filesystem.go.
use vivary.Prelude.{
  ℕ, Bool, true, false, ◌&&◌, ◌||◌, List, [], ◌∷◌, ◌++◌, foldl, leb, ◌==◌, if◌then◌else◌, length,
  drop, any, Str, bytes, str_eq, has_prefix,
}
use mathlib.Core.List.{reverse}

abbrev slash : ℕ
slash = 47

abbrev pub is_abs : Str → Bool
is_abs p = has_prefix p (slash ∷ [])

abbrev pub prepend : ℕ → List Str → List Str
prepend c [] = (c ∷ []) ∷ []
prepend c (part ∷ parts) = (c ∷ part) ∷ parts

-- strings.Split(p, "/")
unfoldable pub split_slash : Str → List Str
split_slash [] = [] ∷ []
split_slash (c ∷ p) =
    let parts = split_slash p in if c == slash then [] ∷ parts else prepend c parts

abbrev dot : Str
dot = bytes "."

abbrev pub dot_dot : Str
dot_dot = bytes ".."

-- `containsDotDot`
unfoldable pub contains_dot_dot : Str → Bool
contains_dot_dot p = any (λ part. str_eq part dot_dot) (split_slash p)

-- What `..` does to the parts in front of it, the last one first.
abbrev step_up : Bool → List Str → List Str
step_up true [] = []
step_up false [] = dot_dot ∷ []
step_up rooted (part ∷ before) = if str_eq part dot_dot then dot_dot ∷ part ∷ before else before

abbrev pub push_part : Bool → List Str → Str → List Str
push_part rooted before part =
    if str_eq part [] || str_eq part dot
    then before
    else if str_eq part dot_dot
    then step_up rooted before
    else part ∷ before

unfoldable pub components : Str → List Str
components p = reverse (foldl (push_part (is_abs p)) [] (split_slash p))

unfoldable pub join_slash : List Str → Str
join_slash [] = []
join_slash (part ∷ []) = part
join_slash (part ∷ (next ∷ parts)) = part ++ (slash ∷ join_slash (next ∷ parts))

abbrev pub or_dot : Str → Str
or_dot [] = dot
or_dot (c ∷ p) = c ∷ p

unfoldable pub render : Bool → List Str → Str
unfolding join_slash
render rooted parts = if rooted then slash ∷ join_slash parts else or_dot (join_slash parts)

-- filepath.Clean
unfoldable pub clean : Str → Str
clean p = render (is_abs p) (components p)

-- filepath.Join of two elements, of which empty ones are left out
unfoldable pub join : Str → Str → Str
join a b =
    if str_eq a [] && str_eq b []
    then []
    else if str_eq a []
    then clean b
    else clean (a ++ (slash ∷ b))

but_last : List Str → List Str
but_last [] = []
but_last (x ∷ []) = []
but_last (x ∷ (y ∷ xs)) = x ∷ but_last (y ∷ xs)

-- filepath.Dir of a clean path
unfoldable pub dir : Str → Str
unfolding but_last
dir p = render (is_abs p) (but_last (components p))

-- filepath.Rel(base, target) for a target at or below the base, and strings.Split of it
unfoldable pub rel_parts : Str → Str → List Str
rel_parts base target =
    let rest = drop (length (components base)) (components target) in
    if leb (length rest) 0 then dot ∷ [] else rest
