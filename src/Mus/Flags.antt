-- ===== src/Mus/Flags.antt =====
-- Booleans on the wire, one byte each, as the payload structs write and read them.
use vivary.Prelude.{ℕ, ◌≡◌, refl, [], ◌∷◌, Str, Bool, true, false, not, get_or, ◌==◌, if◌then◌else◌}

-- `append(b, 1)` or `append(b, 0)`
abbrev pub bool_byte : Bool → ℕ
bool_byte b = if b then 1 else 0

-- `fixed[0] != 0`
abbrev pub byte_bool : Str → Bool
byte_bool fixed = not (get_or fixed 0 0 == 0)

pub byte_bool-bool_byte : (b : Bool) → byte_bool (bool_byte b ∷ []) ≡ b
byte_bool-bool_byte true = refl
byte_bool-bool_byte false = refl
