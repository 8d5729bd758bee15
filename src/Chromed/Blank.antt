-- ===== src/Chromed/Blank.antt =====
-- strings.TrimSpace(s) == "": the text has no rune but white space (unicode.IsSpace), in UTF-8.
use vivary.Prelude.{
  ℕ, zero, suc, Bool, true, false, ◌&&◌, ◌||◌, [], ◌∷◌, leb, ◌==◌, if◌then◌else◌, Str,
}

-- The bytes of the white space that a text begins with; 0 if it begins with another rune.
abbrev space_len : Str → ℕ
space_len [] = 0
space_len (a ∷ []) = if leb 9 a && leb a 13 || a == 32 then 1 else 0
space_len (a ∷ (b ∷ [])) =
    if leb 9 a && leb a 13 || a == 32
    then 1
    else if a == 0xC2 && (b == 0x85 || b == 0xA0)
    then 2
    else 0
space_len (a ∷ (b ∷ (c ∷ s))) =
    if leb 9 a && leb a 13 || a == 32
    then 1
    else if a == 0xC2 && (b == 0x85 || b == 0xA0)
    then 2
    else if a == 0xE1 && b == 0x9A && c == 0x80
        || a == 0xE2
          && b == 0x80
          && (leb 0x80 c && leb c 0x8A || c == 0xA8 || c == 0xA9 || c == 0xAF)
        || a == 0xE2 && b == 0x81 && c == 0x9F
        || a == 0xE3 && b == 0x80 && c == 0x80
    then 3
    else 0

-- Whether what follows the next `skip` bytes is white space only
unfoldable pub blank_after : ℕ → Str → Bool
blank_after skip [] = true
blank_after (suc skip) (a ∷ s) = blank_after skip s
blank_after zero (a ∷ s) = elim (space_len (a ∷ s)) [ zero ↦ false | suc skip ↦ blank_after skip s ]

unfoldable pub is_blank : Str → Bool
unfolding blank_after
is_blank s = blank_after 0 s
