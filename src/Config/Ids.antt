-- ===== src/Config/Ids.antt =====
-- What a valid agent ID is, and the directory it names.
use vivary.Prelude.{
  ℕ, ◌+◌, ◌≤◌, ◌<◌, ◌≡◌, refl, ap, ◌≢◌, ◌↔◌, ◌⊎◌, inl, inr, true, false, ◌&&◌, ◌||◌, none, [], ◌∷◌,
  arith, ltb, leb, ◌==◌, le→leb, Bool-cases, length, Str, bytes,
}
use vivary.Capabilities.Paths.{is_abs, split_slash, join}
use vivary.Capabilities.Below.{IsPlainName, join-injective}
use vivary.Config.Validate.{is_id_character, check_id_characters, validate_agent_id}

-- A lowercase letter or a digit, or, not in front, a dash
pub record IsIdCharacter (i c : ℕ) : Type 0 where
  pub kind : ((b'a' ≤ c) × (c ≤ b'z')) ⊎ (((b'0' ≤ c) × (c ≤ b'9')) ⊎ ((c ≡ b'-') × (0 < i)))

abbrev pub AllIdCharacters : ℕ → Str → Type 0
AllIdCharacters i [] = Unit
AllIdCharacters i (c ∷ s) = IsIdCharacter i c × AllIdCharacters (i + 1) s

pub record IsAgentId (id : Str) : Type 0 where
  pub nonempty : 1 ≤ length id
  pub short : length id ≤ 63
  pub characters : AllIdCharacters 0 id

dash_lem : (i c : ℕ) → (c == b'-' && ltb 0 i) ≡ true → (c ≡ b'-') × (0 < i)
dash_lem i c h = ground arith

id_character_kind :
    (i c : ℕ)
    → is_id_character i c ≡ true
    → ((b'a' ≤ c) × (c ≤ b'z')) ⊎ (((b'0' ≤ c) × (c ≤ b'9')) ⊎ ((c ≡ b'-') × (0 < i)))
id_character_kind i c h = elim (Bool-cases (leb b'a' c && leb c b'z')) [
  | inl lower ↦ inl (ground (arith, lower))
  | inr no_lower ↦ elim (Bool-cases (leb b'0' c && leb c b'9')) [
    | inl digit ↦ inr (inl (ground (arith, digit)))
    | inr no_digit ↦ inr (inr (dash_lem i c (rw (no_lower, no_digit) at h)))
  ]
]

is_id_character-of_kind :
    (i c : ℕ)
    → ((b'a' ≤ c) × (c ≤ b'z')) ⊎ (((b'0' ≤ c) × (c ≤ b'9')) ⊎ ((c ≡ b'-') × (0 < i)))
    → is_id_character i c ≡ true
is_id_character-of_kind i c (inl (a, z)) = rw (le→leb _ _ a, le→leb _ _ z) refl
is_id_character-of_kind i c (inr (inl (a, z))) = ground arith
is_id_character-of_kind i c (inr (inr (e, z))) = ground arith

bad_length :
    (id : Str) → 1 ≤ length id → length id ≤ 63 → (length id == 0 || ltb 63 (length id)) ≡ true → ⊥
bad_length id a z h = ground arith

good_length :
    (id : Str) → (length id == 0 || ltb 63 (length id)) ≡ false → (1 ≤ length id) × (length id ≤ 63)
good_length id h = ground arith

not_slash :
    (i c : ℕ)
    → ((b'a' ≤ c) × (c ≤ b'z')) ⊎ (((b'0' ≤ c) × (c ≤ b'9')) ⊎ ((c ≡ b'-') × (0 < i)))
    → (c == b'/') ≡ false
not_slash i c h = ground arith

no_dot : (s : Str) → AllIdCharacters 0 (b'.' ∷ s) → ⊥
no_dot s (h, rest) = let k = h.kind in ground arith

check_id_characters-none :
    (i : ℕ) (s : Str) → (check_id_characters i s ≡ none) ↔ AllIdCharacters i s
unfolding check_id_characters
check_id_characters-none i [] = (λ e. tt, λ h. refl)
check_id_characters-none i (c ∷ s) = elim (Bool-cases (is_id_character i c)) [
  | inl good ↦ (
    λ e. (
      record { kind = id_character_kind i c good },
      (check_id_characters-none (i + 1) s).0 (rw good at e),
    ),
    λ h. rw good ((check_id_characters-none (i + 1) s).1 h.1),
  )
  | inr bad ↦ (λ e. cc (rw bad at e), λ h. cc (bad, is_id_character-of_kind i c h.0.kind))
]

-- ValidateAgentID accepts exactly the texts of 1 to 63 bytes, each a lowercase letter, a digit or a
-- dash, that do not begin with a dash.
pub validate_agent_id-IsAgentId : (id : Str) → (validate_agent_id id ≡ none) ↔ IsAgentId id
unfolding validate_agent_id
validate_agent_id-IsAgentId id = elim (Bool-cases (length id == 0 || ltb 63 (length id))) [
  | inl bad ↦ (λ e. cc (rw bad at e), λ h. absurd (bad_length id h.nonempty h.short bad))
  | inr good ↦ (
    λ e. record {
      nonempty = (good_length id good).0;
      short = (good_length id good).1;
      characters = (check_id_characters-none 0 id).0 (rw good at e);
    },
    λ h. rw good ((check_id_characters-none 0 id).1 h.characters),
  )
]

unslashed : (i : ℕ) (s : Str) → AllIdCharacters i s → split_slash s ≡ s ∷ []
unfolding split_slash
unslashed i [] h = refl
unslashed i (c ∷ s) (hc, h) = rw (not_slash i c hc.kind, unslashed (i + 1) s h) refl

short_nonempty : (id : Str) → 1 ≤ length id → id ≡ [] → ⊥
short_nonempty id h e = omega (arith, ap length e)

-- A valid agent ID is a plain name: it is no path, and neither "." nor "..".
pub IsAgentId-IsPlainName : (id : Str) → IsAgentId id → IsPlainName id
IsAgentId-IsPlainName id h = record {
  nonempty = λ e. absurd (short_nonempty id h.nonempty e);
  not_dot = λ e. no_dot [] (rw e at h.characters);
  not_dot_dot = λ e. no_dot (bytes ".") (rw e at h.characters);
  no_slash = unslashed 0 id h.characters;
}

-- Below an absolute directory, two agents whose IDs are valid have directories of their own.
pub validate_agent_id-join :
    (root a b : Str)
    → is_abs root ≡ true
    → validate_agent_id a ≡ none
    → validate_agent_id b ≡ none
    → a ≢ b
    → join root a ≢ join root b
validate_agent_id-join root a b absolute ha hb differ e = differ (
    join-injective root a b absolute
      (IsAgentId-IsPlainName a ((validate_agent_id-IsAgentId a).0 ha))
      (IsAgentId-IsPlainName b ((validate_agent_id-IsAgentId b).0 hb)) e)
