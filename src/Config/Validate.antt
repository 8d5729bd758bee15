-- ===== src/Config/Validate.antt =====
-- internal/config/config.go: the checks. An error is a value of `Invalid`, before it is formatted.
use vivary.Prelude.{
  ℕ, ◌+◌, Bool, true, false, not, ◌&&◌, ◌||◌, Option, none, some, List, [], ◌∷◌, ltb, leb, ◌==◌,
  if◌then◌else◌, length, Str, bytes, str_eq,
}
use vivary.Prelude.Map.{Map}
use vivary.Config.Records.{
  ℤ, pos, negsuc, OrchestratorConfig, ProviderConfig, AgentCapabilityEntry, AgentConfig,
}

pub data Invalid : Type 0 where
  bad_id_length bad_retries socket_path_required no_pipe_rate : Invalid
  bad_character : ℕ → Invalid
  bad_capability_name bad_log_level no_api_url bad_api_url not_https : Str → Invalid

abbrev is_lower : ℕ → Bool
is_lower c = leb b'a' c && leb c b'z'

abbrev is_upper : ℕ → Bool
is_upper c = leb b'A' c && leb c b'Z'

abbrev is_digit : ℕ → Bool
is_digit c = leb b'0' c && leb c b'9'

abbrev pub is_id_character : ℕ → ℕ → Bool
is_id_character i c = is_lower c || is_digit c || c == b'-' && ltb 0 i

-- The loop of `ValidateAgentID` from byte `i` on: the rune of a byte above 127 is refused too.
unfoldable pub check_id_characters : ℕ → Str → Option Invalid
check_id_characters i [] = none
check_id_characters i (c ∷ s) =
    let rest = check_id_characters (i + 1) s in
    if is_id_character i c then rest else some (bad_character i)

-- `ValidateAgentID`
unfoldable pub validate_agent_id : Str → Option Invalid
validate_agent_id id =
    if length id == 0 || ltb 63 (length id) then some bad_id_length else check_id_characters 0 id

-- `capNameRe`, as three words between underscores: each has a capital letter and then at least one
-- letter.
unfoldable pub split_underscore : Str → List Str
split_underscore [] = [] ∷ []
split_underscore (c ∷ s) = elim (split_underscore s) [
  | [] ↦ (c ∷ []) ∷ []
  | part ∷ parts ↦ if c == b'_' then [] ∷ part ∷ parts else (c ∷ part) ∷ parts
]

abbrev letters : Str → Bool
letters [] = true
letters (c ∷ s) = (is_upper c || is_lower c) && letters s

abbrev capital_word : Str → Bool
capital_word [] = false
capital_word (c ∷ []) = false
capital_word (c ∷ (d ∷ s)) = is_upper c && letters (d ∷ s)

abbrev three_words : List Str → Bool
three_words (a ∷ (b ∷ (c ∷ []))) = capital_word a && capital_word b && capital_word c
three_words other = false

unfoldable pub matches_cap_name : Str → Bool
matches_cap_name name = three_words (split_underscore name)

-- `ValidateCapabilityName`
unfoldable pub validate_capability_name : Str → Option Invalid
validate_capability_name name =
    if matches_cap_name name then none else some (bad_capability_name name)

unfoldable pub check_capabilities : List AgentCapabilityEntry → Option Invalid
check_capabilities [] = none
check_capabilities (c ∷ caps) =
    let rest = check_capabilities caps in
    if matches_cap_name c.name then rest else some (bad_capability_name c.name)

abbrev is_negative : ℤ → Bool
is_negative (pos n) = false
is_negative (negsuc n) = true

abbrev or_check : Option Invalid → Option Invalid → Option Invalid
or_check none later = later
or_check (some e) later = some e

-- `ValidateAgentConfig`
unfoldable pub validate_agent_config : AgentConfig → Option Invalid
validate_agent_config cfg = or_check (validate_agent_id cfg.id) (
    if is_negative cfg.schema_error_retries
    then some bad_retries
    else check_capabilities cfg.capabilities)

abbrev is_log_level : Str → Bool
is_log_level level =
    str_eq level (bytes "debug")
    || str_eq level (bytes "info")
    || str_eq level (bytes "warn")
    || str_eq level (bytes "error")

-- `ValidateOrchestratorConfig`
unfoldable pub validate_orchestrator_config : OrchestratorConfig → Option Invalid
validate_orchestrator_config cfg =
    if str_eq cfg.socket_path []
    then some socket_path_required
    else if not (str_eq cfg.log_level []) && not (is_log_level cfg.log_level)
    then some (bad_log_level cfg.log_level)
    else if cfg.max_agent_pipe_bytes_per_sec == 0
    then some no_pipe_rate
    else none

-- The scheme and the host that url.Parse finds, if it finds any
pub record Url : Type 0 where
  pub scheme : Str
  pub host : Str

abbrev check_url : ProviderConfig → Option Url → Option Invalid
check_url p none = some (bad_api_url p.api_url)
check_url p (some u) =
    if str_eq u.scheme [] || str_eq u.host []
    then some (bad_api_url p.api_url)
    else if str_eq u.scheme (bytes "https")
    then none
    else some (not_https u.scheme)

-- `ValidateProviderConfig`, in the order of Go's `range`, which is open; `parse_url` is url.Parse.
unfoldable pub check_providers : (Str → Option Url) → List (Str × ProviderConfig) → Option Invalid
check_providers parse_url [] = none
check_providers parse_url ((name, p) ∷ rest) =
    let later = check_providers parse_url rest in
    or_check
      (if str_eq p.api_url [] then some (no_api_url name) else check_url p (parse_url p.api_url))
      later

unfoldable pub validate_provider_config : (Str → Option Url) → Map ProviderConfig → Option Invalid
validate_provider_config parse_url providers = check_providers parse_url providers.entries
