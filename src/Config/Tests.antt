-- ===== src/Config/Tests.antt =====
-- The configuration on concrete files.
use vivary.Prelude.{
  ◌≡◌, refl, ◌≢◌, ◌↔◌, true, false, none, some, List, [], ◌∷◌, bytes, str_eq, has_prefix,
}
use vivary.Capabilities.Paths.{is_abs, join}
use vivary.Config.Records.{Node, node, leaf, child, pos, negsuc}
use vivary.Config.Parse.{
  unquote, scan_uint, scan_int, scan_digits, config_of, default_config, nodes, apply_node,
  capabilities_of, entry_of, scope_of, add_constraint,
}
use vivary.Config.Validate.{
  validate_agent_id, check_id_characters, bad_character, matches_cap_name, split_underscore,
}
use vivary.Config.Ids.{IsAgentId, validate_agent_id-IsAgentId, validate_agent_id-join}

validate_agent_id-IsAgentId_example :
    (validate_agent_id (bytes "a-1") ≡ none) ↔ IsAgentId (bytes "a-1")
validate_agent_id-IsAgentId_example = validate_agent_id-IsAgentId (bytes "a-1")

accepted : validate_agent_id (bytes "a") ≡ none
unfolding validate_agent_id check_id_characters
accepted = refl

refused : validate_agent_id (bytes "-a") ≡ some (bad_character 0)
unfolding validate_agent_id check_id_characters
refused = refl

refused_path : validate_agent_id (bytes "a/b") ≡ some (bad_character 1)
unfolding validate_agent_id check_id_characters
refused_path = refl

absolute : is_abs (bytes "/p") ≡ true
unfolding has_prefix
absolute = refl

accepted_other : validate_agent_id (bytes "b2") ≡ none
unfolding validate_agent_id check_id_characters
accepted_other = refl

two_names : bytes "a" ≢ bytes "b2"
two_names e = cc

validate_agent_id-join_example : join (bytes "/p") (bytes "a") ≢ join (bytes "/p") (bytes "b2")
validate_agent_id-join_example =
    validate_agent_id-join (bytes "/p") (bytes "a") (bytes "b2") absolute accepted accepted_other
      two_names

cap_name : matches_cap_name (bytes "Browser_Page_Read") ≡ true
unfolding matches_cap_name split_underscore
cap_name = refl

no_cap_name : matches_cap_name (bytes "Browser_P_Read") ≡ false
unfolding matches_cap_name split_underscore
no_cap_name = refl

unquote_text : unquote (bytes "\"a b\"") ≡ bytes "a b"
unfolding unquote
unquote_text = refl

scan_large : scan_uint 32 (bytes "4294967296") 7 ≡ 7
unfolding scan_uint scan_digits
scan_large = refl

scan_negative : scan_int (bytes "-2") (pos 1) ≡ negsuc 1
unfolding scan_int scan_digits
scan_negative = refl

abbrev document : List Node
document =
    node (bytes "id") (bytes "\"a\"" ∷ []) leaf
    ∷ node (bytes "capabilities") [] (
        child
          (node (bytes "Browser_Page_Read") [] (
            child
              (node (bytes "Link") []
                (child (node (bytes "domain") (bytes "\"x.org\"" ∷ []) leaf) leaf))
              leaf))
          leaf)
    ∷ []

document_read : config_of document ≡ record default_config {
  id = bytes "a";
  capabilities =
      record {
        name = bytes "Browser_Page_Read";
        scopes =
            record {
              entity = bytes "Link";
              domains = bytes "x.org" ∷ [];
              suffixes = [];
              path_prefixes = [];
            }
            ∷ [];
      }
      ∷ [];
}
unfolding config_of apply_node unquote capabilities_of entry_of scope_of add_constraint nodes str_eq
document_read = refl
