-- ===== src/Config/Parse.antt =====
-- internal/config/config.go: from the nodes of a KDL document to the records. `parse` is the
-- library's kdl.Parse, and the text of an argument does not begin with white space.
use vivary.Prelude.{
  ℕ, zero, suc, ◌+◌, ◌-◌, ◌*◌, ◌^◌, ◌⊎◌, inl, inr, Bool, true, false, ◌&&◌, Option, none, some,
  List, [], ◌∷◌, ◌++◌, map, foldl, ltb, leb, ◌==◌, if◌then◌else◌, length, take, drop, get_or, Str,
  bytes, str_eq,
}
use vivary.Prelude.Map.{Map, empty, insert}
use mathlib.Core.List.{reverse}
use vivary.Config.Records.{
  Node, node, Nodes, leaf, child, ℤ, pos, negsuc, ProviderConfig, AgentCapabilityScope,
  AgentCapabilityEntry, AgentConfig,
}

abbrev quote_mark : ℕ
quote_mark = 34

abbrev ends_quoted : Str → Bool
ends_quoted [] = false
ends_quoted (c ∷ s) = c == quote_mark

-- `unquote`
unfoldable pub unquote : Str → Str
unquote s =
    if leb 2 (length s) && get_or s 0 0 == quote_mark && ends_quoted (reverse s)
    then take (length s - 2) (drop 1 s)
    else s

-- The digits that a text begins with, after `seen` of value `acc`; none if it has none.
unfoldable pub scan_digits : Bool → ℕ → Str → Option ℕ
scan_digits seen acc [] = if seen then some acc else none
scan_digits seen acc (c ∷ s) =
    let rest = scan_digits true (acc * 10 + (c - b'0')) s in
    if leb b'0' c && leb c b'9' then rest else if seen then some acc else none

-- fmt.Sscanf(text, "%d", &v) for an unsigned v of so many bits, and for an int; `v` keeps its value
-- if there is no number or it is too large.
unfoldable pub scan_uint : ℕ → Str → ℕ → ℕ
scan_uint bits text v = elim (scan_digits false 0 text) [
  | none ↦ v
  | some n ↦ if ltb n (2 ^ bits) then n else v
]

abbrev negative : ℕ → ℤ
negative zero = pos 0
negative (suc n) = negsuc n

abbrev signed : Bool → ℤ → Option ℕ → ℤ
signed minus v none = v
signed false v (some n) = if ltb n (2 ^ 63) then pos n else v
signed true v (some n) = if leb n (2 ^ 63) then negative n else v

unfoldable pub scan_int : Str → ℤ → ℤ
scan_int [] v = v
scan_int (c ∷ s) v =
    if c == b'-'
    then signed true v (scan_digits false 0 s)
    else if c == b'+'
    then signed false v (scan_digits false 0 s)
    else signed false v (scan_digits false 0 (c ∷ s))

unfoldable pub nodes : Nodes → List Node
nodes leaf = []
nodes (child n rest) = n ∷ nodes rest

abbrev no_scope : Str → AgentCapabilityScope
no_scope entity = record { entity = entity; domains = []; suffixes = []; path_prefixes = [] }

-- One constraint node of a scope
unfoldable pub add_constraint : AgentCapabilityScope → Node → AgentCapabilityScope
add_constraint s (node name [] children) = s
add_constraint s (node name (arg ∷ args) children) =
    if str_eq name (bytes "domain")
    then record s { domains = s.domains ++ (unquote arg ∷ []) }
    else if str_eq name (bytes "domain-suffix")
    then record s { suffixes = s.suffixes ++ (unquote arg ∷ []) }
    else if str_eq name (bytes "path-prefix")
    then record s { path_prefixes = s.path_prefixes ++ (unquote arg ∷ []) }
    else s

unfoldable pub scope_of : Node → AgentCapabilityScope
scope_of (node name args children) = foldl add_constraint (no_scope (unquote name)) (nodes children)

unfoldable pub entry_of : Str → Nodes → AgentCapabilityEntry
entry_of name children = record { name = unquote name; scopes = map scope_of (nodes children) }

abbrev block_entry : Node → AgentCapabilityEntry
block_entry (node name args children) = entry_of name children

-- A block of capabilities, or a single one that the argument names
unfoldable pub capabilities_of : List Str → Nodes → List AgentCapabilityEntry
capabilities_of [] children = map block_entry (nodes children)
capabilities_of (arg ∷ args) children = entry_of arg children ∷ []

unfoldable pub read_headless : Bool → Node → Bool
read_headless b (node name [] children) = b
read_headless b (node name (arg ∷ args) children) =
    if str_eq name (bytes "headless") then str_eq arg (bytes "true") else b

abbrev on_argument {ℓ} : {A : Type ℓ} → List Str → A → (Str → A) → A
on_argument [] a f = a
on_argument (arg ∷ args) a f = f arg

-- One round of the loop over the document
unfoldable pub apply_node : AgentConfig → Node → AgentConfig
apply_node cfg (node name args children) =
    if str_eq name (bytes "id")
    then on_argument args cfg (λ arg. record cfg { id = unquote arg })
    else if str_eq name (bytes "provider")
    then on_argument args cfg (λ arg. record cfg { provider = unquote arg })
    else if str_eq name (bytes "cpu-shares")
    then on_argument args cfg (λ arg. record cfg { cpu_shares = scan_uint 32 arg cfg.cpu_shares })
    else if str_eq name (bytes "memory-max-bytes")
    then on_argument args cfg
        (λ arg. record cfg { memory_max_bytes = scan_uint 64 arg cfg.memory_max_bytes })
    else if str_eq name (bytes "schema-error-retries")
    then on_argument args cfg
        (λ arg. record cfg { schema_error_retries = scan_int arg cfg.schema_error_retries })
    else if str_eq name (bytes "browser")
    then record cfg { headless = foldl read_headless cfg.headless (nodes children) }
    else if str_eq name (bytes "capabilities")
    then record cfg { capabilities = cfg.capabilities ++ capabilities_of args children }
    else cfg

-- The zero value of AgentConfig, with the defaults of a file that is read
abbrev pub empty_config : AgentConfig
empty_config = record {
  id = [];
  provider = [];
  cpu_shares = 0;
  memory_max_bytes = 0;
  schema_error_retries = pos 0;
  headless = false;
  capabilities = [];
}

abbrev pub default_config : AgentConfig
default_config = record empty_config { cpu_shares = 1024; schema_error_retries = pos 1 }

unfoldable pub config_of : List Node → AgentConfig
config_of doc = foldl apply_node default_config doc

module _ (parse : Str → Str ⊎ List Node) where
  abbrev config_read : Str ⊎ List Node → Str ⊎ AgentConfig
  config_read (inl e) = inl (bytes "agent config: parse: " ++ e)
  config_read (inr doc) = inr (config_of doc)

  -- `ParseAgentKDL`
  unfoldable pub parse_agent_kdl : Str → Str ⊎ AgentConfig
  parse_agent_kdl text = config_read (parse text)

unfoldable pub read_provider : ProviderConfig → Node → ProviderConfig
read_provider p (node name [] children) = p
read_provider p (node name (arg ∷ args) children) =
    if str_eq name (bytes "api-url")
    then record p { api_url = unquote arg }
    else if str_eq name (bytes "description")
    then record p { description = unquote arg }
    else p

abbrev provider_of : Str → Nodes → ProviderConfig
provider_of name children =
    foldl read_provider (record { name = name; api_url = []; description = [] }) (nodes children)

-- One round of the loop of `LoadProvidersConfig`
unfoldable pub add_provider : Map ProviderConfig → Node → Map ProviderConfig
add_provider providers (node name [] children) = providers
add_provider providers (node name (arg ∷ args) children) =
    if str_eq name (bytes "provider")
    then insert (unquote arg) (provider_of (unquote arg) children) providers
    else providers

-- What os.ReadFile answers
pub data FileRead : Type 0 where
  not_exist : FileRead
  unreadable contents : Str → FileRead

abbrev providers_read : Str ⊎ List Node → Str ⊎ Map ProviderConfig
providers_read (inl e) = inl e
providers_read (inr doc) = inr (foldl add_provider empty doc)

-- `LoadProvidersConfig`, on what its file reads as; the messages are without their prefix.
unfoldable pub load_providers_config : (Str → Str ⊎ List Node) → FileRead → Str ⊎ Map ProviderConfig
load_providers_config parse not_exist = inr empty
load_providers_config parse (unreadable e) = inl e
load_providers_config parse (contents text) = providers_read (parse text)

-- cmd/keeperd/provisioning.go `loadTemplateAgentConfig`, on what agent.kdl reads as
unfoldable pub load_template_agent_config : (Str → Str ⊎ List Node) → FileRead → Str ⊎ AgentConfig
load_template_agent_config parse not_exist = inr empty_config
load_template_agent_config parse (unreadable e) = inl e
load_template_agent_config parse (contents text) = parse_agent_kdl parse text
