-- ===== src/Keeperd/AgentKdl.antt =====
-- cmd/keeperd/provisioning.go `writeAgentKDL`: the text of agent.kdl. `Verbs` is %q and %d of
-- package fmt.
use vivary.Prelude.{ℕ, zero, suc, List, [], ◌∷◌, ◌++◌, map, ltb, if◌then◌else◌, Str, bytes, str_eq}
use vivary.Config.Records.{ℤ, pos, negsuc, AgentCapabilityScope, AgentCapabilityEntry, AgentConfig}

pub record Verbs : Type 0 where
  pub quote : Str → Str
  pub decimal : ℕ → Str
  pub signed : ℤ → Str

abbrev concat : List Str → Str
concat [] = []
concat (s ∷ rest) = s ++ concat rest

abbrev newline : Str
newline = 10 ∷ []

module _ (verbs : Verbs) where
  abbrev quoted_line : Str → Str → Str
  quoted_line before value = before ++ verbs.quote value ++ newline

  unfoldable pub scope_text : AgentCapabilityScope → Str
  scope_text s =
      bytes "        "
      ++ s.entity
      ++ bytes " {"
      ++ newline
      ++ concat (map (quoted_line (bytes "            domain ")) s.domains)
      ++ concat (map (quoted_line (bytes "            domain-suffix ")) s.suffixes)
      ++ concat (map (quoted_line (bytes "            path-prefix ")) s.path_prefixes)
      ++ bytes "        }"
      ++ newline

  abbrev scopes_text : Str → List AgentCapabilityScope → Str
  scopes_text name [] = bytes "    " ++ name ++ newline
  scopes_text name (s ∷ scopes) =
      bytes "    "
      ++ name
      ++ bytes " {"
      ++ newline
      ++ concat (map scope_text (s ∷ scopes))
      ++ bytes "    }"
      ++ newline

  unfoldable pub capability_text : AgentCapabilityEntry → Str
  capability_text c = scopes_text c.name c.scopes

  abbrev capabilities_text : List AgentCapabilityEntry → Str
  capabilities_text [] = []
  capabilities_text (c ∷ caps) =
      newline
      ++ bytes "capabilities {"
      ++ newline
      ++ concat (map capability_text (c ∷ caps))
      ++ bytes "}"
      ++ newline

  abbrev retries_or_one : ℤ → ℤ
  retries_or_one (pos zero) = pos 1
  retries_or_one (pos (suc n)) = pos (suc n)
  retries_or_one (negsuc n) = negsuc n

  -- The first line has an em dash, in UTF-8.
  unfoldable pub agent_kdl : AgentConfig → Str
  agent_kdl cfg =
      bytes "// Generated by keeperd "
      ++ (226 ∷ 128 ∷ 148 ∷ [])
      ++ bytes " do not edit manually"
      ++ newline
      ++ newline
      ++ quoted_line (bytes "id ") cfg.id
      ++ (if str_eq cfg.provider [] then [] else quoted_line (bytes "provider ") cfg.provider)
      ++ bytes "cpu-shares "
      ++ verbs.decimal cfg.cpu_shares
      ++ newline
      ++ (if ltb 0 cfg.memory_max_bytes
          then bytes "memory-max-bytes " ++ verbs.decimal cfg.memory_max_bytes ++ newline
          else [])
      ++ bytes "schema-error-retries "
      ++ verbs.signed (retries_or_one cfg.schema_error_retries)
      ++ newline
      ++ bytes "browser {"
      ++ newline
      ++ bytes "    headless "
      ++ (if cfg.headless then bytes "true" else bytes "false")
      ++ newline
      ++ bytes "}"
      ++ newline
      ++ capabilities_text cfg.capabilities
