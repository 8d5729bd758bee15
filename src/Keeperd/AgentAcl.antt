-- ===== src/Keeperd/AgentAcl.antt =====
-- cmd/keeperd/provisioning.go: the access list that `agentCreate` builds, and what it allows.
use vivary.Prelude.{
  ◌≡◌, refl, inl, inr, false, Option, none, some, List, [], ◌∷◌, map, if◌then◌else◌, Bool-cases,
  Str, bytes, str_eq,
}
use vivary.Prelude.Map.{empty, insert, lookup, lookup-insert, lookup-empty}
use vivary.Capabilities.Dispatch.{ConstraintSet, ScopeConstraint, AclEntry, Acl, allowed}
use vivary.Capabilities.Paths.{join}
use vivary.Config.Records.{AgentCapabilityScope, AgentCapabilityEntry, AgentConfig}

abbrev pub file_write_name : Str
file_write_name = bytes "Filesystem_File_Write"

abbrev pub page_read_name : Str
page_read_name = bytes "Browser_Page_Read"

abbrev insert_if : Str → List Str → ConstraintSet → ConstraintSet
insert_if key [] set = set
insert_if key (v ∷ vs) set = insert key (v ∷ vs) set

unfoldable pub constraint_of : AgentCapabilityScope → ScopeConstraint
constraint_of s = record {
  entity = s.entity;
  constraints =
      insert_if (bytes "path-prefix") s.path_prefixes
        (insert_if (bytes "domain-suffix") s.suffixes (insert_if (bytes "domain") s.domains empty));
}

unfoldable pub acl_entry : AgentCapabilityEntry → AclEntry
acl_entry c = record { capability_name = c.name; constraints = map constraint_of c.scopes }

abbrev pub one_key : Str → List Str → ConstraintSet
one_key key vs = insert key vs empty

-- The entries for an agent with no capabilities of its own
unfoldable pub fallback_entries : Str → List AclEntry
fallback_entries subvol_path =
    record {
      capability_name = file_write_name;
      constraints =
          record {
            entity = bytes "File";
            constraints = one_key (bytes "path-prefix") (join subvol_path (bytes "output") ∷ []);
          }
          ∷ [];
    }
    ∷ record {
      capability_name = page_read_name;
      constraints =
          record {
            entity = bytes "Link";
            constraints =
                one_key (bytes "domain") (bytes "en.wikipedia.org" ∷ bytes "github.com" ∷ []);
          }
          ∷ [];
    }
    ∷ []

abbrev entries_for : Str → List AgentCapabilityEntry → List AclEntry
entries_for subvol_path [] = fallback_entries subvol_path
entries_for subvol_path (c ∷ caps) = map acl_entry (c ∷ caps)

unfoldable pub acl_of : Str → Str → AgentConfig → Acl
acl_of id subvol_path cfg = record {
  agent_id = id;
  entries = entries_for subvol_path cfg.capabilities;
}

-- The first entry of the configuration for a name
unfoldable pub configured : Str → List AgentCapabilityEntry → Option AgentCapabilityEntry
configured name [] = none
configured name (c ∷ caps) = if str_eq c.name name then some c else configured name caps

-- The values of a key; no values are no entry.
abbrev pub listed : List Str → Option (List Str)
listed [] = none
listed (v ∷ vs) = some (v ∷ vs)

-- A constraint that says what the scope of the configuration says, and nothing else.
pub record IsScope (s : AgentCapabilityScope) (c : ScopeConstraint) : Type 0 where
  pub entity : c.entity ≡ s.entity
  pub path_prefix : lookup (bytes "path-prefix") c.constraints ≡ listed s.path_prefixes
  pub domain_suffix : lookup (bytes "domain-suffix") c.constraints ≡ listed s.suffixes
  pub domain : lookup (bytes "domain") c.constraints ≡ listed s.domains
  pub others :
      (key : Str)
      → str_eq (bytes "path-prefix") key ≡ false
      → str_eq (bytes "domain-suffix") key ≡ false
      → str_eq (bytes "domain") key ≡ false
      → lookup key c.constraints ≡ none

abbrev pub AllScopes : List AgentCapabilityScope → List ScopeConstraint → Type 0
AllScopes [] [] = Unit
AllScopes [] (c ∷ cs) = ⊥
AllScopes (s ∷ ss) [] = ⊥
AllScopes (s ∷ ss) (c ∷ cs) = IsScope s c × AllScopes ss cs

-- What an access list answers for an entry of the configuration, or for none.
abbrev pub IsAllowed : Option AgentCapabilityEntry → Option (List ScopeConstraint) → Type 0
IsAllowed none none = Unit
IsAllowed none (some cs) = ⊥
IsAllowed (some c) none = ⊥
IsAllowed (some c) (some cs) = AllScopes c.scopes cs

-- The configuration of an agent; without any entry, it may write files below its output directory
-- and read pages of two domains.
abbrev pub effective : Str → List AgentCapabilityEntry → List AgentCapabilityEntry
effective subvol_path [] =
    record {
      name = bytes "Filesystem_File_Write";
      scopes =
          record {
            entity = bytes "File";
            path_prefixes = join subvol_path (bytes "output") ∷ [];
            suffixes = [];
            domains = [];
          }
          ∷ [];
    }
    ∷ record {
      name = bytes "Browser_Page_Read";
      scopes =
          record {
            entity = bytes "Link";
            path_prefixes = [];
            suffixes = [];
            domains = bytes "en.wikipedia.org" ∷ bytes "github.com" ∷ [];
          }
          ∷ [];
    }
    ∷ []
effective subvol_path (c ∷ caps) = c ∷ caps

abbrev or_later : Option (List Str) → Option (List Str) → Option (List Str)
or_later none later = later
or_later (some vs) later = some vs

lookup-insert_if :
    (key j : Str) (vs : List Str) (set : ConstraintSet)
    → lookup j (insert_if key vs set)
      ≡ (if str_eq key j then or_later (listed vs) (lookup j set) else lookup j set)
lookup-insert_if key j [] set = elim (Bool-cases (str_eq key j)) [
  | inl same ↦ rw same refl
  | inr other ↦ rw other refl
]
lookup-insert_if key j (v ∷ vs) set = lookup-insert key j (v ∷ vs) set

or_later-none : (vs : List Str) → or_later (listed vs) none ≡ listed vs
or_later-none [] = refl
or_later-none (v ∷ vs) = refl

constraint_of-IsScope : (s : AgentCapabilityScope) → IsScope s (constraint_of s)
unfolding constraint_of str_eq
constraint_of-IsScope s = record {
  entity = refl;
  path_prefix =
      rw (lookup-insert_if, lookup-insert_if, lookup-insert_if, lookup-empty)
        (or_later-none s.path_prefixes);
  domain_suffix =
      rw (lookup-insert_if, lookup-insert_if, lookup-insert_if, lookup-empty)
        (or_later-none s.suffixes);
  domain =
      rw (lookup-insert_if, lookup-insert_if, lookup-insert_if, lookup-empty)
        (or_later-none s.domains);
  others = λ key p q r.
      rw (lookup-insert_if, lookup-insert_if, lookup-insert_if, p, q, r, lookup-empty) refl;
}

AllScopes-map : (ss : List AgentCapabilityScope) → AllScopes ss (map constraint_of ss)
AllScopes-map [] = tt
AllScopes-map (s ∷ ss) = (constraint_of-IsScope s, AllScopes-map ss)

IsAllowed-map :
    (name : Str) (caps : List AgentCapabilityEntry)
    → IsAllowed (configured name caps) (allowed name (map acl_entry caps))
unfolding allowed acl_entry configured
IsAllowed-map name [] = tt
IsAllowed-map name (c ∷ caps) = elim (Bool-cases (str_eq c.name name)) [
  | inl same ↦ rw same (AllScopes-map c.scopes)
  | inr other ↦ rw other (IsAllowed-map name caps)
]

entries_for-map :
    (subvol_path : Str) (caps : List AgentCapabilityEntry)
    → entries_for subvol_path caps ≡ map acl_entry (effective subvol_path caps)
unfolding fallback_entries acl_entry constraint_of
entries_for-map subvol_path [] = refl
entries_for-map subvol_path (c ∷ caps) = refl

-- The access list that a new agent gets allows a capability exactly if the configuration has an
-- entry for the name, and then with a constraint for each scope of the first such entry, which lists
-- the entity, the path prefixes, the domains and the domain suffixes of the scope and nothing else.
-- A configuration without entries stands for one with the two default entries.
pub acl_of-allowed :
    (id subvol_path name : Str) (cfg : AgentConfig)
    → IsAllowed
        (configured name (effective subvol_path cfg.capabilities))
        (allowed name (acl_of id subvol_path cfg).entries)
unfolding acl_of
acl_of-allowed id subvol_path name cfg =
    rw (entries_for-map subvol_path cfg.capabilities)
      (IsAllowed-map name (effective subvol_path cfg.capabilities))
