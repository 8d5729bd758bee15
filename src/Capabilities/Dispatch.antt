-- ===== src/Capabilities/Dispatch.antt =====
-- internal/capabilities/capability.go: the registry, the access lists and the dispatcher. `W` is
-- the state of the outside world that a capability may change; `quote` is the %q of package fmt.
use vivary.Prelude.{
  ℕ, Bool, false, Option, none, some, List, [], ◌∷◌, ◌++◌, foldl, if◌then◌else◌, Str, bytes, str_eq,
}
use vivary.Prelude.Map.{Map, lookup, insert, delete, keys}
use vivary.Mus.{Result, ok, panicked}

pub record Request : Type 0 where
  pub name : Str
  pub agent_id : Str
  pub seq_no : ℕ
  pub args : Str

-- `OK` is called `success`, and `Data` is called `result`.
pub record Response : Type 0 where
  pub success : Bool
  pub result : Str
  pub error_code : Str
  pub error_detail : Str

abbrev pub capability_denied : Str
capability_denied = bytes "capability_denied"

unfoldable pub denied_response : Str → Response
denied_response detail = record {
  success = false;
  result = [];
  error_code = capability_denied;
  error_detail = detail;
}

abbrev pub ConstraintSet : Type 0
ConstraintSet = Map (List Str)

pub record ScopeConstraint : Type 0 where
  pub entity : Str
  pub constraints : ConstraintSet

-- The context of a call holds the constraints of the grant. `ok` is a response, `err` an error.
pub record Capability {ℓ} (W : Type ℓ) : Type ℓ where
  pub name : Str
  pub audit_payload : Bool
  pub execute : List ScopeConstraint → Request → W → Result Response × W

pub record AclEntry : Type 0 where
  pub capability_name : Str
  pub constraints : List ScopeConstraint

pub record Acl : Type 0 where
  pub agent_id : Str
  pub entries : List AclEntry

-- `Allowed`
unfoldable pub allowed : Str → List AclEntry → Option (List ScopeConstraint)
allowed name [] = none
allowed name (e ∷ entries) =
    if str_eq e.capability_name name then some e.constraints else allowed name entries

module _ {ℓ} {W : Type ℓ} where
  -- `Register`: a name that is taken panics.
  unfoldable pub register : Capability W → Map (Capability W) → Result (Map (Capability W))
  register c caps = elim (lookup c.name caps) [
    | some other ↦ panicked
    | none ↦ ok (insert c.name c caps)
  ]

  -- `Names`, in the order of Go's `range`, which is open
  unfoldable pub names : Map (Capability W) → List Str
  names caps = keys caps

-- The registry is a field of the dispatcher.
pub record Dispatcher {ℓ} (W : Type ℓ) : Type ℓ where
  pub registry : Map (Capability W)
  pub acls : Map Acl

module _ {ℓ} {W : Type ℓ} (quote : Str → Str) where
  abbrev denied : List Str → W → Result Response × W
  denied parts w = (ok (denied_response (foldl (λ a b. a ++ b) [] parts)), w)

  abbrev run_capability :
      Request → List ScopeConstraint → Option (Capability W) → W → Result Response × W
  run_capability req constraints none w =
      denied (bytes "capability " ∷ quote req.name ∷ bytes " not registered" ∷ []) w
  run_capability req constraints (some c) w = c.execute constraints req w

  abbrev check_entry :
      Dispatcher W → Request → Option (List ScopeConstraint) → W → Result Response × W
  check_entry d req none w =
      denied (bytes "capability " ∷ quote req.name ∷ bytes " not in agent ACL" ∷ []) w
  check_entry d req (some constraints) w =
      run_capability req constraints (lookup req.name d.registry) w

  abbrev check_acl : Dispatcher W → Request → Option Acl → W → Result Response × W
  check_acl d req none w = denied (bytes "no ACL registered for agent " ∷ quote req.agent_id ∷ []) w
  check_acl d req (some acl) w = check_entry d req (allowed req.name acl.entries) w

  unfoldable pub dispatch_request : Dispatcher W → Request → W → Result Response × W
  dispatch_request d req w = check_acl d req (lookup req.agent_id d.acls) w

module _ {ℓ} {W : Type ℓ} where
  unfoldable pub set_acl : Acl → Dispatcher W → Dispatcher W
  set_acl acl d = record d { acls = insert acl.agent_id acl d.acls }

  unfoldable pub remove_acl : Str → Dispatcher W → Dispatcher W
  remove_acl id d = record d { acls = delete id d.acls }
