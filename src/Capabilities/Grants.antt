-- ===== src/Capabilities/Grants.antt =====
-- Which requests the dispatcher lets through.
use vivary.Prelude.{
  ◌≡◌, refl, sym, ap, ◌≢◌, inl, inr, Option, none, some, List, [], ◌∷◌, ◌++◌, arith, if◌then◌else◌,
  Bool-cases, Option-cases, some-injective, All, Str, str_eq, str_eq_iff, str_eq_self, str_eq_no,
}
use vivary.Prelude.Map.{Map, lookup, insert, lookup-insert, lookup-delete}
use vivary.Mus.Ensures.{ok-injective}
use vivary.Mus.{Result, ok}
use vivary.Capabilities.Dispatch.{
  Request, Response, denied_response, ScopeConstraint, Capability, AclEntry, Acl, allowed, register,
  Dispatcher, dispatch_request, set_acl, remove_acl,
}

-- The first entry for the name, and that it is the first one.
pub record IsFirst (name : Str) (entries : List AclEntry) (constraints : List ScopeConstraint)
    : Type 0 where
  pub before : List AclEntry
  pub after : List AclEntry
  pub others : All (λ e. e.capability_name ≢ name) before
  pub split :
      entries ≡ before ++ (record { capability_name = name; constraints = constraints } ∷ after)

-- The policy: the agent has a list, the list names the capability, the capability is registered.
pub record IsGranted {ℓ} {W : Type ℓ} (d : Dispatcher W) (req : Request) (c : Capability W)
    (constraints : List ScopeConstraint) : Type ℓ where
  pub acl : Acl
  pub listed : lookup req.agent_id d.acls ≡ some acl
  pub entry : IsFirst req.name acl.entries constraints
  pub registered : lookup req.name d.registry ≡ some c

allowed-IsFirst :
    (name : Str) (entries : List AclEntry) (constraints : List ScopeConstraint)
    → allowed name entries ≡ some constraints
    → IsFirst name entries constraints
unfolding allowed
allowed-IsFirst name [] constraints h = absurd (cc)
allowed-IsFirst name (e ∷ entries) constraints h =
    elim (Bool-cases (str_eq e.capability_name name)) [
      | inl same ↦
          let same_name = (str_eq_iff e.capability_name name).0 same in
          let same_constraints : e.constraints ≡ constraints = some-injective (rw same at h) in
          record {
            before = [];
            after = entries;
            others = tt;
            split = rw (same_name, same_constraints) refl;
          }
      | inr other ↦
          let first = allowed-IsFirst name entries constraints (rw other at h) in
          record {
            before = e ∷ first.before;
            after = first.after;
            others = (λ same. cc ((str_eq_iff e.capability_name name).1 same), first.others);
            split = ap (λ xs. e ∷ xs) first.split;
          }
    ]

allowed-first :
    (name : Str) (before after : List AclEntry) (constraints : List ScopeConstraint)
    → All (λ e. e.capability_name ≢ name) before
    → allowed name
        (before ++ (record { capability_name = name; constraints = constraints } ∷ after))
      ≡ some constraints
unfolding allowed
allowed-first name [] after constraints others = rw (str_eq_self name) refl
allowed-first name (e ∷ before) after constraints (other, others) =
    ground
      (arith, str_eq_iff e.capability_name name, allowed-first name before after constraints others)

-- What it means that a request was turned down.
pub record IsDenied {ℓ} {W : Type ℓ} (w : W) (answer : Result Response × W) : Type ℓ where
  pub detail : Str
  pub response : answer.0 ≡ ok (denied_response detail)
  pub world : answer.1 ≡ w

module _ {ℓ} {W : Type ℓ} (quote : Str → Str) (d : Dispatcher W) (req : Request) (w : W) where
  -- A request that the policy grants runs the registered capability, under the constraints of the
  -- first entry of the agent's access list that names it, and the answer is the capability's.
  pub dispatch_request-granted :
      (c : Capability W) (constraints : List ScopeConstraint)
      → IsGranted d req c constraints
      → dispatch_request quote d req w ≡ c.execute constraints req w
  unfolding dispatch_request
  dispatch_request-granted c constraints g =
      rw
        (
          g.listed,
          g.entry.split,
          allowed-first req.name g.entry.before g.entry.after constraints g.entry.others,
          g.registered,
        )
        refl

  -- A request that the policy grants with no capability is answered by capability_denied, and
  -- nothing runs: the world is as before.
  pub dispatch_request-IsDenied :
      ((c : Capability W) (constraints : List ScopeConstraint) → ¬ IsGranted d req c constraints)
      → IsDenied w (dispatch_request quote d req w)
  unfolding dispatch_request
  dispatch_request-IsDenied none_granted = elim (Option-cases (lookup req.agent_id d.acls)) [
    | inl e ↦ rw e record { detail = _; response = refl; world = refl }
    | inr (acl, e) ↦ elim (Option-cases (allowed req.name acl.entries)) [
      | inl e' ↦ rw (e, e') record { detail = _; response = refl; world = refl }
      | inr (constraints, e') ↦ elim (Option-cases (lookup req.name d.registry)) [
        | inl e'' ↦ rw (e, e', e'') record { detail = _; response = refl; world = refl }
        | inr (c, e'') ↦ absurd (
            none_granted c constraints record {
              acl = acl;
              listed = e;
              entry = allowed-IsFirst req.name acl.entries constraints e';
              registered = e'';
            })
      ]
    ]
  ]

module _ {ℓ} {W : Type ℓ} (quote : Str → Str) (d : Dispatcher W) (req : Request) (w : W) where
  -- Once the access list of the agent that asks is removed, each of its requests is denied and
  -- nothing runs, whatever is registered and whatever the list held.
  pub dispatch_request-remove_acl :
      IsDenied w (dispatch_request quote (remove_acl req.agent_id d) req w)
  unfolding dispatch_request remove_acl
  dispatch_request-remove_acl =
      rw (lookup-delete, str_eq_self req.agent_id)
        record { detail = _; response = refl; world = refl }

  -- To install an access list for one agent, or to remove it, changes no answer to another agent.
  pub dispatch_request-others :
      (acl : Acl)
      → req.agent_id ≢ acl.agent_id
      → (dispatch_request quote (set_acl acl d) req w ≡ dispatch_request quote d req w)
        × (dispatch_request quote (remove_acl acl.agent_id d) req w
            ≡ dispatch_request quote d req w)
  unfolding dispatch_request set_acl remove_acl
  dispatch_request-others acl other =
      let differ = str_eq_no acl.agent_id req.agent_id (λ e. other (sym e)) in
      (rw (lookup-insert, differ) refl, rw (lookup-delete, differ) refl)

module _ {ℓ} {W : Type ℓ} (c : Capability W) (caps caps' : Map (Capability W)) (name : Str) where
  register_cases :
      (found : Option (Capability W))
      → lookup c.name caps ≡ found
      → register c caps ≡ ok caps'
      → (lookup c.name caps ≡ none)
        × (lookup name caps' ≡ (if str_eq c.name name then some c else lookup name caps))
  unfolding register
  register_cases none e h =
      let same : insert c.name c caps ≡ caps' = ok-injective (rw (register, e) at h) in
      (e, rw (sym same) (lookup-insert c.name name c caps))
  register_cases (some other) e h = absurd (cc (rw (register, e) at h))

  -- A registration that does not panic was of a new name, which means the new capability from then
  -- on, while every other name means what it meant.
  pub lookup-register :
      register c caps ≡ ok caps'
      → (lookup c.name caps ≡ none)
        × (lookup name caps' ≡ (if str_eq c.name name then some c else lookup name caps))
  lookup-register h = register_cases _ refl h
