-- ===== src/Capabilities/WriteScope.antt =====
-- Where Filesystem_File_Write may write.
use vivary.Prelude.{◌≡◌, ◌≢◌, ◌⊎◌, inr, false, List, [], ◌∷◌, ◌++◌, All, Str, bytes}
use vivary.Capabilities.Dispatch.{Response, capability_denied, ScopeConstraint}
use vivary.Capabilities.Paths.{split_slash, rel_parts, is_abs, clean, join}
use vivary.Capabilities.FileWrite.{
  missing, symlink, plain, FileWriteArgs, FileSystem, get_path_prefix,
}

-- At or below a scope.
abbrev pub IsUnder : Str → Str → Type 0
IsUnder scope path = (path ≡ clean scope) ⊎ ((t : Str) × (path ≡ clean scope ++ (bytes "/" ++ t)))

-- The components of a path below `cur`, one after the other: up to the first that does not exist,
-- each is no symlink, or a symlink that leads to a place at or below the scope.
pub data IsWalked {ℓ} {W : Type ℓ} (fs : FileSystem W) (scope : Str) (w : W)
    : Str → List Str → Type 0 where
  walked : {cur : Str} → IsWalked fs scope w cur []
  ends :
      {cur part : Str} {parts : List Str}
      → fs.lstat (join cur part) w ≡ missing
      → IsWalked fs scope w cur (part ∷ parts)
  over :
      {cur part : Str} {parts : List Str}
      → fs.lstat (join cur part) w ≡ plain
      → IsWalked fs scope w (join cur part) parts
      → IsWalked fs scope w cur (part ∷ parts)
  through :
      {cur part resolved : Str} {parts : List Str}
      → fs.lstat (join cur part) w ≡ symlink
      → fs.eval_symlinks (join cur part) w ≡ inr resolved
      → IsUnder scope resolved
      → IsWalked fs scope w (join cur part) parts
      → IsWalked fs scope w cur (part ∷ parts)

abbrev target : List ScopeConstraint → FileWriteArgs → Str
target constraints args = clean (join (get_path_prefix constraints) args.path)

-- The conditions under which the file is written.
pub record IsPermitted {ℓ} {W : Type ℓ} (fs : FileSystem W) (quote : Str → Str)
    (constraints : List ScopeConstraint) (args : FileWriteArgs) (w : W) : Type 0 where
  pub named : args.path ≢ []
  pub relative : is_abs args.path ≡ false
  pub no_dots : All (λ part. part ≢ bytes "..") (split_slash args.path)
  pub scoped : get_path_prefix constraints ≢ []
  pub inside : IsUnder (get_path_prefix constraints) (target constraints args)
  pub no_escape :
      IsWalked fs
        (get_path_prefix constraints)
        w
        (get_path_prefix constraints)
        (rel_parts (get_path_prefix constraints) (target constraints args))

-- A refusal that left the file system alone.
pub record IsRefused {ℓ} {W : Type ℓ} (w : W) (answer : Response × W) : Type ℓ where
  pub unsuccessful : answer.0.success ≡ false
  pub code : answer.0.error_code ≡ capability_denied
  pub untouched : answer.1 ≡ w
