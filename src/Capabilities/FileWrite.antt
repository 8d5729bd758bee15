-- ===== src/Capabilities/FileWrite.antt =====
-- internal/capabilities/filesystem.go: the capability Filesystem_File_Write, and its argument and
-- result payloads in generated.go. The calls of package os are the parameters in `FileSystem`.
use vivary.Prelude.{
  ℕ, ◌⊎◌, inl, inr, Bool, true, false, not, ◌||◌, Option, none, some, List, [], ◌∷◌, ◌++◌,
  if◌then◌else◌, Str, bytes, str_eq, has_prefix,
}
use vivary.Prelude.Map.{lookup}
use vivary.Mus.{
  closed, Result, ok, err, panicked, Parser, ◌>>=◌, pure, within, read_full, read_string,
  append_string, append_varint, max_payload_bytes,
}
use vivary.Mus.Errors.{error_text}
use vivary.Mus.Flags.{bool_byte, byte_bool}
use vivary.Capabilities.Dispatch.{Request, Response, denied_response, ScopeConstraint}
use vivary.Capabilities.Paths.{is_abs, contains_dot_dot, clean, join, dir, rel_parts}

pub record FileWriteArgs : Type 0 where
  pub path : Str
  pub content : Str
  pub append : Bool
  pub encoding : Str

unfoldable pub marshal_file_write : FileWriteArgs → List ℕ
marshal_file_write a =
    let b1 = append_string [] a.path in
    let b2 = append_string b1 a.content in
    let b3 = b2 ++ (bool_byte a.append ∷ []) in append_string b3 a.encoding

unfoldable pub unmarshal_file_write : Parser FileWriteArgs
unmarshal_file_write = do
  path ← within (bytes "path") (read_string max_payload_bytes)
  content ← within (bytes "content") (read_string max_payload_bytes)
  append ← within (bytes "append") (read_full 1)
  encoding ← within (bytes "encoding") (read_string max_payload_bytes)
  pure (record { path = path; content = content; append = byte_bool append; encoding = encoding })

unfoldable pub marshal_file_write_result : Str → ℕ → List ℕ
marshal_file_write_result path bytes_written = append_varint (append_string [] path) bytes_written

-- What os.Lstat answers: no such file, an error, a symlink, or anything else.
pub data Lstat : Type 0 where
  missing : Lstat
  unreadable : Str → Lstat
  symlink : Lstat
  plain : Lstat

-- An operation that fails answers its message; in a sum, on the left.
pub record FileSystem {ℓ} (W : Type ℓ) : Type ℓ where
  pub lstat : Str → W → Lstat
  pub eval_symlinks : Str → W → Str ⊎ Str
  pub mkdir_all : Str → W → Option Str × W
  pub open_file : Str → Bool → W → Option Str × W
  pub write_string : Str → Str → W → (Str ⊎ ℕ) × W

-- At or below the scope, as a string
unfoldable pub in_scope : Str → Str → Bool
in_scope scope path = has_prefix path (clean scope ++ bytes "/") || str_eq path (clean scope)

abbrev path_prefix : Option (List Str) → Option Str
path_prefix none = none
path_prefix (some []) = none
path_prefix (some (p ∷ ps)) = some p

abbrev or_next : Option Str → Str → Str
or_next none later = later
or_next (some p) later = p

-- `getPathPrefixFromConstraints`
unfoldable pub get_path_prefix : List ScopeConstraint → Str
get_path_prefix [] = []
get_path_prefix (sc ∷ rest) =
    let later = get_path_prefix rest in
    if str_eq sc.entity (bytes "File") || str_eq sc.entity (bytes "Folder")
    then or_next (path_prefix (lookup (bytes "path-prefix") sc.constraints)) later
    else later

module _ {ℓ} {W : Type ℓ} (fs : FileSystem W) (quote : Str → Str) where
  -- The message has an arrow, in UTF-8.
  abbrev pub check_resolved : Str → Str → Str ⊎ Str → Option Str
  check_resolved scope cur (inr resolved) =
      if in_scope scope resolved
      then none
      else some (
          bytes "symlink "
          ++ quote cur
          ++ (32 ∷ 226 ∷ 134 ∷ 146 ∷ 32 ∷ [])
          ++ quote resolved
          ++ bytes " escapes scope")
  check_resolved scope cur (inl e) =
      some (bytes "could not resolve symlink " ++ quote cur ++ bytes ": " ++ e)

  abbrev pub stop_at : Option Str → Option (Option Str)
  stop_at none = none
  stop_at (some e) = some (some e)

  -- What one path component means for the walk: stop with this answer, or go on.
  abbrev pub check_component : Str → Str → Lstat → W → Option (Option Str)
  check_component scope cur missing w = some none
  check_component scope cur (unreadable m) w = some (some m)
  check_component scope cur plain w = none
  check_component scope cur symlink w = stop_at (check_resolved scope cur (fs.eval_symlinks cur w))

  abbrev pub or_continue : Option (Option Str) → Option Str → Option Str
  or_continue (some answer) rest = answer
  or_continue none rest = rest

  -- The loop of `checkNoSymlinkEscape`
  unfoldable pub walk : Str → Str → List Str → W → Option Str
  walk scope cur [] w = none
  walk scope cur (part ∷ parts) w =
      let next = join cur part in
      or_continue (check_component scope next (fs.lstat next w) w) (walk scope next parts w)

  -- `checkNoSymlinkEscape`: none, or the message of the error
  unfoldable pub check_no_symlink_escape : Str → Str → W → Option Str
  unfolding walk
  check_no_symlink_escape scope path w = walk scope scope (rel_parts scope path) w

  fs_error : Str → Response
  fs_error detail = record {
    success = false;
    result = [];
    error_code = bytes "fs_error";
    error_detail = detail;
  }

  abbrev written : Str → (Str ⊎ ℕ) × W → Response × W
  written path (inl e, w) = (fs_error e, w)
  written path (inr n, w) = (
    record {
      success = true;
      result = marshal_file_write_result path n;
      error_code = [];
      error_detail = [];
    },
    w,
  )

  abbrev opened : FileWriteArgs → Str → Option Str × W → Response × W
  opened args path (some e, w) = (fs_error e, w)
  opened args path (none, w) = written path (fs.write_string path args.content w)

  abbrev made : FileWriteArgs → Str → Option Str × W → Response × W
  made args path (some e, w) = (fs_error e, w)
  made args path (none, w) = opened args path (fs.open_file path args.append w)

  -- From `MkdirAll` on
  unfoldable pub write_file : FileWriteArgs → Str → W → Response × W
  unfolding fs_error
  write_file args path w = made args path (fs.mkdir_all (dir path) w)

  abbrev after_walk : FileWriteArgs → Str → Option Str → W → Response × W
  after_walk args path (some e) w =
      (denied_response (bytes "filesystem security violation: " ++ e), w)
  after_walk args path none w = write_file args path w

  -- From the resolved target on
  abbrev pub after_scope : FileWriteArgs → Str → W → Response × W
  after_scope args scope w =
      let target = clean (join scope args.path) in
      if not (in_scope scope target)
      then (
        denied_response (bytes "path " ++ quote args.path ++ bytes " is outside allowed scope"),
        w,
      )
      else after_walk args target (check_no_symlink_escape scope target w) w

  unfoldable pub execute_args : List ScopeConstraint → FileWriteArgs → W → Response × W
  execute_args constraints args w =
      let scope = get_path_prefix constraints in
      if str_eq args.path []
      then (denied_response (bytes "path is required"), w)
      else if is_abs args.path
      then (denied_response (bytes "absolute paths are not allowed"), w)
      else if contains_dot_dot args.path
      then (denied_response (bytes "path traversal via '..' is not allowed"), w)
      else if str_eq scope []
      then (denied_response (bytes "no filesystem write scope configured for this agent"), w)
      else after_scope args scope w

  abbrev decoded : List ScopeConstraint → Result (FileWriteArgs × List ℕ) → W → Result Response × W
  decoded constraints (err e) w =
      (ok (denied_response (bytes "args schema mismatch: " ++ error_text e)), w)
  decoded constraints panicked w = (panicked, w)
  decoded constraints (ok (args, rest)) w = let r = execute_args constraints args w in (ok r.0, r.1)

  -- `FilesystemFileWrite.Execute`
  unfoldable pub execute_file_write : List ScopeConstraint → Request → W → Result Response × W
  execute_file_write constraints req w =
      decoded constraints
        (unmarshal_file_write (record { byte_reader = true; ending = closed }) req.args) w
