-- ===== src/Capabilities/Tests.antt =====
-- The dispatcher and the payloads on a small registry. The world counts the calls.
use vivary.Prelude.{
  has_suffix, inr, has_prefix, length, ℕ, ◌+◌, ◌≡◌, refl, ◌≢◌, true, false, none, some, List, [],
  ◌∷◌, ◌++◌, arith, if◌then◌else◌, Str, bytes, str_eq,
}
use vivary.Prelude.Map.{empty, lookup, insert}
use vivary.Mus.{Source, closed, ok}
use vivary.Capabilities.Payloads.{
  ToolRequestPayload, marshal_tool_request, unmarshal_tool_request, CapabilityRequestPayload,
  CapabilityResponsePayload, marshal_capability_request, unmarshal_capability_request,
  marshal_capability_response, unmarshal_capability_response,
}
use vivary.Capabilities.RoundTrip.{
  unmarshal_tool_request-marshal_tool_request,
  unmarshal_capability_request-marshal_capability_request,
  unmarshal_capability_response-marshal_capability_response,
}
use vivary.Capabilities.Dispatch.{
  Request, Response, ScopeConstraint, Capability, Acl, register, Dispatcher, dispatch_request,
  set_acl, remove_acl,
}
use vivary.Capabilities.Paths.{
  clean, join, components, render, split_slash, contains_dot_dot, dir, rel_parts,
}
use vivary.Capabilities.FileWrite.{
  FileWriteArgs, FileSystem, missing, execute_args, write_file, get_path_prefix,
  check_no_symlink_escape, walk, in_scope,
}
use vivary.Chromproxy.{Urls, allows}
use vivary.Capabilities.Browser.{BrowserScope, whitelist_policy, allows_url, scope_domain_allowed}
use vivary.Capabilities.BrowserPolicy.{allows-whitelist_policy}
use vivary.Capabilities.Grants.{
  IsGranted, IsDenied, dispatch_request-granted, dispatch_request-IsDenied,
  dispatch_request-remove_acl, dispatch_request-others, lookup-register,
}

abbrev stream : Source
stream = record { byte_reader = true; ending = closed }

abbrev quoted : Str → Str
quoted s = bytes "q" ++ s ++ bytes "q"

abbrev answer : Response
answer = record { success = true; result = bytes "done"; error_code = []; error_detail = [] }

abbrev reader : Capability ℕ
reader = record {
  name = bytes "Page_Read";
  audit_payload = true;
  execute = λ constraints req w. (ok answer, w + 1);
}

abbrev policy : Acl
policy = record {
  agent_id = bytes "agent-1";
  entries =
      record { capability_name = bytes "File_Write"; constraints = [] }
      ∷ record { capability_name = bytes "Page_Read"; constraints = [] }
      ∷ [];
}

abbrev desk : Dispatcher ℕ
desk = record {
  registry = record { entries = (bytes "Page_Read", reader) ∷ [] };
  acls = record { entries = (bytes "agent-1", policy) ∷ [] };
}

abbrev read_request : Request
read_request = record {
  name = bytes "Page_Read";
  agent_id = bytes "agent-1";
  seq_no = 3;
  args = [];
}

read_request-IsGranted : IsGranted desk read_request reader []
unfolding lookup str_eq
read_request-IsGranted = record {
  acl = policy;
  listed = refl;
  entry = record {
    before = record { capability_name = bytes "File_Write"; constraints = [] } ∷ [];
    after = [];
    others = (λ e. other e, tt);
    split = refl;
  };
  registered = refl;
}
  where
    other : bytes "File_Write" ≢ bytes "Page_Read"
    other e = cc

dispatch_request-granted_example : dispatch_request quoted desk read_request 0 ≡ (ok answer, 1)
dispatch_request-granted_example =
    dispatch_request-granted quoted desk read_request 0 reader [] read_request-IsGranted

-- The agent's list names the capability, but nobody registered it.
abbrev write_request : Request
write_request = record read_request { name = bytes "File_Write" }

dispatch_request-IsDenied_example : IsDenied 0 (dispatch_request quoted desk write_request 0)
dispatch_request-IsDenied_example =
    dispatch_request-IsDenied quoted desk write_request 0 unregistered
  where
    unregistered :
        (c : Capability ℕ) (constraints : List ScopeConstraint)
        → ¬ IsGranted desk write_request c constraints
    unregistered c constraints g =
        let e : none ≡ some c = unfold lookup str_eq in g.registered in cc e

dispatch_request-remove_acl_sample :
    IsDenied 0 (dispatch_request quoted (remove_acl (bytes "agent-1") desk) read_request 0)
dispatch_request-remove_acl_sample = dispatch_request-remove_acl quoted desk read_request 0

abbrev other_policy : Acl
other_policy = record { agent_id = bytes "eve"; entries = [] }

dispatch_request-others_sample :
    (dispatch_request quoted (set_acl other_policy desk) read_request 0
      ≡ dispatch_request quoted desk read_request 0)
    × (dispatch_request quoted (remove_acl (bytes "eve") desk) read_request 0
        ≡ dispatch_request quoted desk read_request 0)
dispatch_request-others_sample =
    dispatch_request-others quoted desk read_request 0 other_policy differ
  where
    differ : bytes "agent-1" ≢ bytes "eve"
    differ e = cc

lookup-register_sample :
    (lookup (bytes "Page_Read") (empty {V = Capability ℕ}) ≡ none)
    × (lookup (bytes "Page_Read") (insert (bytes "Page_Read") reader empty) ≡ (
        if str_eq (bytes "Page_Read") (bytes "Page_Read")
        then some reader
        else lookup (bytes "Page_Read") empty))
lookup-register_sample =
    lookup-register reader empty (insert (bytes "Page_Read") reader empty) (bytes "Page_Read")
      (unfold register lookup empty in refl)

abbrev sent_request : CapabilityRequestPayload
sent_request = record { capability = bytes "Page_Read"; args = 1 ∷ 2 ∷ [] }

unmarshal_capability_request_sample :
    unmarshal_capability_request stream (marshal_capability_request sent_request ++ [])
    ≡ ok (sent_request, [])
unmarshal_capability_request_sample =
    unmarshal_capability_request-marshal_capability_request sent_request stream []
      record { capability = omega arith; args = omega arith }

abbrev sent_response : CapabilityResponsePayload
sent_response = record {
  success = false;
  result = [];
  error_code = bytes "fs_error";
  error_detail = bytes "full";
}

unmarshal_capability_response_sample :
    unmarshal_capability_response stream (marshal_capability_response sent_response ++ [])
    ≡ ok (sent_response, [])
unmarshal_capability_response_sample =
    unmarshal_capability_response-marshal_capability_response sent_response stream []
      record { result = omega arith; error_code = omega arith; error_detail = omega arith }

-- A file system of empty directories, whose world counts the changes.
abbrev empty_disk : FileSystem ℕ
empty_disk = record {
  lstat = λ path w. missing;
  eval_symlinks = λ path w. inr path;
  mkdir_all = λ path w. (none, w + 1);
  open_file = λ path append w. (none, w + 1);
  write_string = λ path content w. (inr (length content), w + 1);
}

abbrev output_scope : List ScopeConstraint
output_scope =
    record {
      entity = bytes "File";
      constraints = record { entries = (bytes "path-prefix", bytes "/out" ∷ []) ∷ [] };
    }
    ∷ []

abbrev note : FileWriteArgs
note = record { path = bytes "a/b"; content = bytes "hi"; append = false; encoding = [] }

clean-join : clean (join (bytes "/out/../out/") (bytes "./a//b")) ≡ bytes "/out/a/b"
unfolding clean join components render split_slash str_eq has_prefix
clean-join = refl

-- The note is written under the scope.
execute_args-note : (execute_args empty_disk quoted output_scope note 0).1 ≡ 3
unfolding execute_args write_file get_path_prefix lookup check_no_symlink_escape walk in_scope
    contains_dot_dot clean join components render split_slash str_eq has_prefix dir rel_parts
execute_args-note = refl

-- A path that climbs out is refused.
execute_args-climb :
    (execute_args empty_disk quoted output_scope (record note { path = bytes "a/../../b" }) 0).1 ≡ 0
unfolding execute_args contains_dot_dot split_slash str_eq has_prefix
execute_args-climb = refl

-- Addresses of one form only: the host is the whole text.
abbrev flat_urls : Urls
flat_urls = record {
  lower = λ s. s;
  trim = λ s. s;
  parse = λ raw. some (record { scheme = bytes "https"; host = raw; path = [] });
}

abbrev wiki_scope : BrowserScope
wiki_scope = record {
  domains = [];
  domain_suffixes = bytes "wikipedia.org" ∷ [];
  path_prefixes = [];
}

allows-whitelist_policy_example :
    allows flat_urls (whitelist_policy wiki_scope) (bytes "en.wikipedia.org")
    ≡ allows_url flat_urls wiki_scope (bytes "en.wikipedia.org")
allows-whitelist_policy_example =
    allows-whitelist_policy flat_urls wiki_scope (bytes "en.wikipedia.org")
      record { domains = tt; suffixes = ((refl, λ e. cc e), tt) }

allows_url-subdomain : allows_url flat_urls wiki_scope (bytes "en.wikipedia.org") ≡ true
unfolding allows_url scope_domain_allowed str_eq has_suffix has_prefix
allows_url-subdomain = refl

allows_url-lookalike : allows_url flat_urls wiki_scope (bytes "notwikipedia.org") ≡ false
unfolding allows_url scope_domain_allowed str_eq has_suffix has_prefix
allows_url-lookalike = refl

abbrev tool_call : ToolRequestPayload
tool_call = record { capability = bytes "Page_Read"; mode = 1; args = 5 ∷ [] }

unmarshal_tool_request_sample :
    unmarshal_tool_request stream (marshal_tool_request tool_call ++ []) ≡ ok (tool_call, [])
unmarshal_tool_request_sample =
    unmarshal_tool_request-marshal_tool_request tool_call stream []
      record { capability = omega arith; args = omega arith }
