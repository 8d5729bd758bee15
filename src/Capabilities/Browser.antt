-- ===== src/Capabilities/Browser.antt =====
-- internal/capabilities/browser.go: the capability Browser_Page_Read and its scope.
use vivary.Prelude.{
  ℕ, ◌⊎◌, inl, inr, Bool, true, false, not, ◌&&◌, ◌||◌, Option, none, some, List, [], ◌∷◌, ◌++◌,
  ◌==◌, if◌then◌else◌, any, Str, bytes, str_eq,
}
use vivary.Prelude.Map.{lookup}
use vivary.Mus.{
  closed, Result, ok, err, panicked, Parser, ◌>>=◌, pure, within, read_string, read_varint,
  append_string, append_varint, max_payload_bytes,
}
use vivary.Mus.Errors.{error_text}
use vivary.Capabilities.Dispatch.{
  Request, Response, denied_response, ScopeConstraint, ConstraintSet,
}
use vivary.Chromproxy.{Url, Urls, WhitelistPolicy, suffix_allows, path_allowed}

pub record BrowserScope : Type 0 where
  pub domains : List Str
  pub domain_suffixes : List Str
  pub path_prefixes : List Str

abbrev or_empty : Option (List Str) → List Str
or_empty none = []
or_empty (some vs) = vs

abbrev values_of : Str → ConstraintSet → List Str
values_of key cs = or_empty (lookup key cs)

-- The loop of `normalizeBrowserScope`
normalize_loop : BrowserScope → List ScopeConstraint → BrowserScope
normalize_loop scope [] = scope
normalize_loop scope (sc ∷ rest) =
    let skipped = normalize_loop scope rest in
    let added =
      normalize_loop
        (record {
          domains = scope.domains ++ values_of (bytes "domain") sc.constraints;
          domain_suffixes =
              scope.domain_suffixes ++ values_of (bytes "domain-suffix") sc.constraints;
          path_prefixes = scope.path_prefixes ++ values_of (bytes "path-prefix") sc.constraints;
        })
        rest in
    if not (str_eq sc.entity (bytes "Link")) then skipped else added

unfoldable pub normalize_browser_scope : List ScopeConstraint → BrowserScope
unfolding normalize_loop
normalize_browser_scope constraints =
    normalize_loop (record { domains = []; domain_suffixes = []; path_prefixes = [] }) constraints

-- `whitelistPolicy`
unfoldable pub whitelist_policy : BrowserScope → WhitelistPolicy
whitelist_policy s = record {
  prefixes = [];
  domains = s.domains;
  domain_suffixes = s.domain_suffixes;
  path_prefixes = s.path_prefixes;
}

abbrev pub is_empty : List Str → Bool
is_empty [] = true
is_empty (x ∷ xs) = false

module _ (urls : Urls) where
  unfoldable pub scope_domain_allowed : BrowserScope → Str → Bool
  scope_domain_allowed s domain =
      any (λ d. str_eq domain (urls.lower d)) s.domains
      || any (λ x. suffix_allows urls domain (urls.lower x)) s.domain_suffixes

  abbrev pub allows_parsed : BrowserScope → Option Url → Bool
  allows_parsed s none = false
  allows_parsed s (some u) =
      if str_eq u.scheme [] || str_eq u.host []
      then false
      else if not (scope_domain_allowed s (urls.lower u.host))
      then false
      else path_allowed urls s.path_prefixes u.path

  -- `allowsURL`
  unfoldable pub allows_url : BrowserScope → Str → Bool
  allows_url s raw =
      if is_empty s.domains && is_empty s.domain_suffixes && is_empty s.path_prefixes
      then false
      else allows_parsed s (urls.parse raw)

  -- `urlMatchesConstraints`
  unfoldable pub url_matches_constraints : Str → List ScopeConstraint → Bool
  url_matches_constraints raw constraints = allows_url (normalize_browser_scope constraints) raw

-- The arguments of Browser_Page_Read, in generated.go; `timeout` is the uint64 on the wire.
pub record PageReadArgs : Type 0 where
  pub url : Str
  pub timeout : ℕ
  pub wait_for : Str

unfoldable pub marshal_page_read : PageReadArgs → List ℕ
marshal_page_read a = append_string (append_varint (append_string [] a.url) a.timeout) a.wait_for

unfoldable pub unmarshal_page_read : Parser PageReadArgs
unmarshal_page_read = do
  url ← within (bytes "url") (read_string max_payload_bytes)
  timeout ← within (bytes "timeout") read_varint
  wait_for ← within (bytes "wait_for") (read_string max_payload_bytes)
  pure (record { url = url; timeout = timeout; wait_for = wait_for })

-- `ChromeProxy` under a timeout of so many seconds: agent, address, policy, event to wait for,
-- characters at most; a message on the left is an error.
abbrev pub ReadPage {ℓ} : Type ℓ → Type ℓ
ReadPage W = ℕ → Str → Str → WhitelistPolicy → Str → ℕ → W → (Str ⊎ Str) × W

abbrev or_idle : Str → Str
or_idle [] = bytes "networkidle"
or_idle (c ∷ s) = c ∷ s

module _ {ℓ} {W : Type ℓ} (urls : Urls) (quote : Str → Str) where
  abbrev page_answer : (Str ⊎ Str) × W → Response × W
  page_answer (inl e, w) = (
    record { success = false; result = []; error_code = bytes "chrome_error"; error_detail = e },
    w,
  )
  page_answer (inr text, w) = (
    record { success = true; result = append_string [] text; error_code = []; error_detail = [] },
    w,
  )

  abbrev run_page : Option (ReadPage W) → Str → PageReadArgs → BrowserScope → W → Response × W
  run_page none agent args scope w = (
    record {
      success = false;
      result = [];
      error_code = bytes "unavailable";
      error_detail = bytes "chrome proxy not initialised";
    },
    w,
  )
  run_page (some read) agent args scope w = page_answer (
      read (if args.timeout == 0 then 30 else args.timeout) agent args.url (whitelist_policy scope)
        (or_idle args.wait_for) 32768 w)

  -- From the decoded arguments on
  unfoldable pub execute_page_args :
      Option (ReadPage W) → List ScopeConstraint → Str → PageReadArgs → W → Response × W
  execute_page_args proxy constraints agent args w =
      let scope = normalize_browser_scope constraints in
      if str_eq args.url []
      then (denied_response (bytes "url is required"), w)
      else if not (allows_url urls scope args.url)
      then (
        denied_response (bytes "URL " ++ quote args.url ++ bytes " not in browser whitelist"),
        w,
      )
      else run_page proxy agent args scope w

  abbrev page_decoded :
      Option (ReadPage W)
      → List ScopeConstraint
      → Str
      → Result (PageReadArgs × List ℕ)
      → W
      → Result Response × W
  page_decoded proxy constraints agent (err e) w =
      (ok (denied_response (bytes "args schema mismatch: " ++ error_text e)), w)
  page_decoded proxy constraints agent panicked w = (panicked, w)
  page_decoded proxy constraints agent (ok (args, rest)) w =
      let r = execute_page_args proxy constraints agent args w in (ok r.0, r.1)

  -- `BrowserPageRead.Execute`
  unfoldable pub execute_page_read :
      Option (ReadPage W) → List ScopeConstraint → Request → W → Result Response × W
  execute_page_read proxy constraints req w =
      page_decoded proxy constraints req.agent_id
        (unmarshal_page_read (record { byte_reader = true; ending = closed }) req.args) w
