-- ===== src/Chromproxy.antt =====
-- internal/chromproxy/proxy.go: the policy that decides which addresses the browser may visit.
-- strings.ToLower, strings.TrimSpace and url.Parse are the parameters in `Urls`.
use vivary.Prelude.{
  Bool, true, false, not, ◌&&◌, ◌||◌, Option, none, some, List, [], ◌∷◌, ◌++◌, Str, bytes, length,
  drop, any, str_eq, has_prefix, has_suffix, if◌then◌else◌,
}

pub record Url : Type 0 where
  pub scheme : Str
  pub host : Str
  pub path : Str

pub record Urls : Type 0 where
  pub lower : Str → Str
  pub trim : Str → Str
  pub parse : Str → Option Url

pub record WhitelistPolicy : Type 0 where
  pub prefixes : List Str
  pub domains : List Str
  pub domain_suffixes : List Str
  pub path_prefixes : List Str

abbrev pub or_root : Str → Str
or_root [] = bytes "/"
or_root (c ∷ p) = c ∷ p

module _ (urls : Urls) where
  abbrev delimiters : List Str
  delimiters = bytes "/" ∷ bytes "?" ∷ bytes "#" ∷ []

  -- The round of `allowsByPrefix` for one prefix
  abbrev prefix_allows : Str → Str → Bool
  prefix_allows needle candidate =
      let rest = drop (length candidate) needle in
      not (str_eq candidate [])
      && has_prefix needle candidate
      && (str_eq rest []
          || any (has_prefix rest) delimiters
          || any (has_suffix candidate) delimiters)

  -- `allowsByPrefix`
  unfoldable pub allows_by_prefix : WhitelistPolicy → Str → Bool
  allows_by_prefix p raw =
      any (λ prefix. prefix_allows (urls.lower raw) (urls.trim (urls.lower prefix))) p.prefixes

  abbrev pub suffix_allows : Str → Str → Bool
  suffix_allows domain suffix = str_eq domain suffix || has_suffix domain (bytes "." ++ suffix)

  unfoldable pub domain_allowed : WhitelistPolicy → Str → Bool
  domain_allowed p domain =
      any (λ d. str_eq domain (urls.lower (urls.trim d))) p.domains
      || any
          (λ s.
            let suffix = urls.lower (urls.trim s) in
            not (str_eq suffix []) && suffix_allows domain suffix)
          p.domain_suffixes

  abbrev pub path_allowed : List Str → Str → Bool
  path_allowed [] path = true
  path_allowed (p ∷ ps) path = any (has_prefix (or_root path)) (p ∷ ps)

  abbrev allows_parsed : WhitelistPolicy → Str → Option Url → Bool
  allows_parsed p raw none = false
  allows_parsed p raw (some u) =
      if str_eq u.scheme [] || str_eq u.host []
      then false
      else if allows_by_prefix p raw
      then true
      else if not (domain_allowed p (urls.lower u.host))
      then false
      else path_allowed p.path_prefixes u.path

  -- `Allows`
  unfoldable pub allows : WhitelistPolicy → Str → Bool
  allows p raw = allows_parsed p raw (urls.parse raw)
