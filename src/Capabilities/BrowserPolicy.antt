-- ===== src/Capabilities/BrowserPolicy.antt =====
-- The scope of Browser_Page_Read against the policy of internal/chromproxy.
use vivary.Prelude.{
  ◌≡◌, refl, sym, ◌≢◌, ◌⊎◌, inl, inr, Bool, true, false, not, ◌&&◌, ◌||◌, List, [], ◌∷◌, arith,
  if◌then◌else◌, Bool-cases, Option-cases, All, any, Str, str_eq, str_eq_no,
}
use vivary.Chromproxy.{Urls, allows_by_prefix, suffix_allows, domain_allowed, allows}
use vivary.Capabilities.Browser.{
  BrowserScope, whitelist_policy, scope_domain_allowed, is_empty, allows_url,
}

module _ (urls : Urls) where
  -- What makes the two readings of a scope agree: no blanks around an entry, no empty suffix.
  pub record IsTidy (s : BrowserScope) : Type 0 where
    pub domains : All (λ d. urls.trim d ≡ d) s.domains
    pub suffixes : All (λ x. (urls.trim x ≡ x) × (urls.lower x ≢ [])) s.domain_suffixes

  same_domains :
      (domain : Str) (ds : List Str)
      → All (λ d. urls.trim d ≡ d) ds
      → any (λ d. str_eq domain (urls.lower (urls.trim d))) ds
        ≡ any (λ d. str_eq domain (urls.lower d)) ds
  same_domains domain [] h = refl
  same_domains domain (d ∷ ds) (hd, h) = rw (hd, same_domains domain ds h) refl

  same_suffixes :
      (domain : Str) (xs : List Str)
      → All (λ x. (urls.trim x ≡ x) × (urls.lower x ≢ [])) xs
      → any
          (λ x.
            let suffix = urls.lower (urls.trim x) in
            not (str_eq suffix []) && suffix_allows urls domain suffix)
          xs
        ≡ any (λ x. suffix_allows urls domain (urls.lower x)) xs
  same_suffixes domain [] h = refl
  same_suffixes domain (x ∷ xs) ((hx, full), h) =
      rw (hx, str_eq_no (urls.lower x) [] full, same_suffixes domain xs h) refl

  same_domain_allowed :
      (s : BrowserScope) (domain : Str)
      → IsTidy s
      → domain_allowed urls (whitelist_policy s) domain ≡ scope_domain_allowed urls s domain
  unfolding domain_allowed whitelist_policy scope_domain_allowed
  same_domain_allowed s domain h =
      rw
        (same_domains domain s.domains h.domains, same_suffixes domain s.domain_suffixes h.suffixes)
        refl

  nothing_allowed :
      (s : BrowserScope) (domain : Str)
      → (is_empty s.domains && is_empty s.domain_suffixes && is_empty s.path_prefixes) ≡ true
      → scope_domain_allowed urls s domain ≡ false
  unfolding scope_domain_allowed
  nothing_allowed s domain h = ground (arith, none_of s.domains, none_of s.domain_suffixes)
    where
      none_of : (xs : List Str) → (xs ≡ []) ⊎ (is_empty xs ≡ false)
      none_of [] = inl refl
      none_of (x ∷ xs) = inr refl

  -- The proxy, under the policy that the capability hands it, lets through exactly the addresses
  -- that the capability itself lets through, for every scope with no blanks around its entries
  -- and no empty suffix.
  pub allows-whitelist_policy :
      (s : BrowserScope) (raw : Str)
      → IsTidy s
      → allows urls (whitelist_policy s) raw ≡ allows_url urls s raw
  unfolding allows allows_url
  allows-whitelist_policy s raw h = elim (Option-cases (urls.parse raw)) [
    | inl e ↦ rw e (
        sym (
          either_way
            (is_empty s.domains && is_empty s.domain_suffixes && is_empty s.path_prefixes)))
    | inr (u, e) ↦
        elim (Bool-cases
          (is_empty s.domains && is_empty s.domain_suffixes && is_empty s.path_prefixes)) [
            | inl none_ ↦
                rw
                  (
                    e,
                    none_,
                    no_prefix,
                    same_domain_allowed s (urls.lower u.host) h,
                    nothing_allowed s (urls.lower u.host) none_,
                  )
                  (either_way (str_eq u.scheme [] || str_eq u.host []))
            | inr some_ ↦
                rw (e, some_, no_prefix, same_domain_allowed s (urls.lower u.host) h, same_paths)
                  refl
          ]
  ]
    where
      either_way : (c : Bool) → (if c then false else false) ≡ false
      either_way true = refl
      either_way false = refl

      no_prefix : allows_by_prefix urls (whitelist_policy s) raw ≡ false
      no_prefix = unfold allows_by_prefix whitelist_policy in refl

      same_paths : (whitelist_policy s).path_prefixes ≡ s.path_prefixes
      same_paths = unfold whitelist_policy in refl
