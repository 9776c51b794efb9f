-- ===== src/Checker/Domain/Laws.antt =====
-- What a domain check reports, and what it leaves in the cache of a lawful store.
use domainturva.Prelude.{
  ◌+ℤ◌, String, eq_iff, ◌≡◌, ◌↔◌, refl, sym, ap, subst, ◌∙◌, ◌⊎◌, inl, inr, Bool, true, false,
  Bool-cases, Option, none, some, ok, err, arith,
}
use domainturva.Time.{Time, sub_time}
use domainturva.Storage.{DomainCache, Storage}
use domainturva.Storage.Lawful.{Lawful}
use domainturva.Storage.Memory.{zero_domain_cache, comma_ok}
use domainturva.Config.{Site}
use domainturva.Checker.{CheckResult, status_down, status_up}
use domainturva.Checker.Domain.{
  Lookups, Parsers, registrable_domain, lookup, read_cache, is_fresh, known_result, look_up_again,
  check,
}
use domainturva.Checker.Domain.Conditions.{
  empty_host, blank, HasNoHost, IsAskedFor, IsFound, IsUnknown, registrable_domain_lem, lookup_lem,
  known, not_known, found_cache, failed_cache, IsUsable,
}

false_of : (b : Bool) → ¬ (b ≡ true) → b ≡ false
false_of b h = ground arith

module _ (p : Parsers) (site : Site) (x : Lookups) {S : Type 0} (store : Storage S)
    (law : Lawful store) (s : S) where
  abbrev pub cached : DomainCache
  cached = (comma_ok zero_domain_cache (law.cache_of s site.name)).0

  -- The check answers without a change to the store.
  abbrev pub IsRefused : CheckResult × S → Type 0
  IsRefused (r, after) =
      HasNoHost p site x × ((e : String) × (r ≡ not_known p site x status_down e)) × (after ≡ s)

  abbrev pub IsCached : CheckResult × S → Type 0
  IsCached (r, after) =
      ((query : String) × IsAskedFor p site x query)
      × IsUsable p site x (law.cache_of s site.name)
      × (r ≡ known p site x cached.expires_at)
      × (after ≡ s)

  -- It asks the registries: the cached time, if any, cannot be used.
  abbrev pub IsLookedUp : CheckResult × S → Type 0
  IsLookedUp (r, after) =
      (query : String) × (t : Time) × (source : String) × IsAskedFor p site x query
      × (¬ IsUsable p site x (law.cache_of s site.name))
      × IsFound p site x query t source
      × (r ≡ known p site x t)
      × (law.cache_of after site.name ≡ some (found_cache p site x t source))
      × (law.log after ≡ law.log s)

  abbrev pub IsFailed : CheckResult × S → Type 0
  IsFailed (r, after) =
      (query : String) × (e : String) × IsAskedFor p site x query
      × (¬ IsUsable p site x (law.cache_of s site.name))
      × IsUnknown p site x query e
      × (r ≡ not_known p site x status_up e)
      × (law.cache_of after site.name ≡ some (failed_cache p site x cached e))
      × (law.log after ≡ law.log s)

  abbrev pub IsAnswered : CheckResult × S → Type 0
  IsAnswered out = IsRefused out ⊎ (IsCached out ⊎ (IsLookedUp out ⊎ IsFailed out))

  read_cache_lem :
      read_cache p store site.name s ≡ comma_ok zero_domain_cache (law.cache_of s site.name)
  unfolding read_cache
  read_cache_lem = rw (law.get_cache site.name s, read_cache) refl

  pub put_cached :
      (dc : DomainCache)
      → dc.site_name ≡ site.name
      → law.cache_of (store.upsert_domain_cache dc s).0 site.name ≡ some dc
  put_cached dc e = law.put_cache dc s site.name ∙ rw ((eq_iff dc.site_name site.name).1 e) refl

  fresh_iff :
      (entry : Option DomainCache)
      → (is_fresh p store x.now (comma_ok zero_domain_cache entry) ≡ true) ↔ IsUsable p site x entry
  unfolding is_fresh sub_time ◌+ℤ◌
  fresh_iff none = (λ h. ground arith, λ h. ground (arith, h.1))
  fresh_iff (some dc) = (
    λ h. (dc, refl, ground arith, ground arith),
    λ (dc', same, soon, dated). let e : dc ≡ dc' = ground (arith, same) in ground (arith, e),
  )

  looked_up-IsAnswered :
      (query : String)
      → IsAskedFor p site x query
      → (¬ IsUsable p site x (law.cache_of s site.name))
      → IsAnswered (look_up_again p store site x query (blank p site x) cached s)
  unfolding look_up_again known_result
  looked_up-IsAnswered query asked stale = elim (lookup_lem p site x query) [
    | inl (e, failed, unknown) ↦
        let eq : look_up_again p store site x query (blank p site x) cached s ≡ (
          not_known p site x status_up e,
          (store.upsert_domain_cache (failed_cache p site x cached e) s).0,
        ) =
          rw (failed, look_up_again) refl in
        let put = put_cached (failed_cache p site x cached e) refl in
        let log = law.put_cache_log (failed_cache p site x cached e) s in
        subst IsAnswered (sym eq)
          (inr (inr (inr (query, e, asked, stale, unknown, refl, put, log))))
    | inr (t, source, found, by) ↦
        let eq : look_up_again p store site x query (blank p site x) cached s
            ≡ (known p site x t, (store.upsert_domain_cache (found_cache p site x t source) s).0) =
          rw (found, look_up_again) refl in
        let put = put_cached (found_cache p site x t source) refl in
        let log = law.put_cache_log (found_cache p site x t source) s in
        subst IsAnswered (sym eq)
          (inr (inr (inl (query, t, source, asked, stale, by, refl, put, log))))
  ]

  -- Neither the cache nor a registry knows the expiry time.
  pub check_unknown :
      (query e : String)
      → IsAskedFor p site x query
      → (¬ IsUsable p site x (law.cache_of s site.name))
      → IsUnknown p site x query e
      → check p store site x s ≡ (
        not_known p site x status_up e,
        (store.upsert_domain_cache (failed_cache p site x cached e) s).0,
      )
  unfolding check registrable_domain look_up_again
  check_unknown query e (host, parsed, named, asked) stale (r, w, no_rdap, no_whois, message) =
      let of_host : registrable_domain p site.url ≡ ok query =
        rw (parsed, registrable_domain) (rw (empty_host host named) (ap ok (sym asked))) in
      let failed : lookup p x query ≡ err e =
        rw (no_rdap, no_whois, lookup) (ap err (sym message)) in
      let got = comma_ok zero_domain_cache (law.cache_of s site.name) in
      let old : is_fresh p store x.now got ≡ false =
        false_of (is_fresh p store x.now got)
          (λ t. stale ((fresh_iff (law.cache_of s site.name)).0 t)) in
      rw (of_host, check) (rw read_cache_lem (rw old (rw (failed, look_up_again) refl)))

  -- A domain check over a lawful store does one of four things, each under its own conditions, and
  -- each result is stated in full. Where the address cannot be parsed or names no host, it is down
  -- with an error and changes nothing. Where it names a host and the cache has a known expiry time
  -- of a lookup less than 6 hours ago, it is up with that time and the days left, and changes
  -- nothing. Where the cache has no such time and RDAP gives one, or RDAP fails and WHOIS gives
  -- one, it is up with that time, and the cache entry holds it, the source, no error, and the time
  -- of the check as that of the last lookup and of the last good one. Where both fail, it is up
  -- without a time, and the entry keeps the expiry time, the source and the time of the last good
  -- lookup, and holds the error and the time of the check. The alert log stays as it was.
  pub check-IsAnswered : IsAnswered (check p store site x s)
  unfolding check known_result
  check-IsAnswered = elim (registrable_domain_lem p site x) [
    | inl ((e, refused), nowhere) ↦
        let eq : check p store site x s ≡ (not_known p site x status_down e, s) =
          rw (refused, check) refl in
        subst IsAnswered (sym eq) (inl (nowhere, (e, refl), refl))
    | inr (query, named, asked) ↦
        let got = comma_ok zero_domain_cache (law.cache_of s site.name) in
        let (usable, fresh) = fresh_iff (law.cache_of s site.name) in
        elim (Bool-cases (is_fresh p store x.now got)) [
          | inl usable_now ↦
              let eq : check p store site x s ≡ (known p site x cached.expires_at, s) =
                rw (named, check) (rw read_cache_lem (rw usable_now refl)) in
              subst IsAnswered (sym eq) (inr (inl ((query, asked), usable usable_now, refl, refl)))
          | inr stale ↦
              let eq : check p store site x s
                  ≡ look_up_again p store site x query (blank p site x) cached s =
                rw (named, check) (rw read_cache_lem (rw stale refl)) in
              subst IsAnswered (sym eq)
                (looked_up-IsAnswered query asked (λ u. ground (arith, fresh u)))
        ]
  ]
