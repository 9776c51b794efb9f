-- ===== src/Checker/Domain/Conditions.antt =====
-- When a domain check finds what, and the results and cache entries that it then has.
use domainturva.Prelude.{
  ◌+ℤ◌, ◌<ℤ◌, String, ◌==◌, ◌<>◌, eq_iff, ◌≡◌, ◌≢◌, refl, ap, ◌∙◌, ◌⊎◌, inl, inr, true, false,
  Bool-cases, Option, some, ok, err, Result-cases, arith,
}
use domainturva.Time.{Time, zero_time, sub_time}
use domainturva.Storage.{DomainCache}
use domainturva.Config.{Site}
use domainturva.Checker.{CheckResult, check_domain, status_up, zero_result}
use domainturva.Checker.Days.{days_left}
use domainturva.Checker.Domain.{
  Lookups, Parsers, trim_www, registrable_domain, lookup_rdap, lookup_whois, lookup, cache_ttl,
}

pub empty_host : (host : String) → host ≢ "" → (host == "") ≡ false
empty_host host named = ground (arith, eq_iff host "")

module _ (p : Parsers) (site : Site) (x : Lookups) where
  -- The address names no host: it cannot be parsed, or its host is empty.
  abbrev pub HasNoHost : Type 0
  HasNoHost = ((e : String) × (p.hostname site.url ≡ err e)) ⊎ (p.hostname site.url ≡ ok "")

  -- It names a host, and the registries are asked for `query`.
  abbrev pub IsAskedFor : String → Type 0
  IsAskedFor query =
      (host : String) × (p.hostname site.url ≡ ok host) × (host ≢ "") × (query ≡ trim_www host)

  -- A registry knows the expiry time: RDAP, or WHOIS where RDAP does not.
  abbrev pub IsFound : String → Time → String → Type 0
  IsFound query t source =
      ((lookup_rdap p x query ≡ ok t) × (source ≡ "rdap"))
      ⊎ ((e : String) × (lookup_rdap p x query ≡ err e)
          × (lookup_whois p x query ≡ ok t)
          × (source ≡ "whois"))

  -- Neither does.
  abbrev pub IsUnknown : String → String → Type 0
  IsUnknown query e =
      (r w : String) × (lookup_rdap p x query ≡ err r)
      × (lookup_whois p x query ≡ err w)
      × (e ≡ "rdap and whois both failed: " <> w)

  pub registrable_domain_lem :
      (((e : String) × (registrable_domain p site.url ≡ err e)) × HasNoHost)
      ⊎ ((query : String) × (registrable_domain p site.url ≡ ok query) × IsAskedFor query)
  unfolding registrable_domain
  registrable_domain_lem = elim (Result-cases (p.hostname site.url)) [
    | inl (e, bad) ↦ inl ((e, rw (bad, registrable_domain) refl), inl (e, bad))
    | inr (host, parsed) ↦ elim (Bool-cases (host == "")) [
      | inl empty ↦ inl (
        (
          "no hostname in url " <> p.quoted site.url,
          rw (parsed, registrable_domain) (rw empty refl),
        ),
        inr (parsed ∙ ap ok ((eq_iff host "").0 empty)),
      )
      | inr named ↦ inr (
        trim_www host,
        rw (parsed, registrable_domain) (rw named refl),
        (host, parsed, (λ e. ground (arith, eq_iff host "")), refl),
      )
    ]
  ]

  pub lookup_lem :
      (query : String)
      → ((e : String) × (lookup p x query ≡ err e) × IsUnknown query e)
        ⊎ ((t : Time) × (source : String) × (lookup p x query ≡ ok (t, source))
            × IsFound query t source)
  unfolding lookup
  lookup_lem query = elim (Result-cases (lookup_rdap p x query)) [
    | inr (t, rdap) ↦ inr (t, "rdap", rw (rdap, lookup) refl, inl (rdap, refl))
    | inl (e, no_rdap) ↦ elim (Result-cases (lookup_whois p x query)) [
      | inr (t, whois) ↦
          inr (t, "whois", rw (no_rdap, whois, lookup) refl, inr (e, no_rdap, whois, refl))
      | inl (w, no_whois) ↦ inl (
        "rdap and whois both failed: " <> w,
        rw (no_rdap, no_whois, lookup) refl,
        (e, w, no_rdap, no_whois, refl),
      )
    ]
  ]

  abbrev pub blank : CheckResult
  blank = record zero_result { site_name = site.name; type = check_domain; at = x.now }

  -- The result of a check that knows the expiry time, and of one that does not.
  abbrev pub known : Time → CheckResult
  known t = record zero_result {
    site_name = site.name;
    type = check_domain;
    at = x.now;
    status = status_up;
    domain_expiry = t;
    days_until_domain_expiry = days_left (sub_time t x.until);
    domain_lookup_ok = true;
  }

  abbrev pub not_known : String → String → CheckResult
  not_known status e = record zero_result {
    site_name = site.name;
    type = check_domain;
    at = x.now;
    status = status;
    domain_lookup_ok = false;
    error = e;
  }

  -- What a lookup leaves in the cache.
  abbrev pub found_cache : Time → String → DomainCache
  found_cache t source = record {
    site_name = site.name;
    expires_at = t;
    last_lookup_at = x.now;
    last_ok_at = x.now;
    source = source;
    error = "";
  }

  abbrev pub failed_cache : DomainCache → String → DomainCache
  failed_cache dc e = record {
    site_name = site.name;
    expires_at = dc.expires_at;
    last_lookup_at = x.now;
    last_ok_at = dc.last_ok_at;
    source = dc.source;
    error = e;
  }

  -- The cached expiry time can be used: it is known, and of a lookup less than 6 hours ago.
  abbrev pub IsUsable : Option DomainCache → Type 0
  IsUsable entry =
      (dc : DomainCache) × (entry ≡ some dc)
      × (x.now <ℤ dc.last_lookup_at +ℤ cache_ttl)
      × (dc.expires_at ≢ zero_time)
