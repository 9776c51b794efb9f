-- ===== src/Checker/Domain/Degraded.antt =====
-- From a failed lookup of the domain checker to the alert of the engine.
use domainturva.Prelude.{String, Result, ap, refl, ◌-ℤ◌, ◌≡◌, sym, subst, ◌⊎◌, List, [], ok}
use domainturva.Time.{Time, TimeFormat, days}
use domainturva.Storage.{AlertRecord, DomainCache, Storage}
use domainturva.Storage.Memory.{comma_ok, zero_domain_cache}
use domainturva.Checker.{CheckResult, status_up}
use domainturva.Alerting.Http.{AlertWithMeta}
use domainturva.Storage.Lawful.{Lawful}
use domainturva.Notifier.{type_degraded_monitor}
use domainturva.Config.{Site}
use domainturva.Checker.Domain.{Lookups, Parsers, check}
use domainturva.Checker.Domain.Conditions.{not_known, failed_cache, IsAskedFor, IsUsable, IsUnknown}
use domainturva.Checker.Domain.Laws.{cached, put_cached, check_unknown}
use domainturva.Alerting.Expiry.{Engine, degraded_alert, decide_domain}
use domainturva.Alerting.Expiry.Search.{IsRecent}
use domainturva.Alerting.Expiry.Ssl.{RaisedUnless}
use domainturva.Alerting.Expiry.Domain.{IsDegraded, decide_domain-lookup_failed}

-- What the engine makes of a failed lookup `r`, where `c` is in the cache under `n`.
abbrev Decides :
    TimeFormat
    → CheckResult
    → Time
    → Result (List AlertWithMeta)
    → String
    → DomainCache
    → List AlertRecord
    → Type 0
Decides fmt r now decision n c log =
    (IsDegraded c now
      × RaisedUnless (IsRecent n type_degraded_monitor (now -ℤ days 7)) log
          (degraded_alert fmt r c now) decision)
    ⊎ ((¬ IsDegraded c now) × (decision ≡ ok []))

module _ (fmt : TimeFormat) (p : Parsers) {S : Type 0} (store : Storage S) (law : Lawful store)
    (engine : Engine) (site : Site) (x : Lookups) (s : S) (now : Time) where
  abbrev before : DomainCache
  before = cached p site x store law s

  -- What the check returned and left, and what is decided from that.
  abbrev Decided : String → CheckResult × S → Type 0
  Decided e (r, after) =
      Decides fmt (not_known p site x status_up e) now (decide_domain fmt store engine after r now)
        site.name (failed_cache p site x before e) (law.log s)

  Decided-failed :
      (e : String)
      → Decided e (
        not_known p site x status_up e,
        (store.upsert_domain_cache (failed_cache p site x before e) s).0,
      )
  Decided-failed e =
      let r = not_known p site x status_up e in
      let dc = failed_cache p site x before e in
      let after = (store.upsert_domain_cache dc s).0 in
      let decision = decide_domain fmt store engine after r now in
      let put =
        ap (λ o. (comma_ok zero_domain_cache o).0) (put_cached p site x store law s dc refl) in
      subst (λ log. Decides fmt r now decision site.name dc log) (law.put_cache_log dc s)
        (subst (λ c. Decides fmt r now decision site.name c (law.log after)) put
          (decide_domain-lookup_failed fmt store law engine after r now refl))

  -- Over a lawful store, where the address of a site names a host, the cache has no expiry time
  -- that can still be used, and RDAP and WHOIS both fail, the domain check is reported as degraded
  -- monitoring, with its error and the time of the check, where the last good lookup that was
  -- stored before it is known and more than three days old, unless the log had such a report for
  -- the site of the last 7 days, sent or not; otherwise nothing is reported.
  pub check-IsDegraded :
      (query e : String)
      → IsAskedFor p site x query
      → (¬ IsUsable p site x (law.cache_of s site.name))
      → IsUnknown p site x query e
      → let (r, after) = check p store site x s in
        (IsDegraded before now
          × RaisedUnless
              (IsRecent site.name type_degraded_monitor (now -ℤ days 7))
              (law.log s)
              (degraded_alert fmt
                (not_known p site x status_up e)
                (failed_cache p site x before e)
                now)
              (decide_domain fmt store engine after r now))
        ⊎ ((¬ IsDegraded before now) × (decide_domain fmt store engine after r now ≡ ok []))
  check-IsDegraded query e asked stale unknown =
      subst (Decided e) (sym (check_unknown p site x store law s query e asked stale unknown))
        (Decided-failed e)
