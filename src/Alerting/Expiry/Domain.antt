-- ===== src/Alerting/Expiry/Domain.antt =====
-- `decideDomain`: which alert it raises, and what keeps it from it.
use domainturva.Prelude.{
  pos, ◌+ℤ◌, ◌-ℤ◌, ◌<ℤ◌, ltb_ℤ, leb_ℤ, ◌≡◌, ◌≢◌, ◌⊎◌, inl, inr, Bool, true, false, ◌||◌, [], ok,
  arith, Bool-cases,
}
use domainturva.Time.{Time, TimeFormat, zero_time, is_zero_time, days, sub_time, sub_time-gt}
use domainturva.Storage.{DomainCache, Storage}
use domainturva.Storage.Memory.{zero_domain_cache, comma_ok}
use domainturva.Storage.Lawful.{Lawful}
use domainturva.Notifier.{type_domain_expiring, type_degraded_monitor}
use domainturva.Checker.{CheckResult}
use domainturva.Alerting.Band.{current_threshold_band}
use domainturva.Alerting.Expiry.{
  Engine, degraded_alert, domain_expiring_alert, decide_degraded, decide_domain,
}
use domainturva.Alerting.Expiry.Search.{
  IsRecent, IsSent, false_of_not, true_of_not, search_empty, search-IsSent,
}
use domainturva.Alerting.Expiry.Ssl.{RaisedUnless, is_zero_time-false, eqb_ℤ-false}

-- The last good lookup is known, and more than three days ago.
abbrev pub IsDegraded : DomainCache → Time → Type 0
IsDegraded dc now = (dc.last_ok_at ≢ zero_time) × (dc.last_ok_at +ℤ days 3 <ℤ now)

-- The test of the source, as a Boolean.
abbrev is_fine : DomainCache → Time → Bool
is_fine dc now = is_zero_time dc.last_ok_at || leb_ℤ (sub_time now dc.last_ok_at) (days 3)

zero_time-ne : (t : Time) → is_zero_time t ≡ false → t ≢ zero_time
zero_time-ne t h = ground arith

is_fine-false : (dc : DomainCache) (now : Time) → IsDegraded dc now → is_fine dc now ≡ false
is_fine-false dc now (known, long_ago) =
    let late = (sub_time-gt now dc.last_ok_at 259_200_000_000_000 (omega arith)).1 long_ago in
    rw (is_zero_time-false _ known) (ground arith)

is_fine-IsDegraded : (dc : DomainCache) (now : Time) → is_fine dc now ≡ false → IsDegraded dc now
is_fine-IsDegraded dc now h =
    let late : ltb_ℤ (days 3) (sub_time now dc.last_ok_at) ≡ true = ground arith in
    (
      zero_time-ne dc.last_ok_at (ground arith),
      (sub_time-gt now dc.last_ok_at 259_200_000_000_000 (omega arith)).0 late,
    )

IsDegraded-cases :
    (dc : DomainCache) (now : Time)
    → (IsDegraded dc now × (is_fine dc now ≡ false))
      ⊎ ((¬ IsDegraded dc now) × (is_fine dc now ≡ true))
IsDegraded-cases dc now = elim (Bool-cases (is_fine dc now)) [
  | inl t ↦ inr ((λ d. cc (is_fine-false dc now d)), t)
  | inr f ↦ inl (is_fine-IsDegraded dc now f, f)
]

module _ (fmt : TimeFormat) {S : Type 0} (store : Storage S) (law : Lawful store) (e : Engine)
    (s : S) (r : CheckResult) (now : Time) where
  -- What the store holds about the lookups of the site.
  abbrev pub cache : DomainCache
  cache = (comma_ok zero_domain_cache (law.cache_of s r.site_name)).0

  -- Over a lawful store, a failed lookup is reported as degraded monitoring where the last good
  -- one is known and more than three days old, unless the log has such a report of the last 7
  -- days, sent or not; otherwise nothing is reported.
  pub decide_domain-lookup_failed :
      r.domain_lookup_ok ≡ false
      → (IsDegraded cache now
          × RaisedUnless
              (IsRecent r.site_name type_degraded_monitor (now -ℤ days 7))
              (law.log s)
              (degraded_alert fmt r cache now)
              (decide_domain fmt store e s r now))
        ⊎ ((¬ IsDegraded cache now) × (decide_domain fmt store e s r now ≡ ok []))
  unfolding decide_domain decide_degraded
  decide_domain-lookup_failed failed = elim (IsDegraded-cases cache now) [
    | inl (degraded, test) ↦
        let (found, eq, finds) =
          search_empty store law r.site_name type_degraded_monitor (now -ℤ days 7) s in
        inl (
          degraded,
          rw (failed, law.get_cache r.site_name s, test, eq)
              (elim finds [
                | inl (seen, b) ↦ inl (seen, rw (false_of_not _ b))
                | inr (none_seen, b) ↦ inr (none_seen, rw (true_of_not _ b))
              ]),
        )
    | inr (fine, test) ↦ inr (fine, rw (failed, law.get_cache r.site_name s, test))
  ]

  -- Over a lawful store, a dated registration that was looked up and has reached a warning
  -- threshold is reported unless the log has an alert for the site of the last 365 days that was
  -- sent for the same threshold and expiry time.
  pub decide_domain-expiring :
      r.domain_lookup_ok ≡ true
      → r.domain_expiry ≢ zero_time
      → let threshold = current_threshold_band r.days_until_domain_expiry e.domain_warn_days in
        threshold ≢ pos 0
        → RaisedUnless
            (IsSent r.site_name type_domain_expiring
              (now -ℤ days 365)
              threshold
              (fmt.rfc3339_utc r.domain_expiry))
            (law.log s)
            (domain_expiring_alert fmt r threshold now)
            (decide_domain fmt store e s r now)
  unfolding decide_domain
  decide_domain-expiring looked_up dated crossed =
      let threshold = current_threshold_band r.days_until_domain_expiry e.domain_warn_days in
      let (found, eq, finds) =
        search-IsSent store law r.site_name type_domain_expiring (now -ℤ days 365) s threshold
          (fmt.rfc3339_utc r.domain_expiry) in
      rw (looked_up, is_zero_time-false _ dated, eqb_ℤ-false _ _ crossed, eq)
        (elim finds [
          | inl (seen, b) ↦ inl (seen, rw b)
          | inr (none_seen, b) ↦ inr (none_seen, rw b)
        ])
