-- ===== src/Alerting/Quiet.antt =====
-- Whatever the store answers, the SSL and domain decisions never speak of a site being up or down.
use domainturva.Prelude.{
  ℕ, ℤ, pos, ◌-ℤ◌, eqb_ℤ, leb_ℤ, inl, inr, Bool-cases, any, is_empty, String, ◌==◌, ◌≡◌, refl, Bool,
  true, false, ◌||◌, List, [], ◌∷◌, All, Result, ok, err, ◌>>=◌, OnOk, if◌then◌else◌,
}
use domainturva.Time.{Time, TimeFormat, is_zero_time, sub_time, days}
use domainturva.Alerting.Band.{current_threshold_band}
use domainturva.Storage.{AlertRecord, DomainCache, Storage}
use domainturva.Notifier.{
  type_down, type_recovered, type_ssl_expiring, type_ssl_untrusted, type_domain_expiring,
  type_degraded_monitor,
}
use domainturva.Checker.{CheckResult}
use domainturva.Alerting.Http.{AlertWithMeta}
use domainturva.Alerting.Expiry.{
  Engine, decide_ssl, decide_degraded, decide_domain, untrusted_alert, ssl_expiring_alert,
  degraded_alert, domain_expiring_alert, is_duplicate,
}

abbrev pub is_flap_type : String → Bool
is_flap_type type = type == type_down || type == type_recovered

abbrev pub IsQuiet : AlertWithMeta → Type 0
IsQuiet a = is_flap_type a.alert.type ≡ false

module _ (fmt : TimeFormat) (r : CheckResult) (now : Time) where
  untrusted_alert-IsQuiet : IsQuiet (untrusted_alert fmt r now)
  unfolding untrusted_alert
  untrusted_alert-IsQuiet = refl

  ssl_expiring_alert-IsQuiet : (t : ℤ) → IsQuiet (ssl_expiring_alert fmt r t now)
  unfolding ssl_expiring_alert
  ssl_expiring_alert-IsQuiet t = refl

  domain_expiring_alert-IsQuiet : (t : ℤ) → IsQuiet (domain_expiring_alert fmt r t now)
  unfolding domain_expiring_alert
  domain_expiring_alert-IsQuiet t = refl

  degraded_alert-IsQuiet : (dc : DomainCache) → IsQuiet (degraded_alert fmt r dc now)
  unfolding degraded_alert
  degraded_alert-IsQuiet dc = refl

abbrev pub IsQuietly : Result (List AlertWithMeta) → Type 0
IsQuietly = OnOk (All IsQuiet)

-- An alert that is raised unless a search has found something.
raised_or_not : (b : Bool) (a : AlertWithMeta) → IsQuiet a → All IsQuiet (if b then a ∷ [] else [])
raised_or_not true a q = (q, tt)
raised_or_not false a q = tt

not_or_raised : (b : Bool) (a : AlertWithMeta) → IsQuiet a → All IsQuiet (if b then [] else a ∷ [])
not_or_raised true a q = tt
not_or_raised false a q = (q, tt)

-- A search, and an alert that depends on what it finds.
raised_if-IsQuietly :
    (m : Result (List AlertRecord)) (p : List AlertRecord → Bool) (a : AlertWithMeta)
    → IsQuiet a
    → IsQuietly (m >>= λ found. ok (if p found then a ∷ [] else []))
raised_if-IsQuietly (err message) p a q = tt
raised_if-IsQuietly (ok found) p a q = raised_or_not (p found) a q

raised_unless-IsQuietly :
    (m : Result (List AlertRecord)) (p : List AlertRecord → Bool) (a : AlertWithMeta)
    → IsQuiet a
    → IsQuietly (m >>= λ found. ok (if p found then [] else a ∷ []))
raised_unless-IsQuietly (err message) p a q = tt
raised_unless-IsQuietly (ok found) p a q = not_or_raised (p found) a q

module _ (fmt : TimeFormat) {S : Type 0} (store : Storage S) (e : Engine) (s : S) (r : CheckResult)
    (now : Time) where
  abbrev search : String → ℕ → Result (List AlertRecord)
  search type n = store.find_recent_alerts r.site_name type (now -ℤ days n) s

  pub decide_ssl-IsQuietly : IsQuietly (decide_ssl fmt store e s r now)
  unfolding decide_ssl
  decide_ssl-IsQuietly =
      let band = current_threshold_band r.days_until_cert_expiry e.ssl_warn_days in
      elim (Bool-cases (r.cert_untrusted || r.cert_self_signed)) [
        | inl untrusted ↦ rw untrusted (
            raised_if-IsQuietly (search type_ssl_untrusted 7) is_empty (untrusted_alert fmt r now)
              (untrusted_alert-IsQuiet fmt r now))
        | inr trusted ↦ elim (Bool-cases (is_zero_time r.cert_not_after)) [
          | inl undated ↦ rw (trusted, undated) tt
          | inr dated ↦ elim (Bool-cases (eqb_ℤ band (pos 0))) [
            | inl uncrossed ↦ rw (trusted, dated, uncrossed) tt
            | inr crossed ↦
                rw (trusted, dated, crossed)
                  (raised_unless-IsQuietly (search type_ssl_expiring 90)
                    (any (is_duplicate band r.cert_serial)) (ssl_expiring_alert fmt r band now)
                    (ssl_expiring_alert-IsQuiet fmt r now band))
          ]
        ]
      ]

  degraded_from : Result (DomainCache × Bool) → Result (List AlertWithMeta)
  unfolding sub_time
  degraded_from m = do
    got ← m
    let dc = got.0
    if is_zero_time dc.last_ok_at || leb_ℤ (sub_time now dc.last_ok_at) (days 3) then ok [] else do
      recent ← search type_degraded_monitor 7
      ok (if is_empty recent then degraded_alert fmt r dc now ∷ [] else [])

  degraded_from-IsQuietly : (m : Result (DomainCache × Bool)) → IsQuietly (degraded_from m)
  unfolding degraded_from
  degraded_from-IsQuietly (err message) = tt
  degraded_from-IsQuietly (ok (dc, known)) =
      elim (Bool-cases
        (is_zero_time dc.last_ok_at || leb_ℤ (sub_time now dc.last_ok_at) (days 3))) [
          | inl recent ↦ rw recent tt
          | inr old ↦ rw old (
              raised_if-IsQuietly (search type_degraded_monitor 7) is_empty
                (degraded_alert fmt r dc now) (degraded_alert-IsQuiet fmt r now dc))
        ]

  decide_degraded-IsQuietly : IsQuietly (decide_degraded fmt store e s r now)
  unfolding decide_degraded degraded_from
  decide_degraded-IsQuietly = degraded_from-IsQuietly (store.get_domain_cache r.site_name s)

  pub decide_domain-IsQuietly : IsQuietly (decide_domain fmt store e s r now)
  unfolding decide_domain
  decide_domain-IsQuietly =
      let band = current_threshold_band r.days_until_domain_expiry e.domain_warn_days in
      elim (Bool-cases r.domain_lookup_ok) [
        | inr failed ↦ rw failed decide_degraded-IsQuietly
        | inl looked_up ↦ elim (Bool-cases (is_zero_time r.domain_expiry)) [
          | inl undated ↦ rw (looked_up, undated) tt
          | inr dated ↦ elim (Bool-cases (eqb_ℤ band (pos 0))) [
            | inl uncrossed ↦ rw (looked_up, dated, uncrossed) tt
            | inr crossed ↦
                rw (looked_up, dated, crossed)
                  (raised_unless-IsQuietly (search type_domain_expiring 365)
                    (any (is_duplicate band (fmt.rfc3339_utc r.domain_expiry)))
                    (domain_expiring_alert fmt r band now)
                    (domain_expiring_alert-IsQuiet fmt r now band))
          ]
        ]
      ]
