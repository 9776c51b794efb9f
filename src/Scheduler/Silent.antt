-- ===== src/Scheduler/Silent.antt =====
-- An expiry alert that a search finds in the log is not sent again, whatever the store is.
use domainturva.Prelude.{
  ℤ, ◌-ℤ◌, String, ◌==◌, ◌≡◌, refl, ap, ◌∙◌, true, List, [], any, map, inl, inr, Dict, Result-cases,
  OnOk, OnOk-eq,
}
use domainturva.Time.{Time, TimeFormat, days}
use domainturva.Storage.{Storage}
use domainturva.Notifier.{type_ssl_expiring, type_domain_expiring}
use domainturva.Notifier.Backend.{Backend}
use domainturva.Checker.{CheckResult, check_http, check_ssl, check_domain}
use domainturva.Config.{Routing}
use domainturva.Alerting.{process, alerts_for_dispatch}
use domainturva.Alerting.Http.{AlertWithMeta, Outcome}
use domainturva.Alerting.Expiry.{Engine, is_duplicate, decide_ssl, decide_domain}
use domainturva.Alerting.Expiry.Ssl.{is_zero_time-false, eqb_ℤ-false}
use domainturva.Scheduler.{process_result, dispatch_all}
use domainturva.Scheduler.Raised.{process_result_lem}
use domainturva.Scheduler.Flaps.{project}
use domainturva.Scheduler.Settle.{settle_err}
use domainturva.Scheduler.Once.{IsSslWarning, IsDomainWarning}

module _ (fmt : TimeFormat) {S : Type 0} (store : Storage S) (e : Engine) (r : CheckResult)
    (threshold : ℤ) (now : Time) (s : S) where
  -- A search that succeeds finds the alert.
  abbrev pub IsSeen : String → Time → String → Type 0
  IsSeen type since key =
      OnOk (λ found. any (is_duplicate threshold key) found ≡ true)
        (store.find_recent_alerts r.site_name type since s)

  abbrev IsNil : List AlertWithMeta → Type 0
  IsNil alerts = alerts ≡ []

  decide_ssl-IsNil :
      IsSslWarning e r threshold
      → IsSeen type_ssl_expiring (now -ℤ days 90) r.cert_serial
      → OnOk IsNil (decide_ssl fmt store e s r now)
  unfolding decide_ssl
  decide_ssl-IsNil (t, trusted, dated, band, crossed) seen =
      elim (Result-cases
        (store.find_recent_alerts r.site_name type_ssl_expiring (now -ℤ days 90) s)) [
          | inl (message, failed) ↦
              rw (trusted, is_zero_time-false _ dated, band, eqb_ℤ-false _ _ crossed, failed) tt
          | inr (found, searched) ↦
              let dup =
                OnOk-eq (λ found. any (is_duplicate threshold r.cert_serial) found ≡ true) _ seen
                  searched in
              rw (trusted, is_zero_time-false _ dated, band, eqb_ℤ-false _ _ crossed, searched, dup)
                refl
        ]

  decide_domain-IsNil :
      IsDomainWarning e r threshold
      → IsSeen type_domain_expiring (now -ℤ days 365) (fmt.rfc3339_utc r.domain_expiry)
      → OnOk IsNil (decide_domain fmt store e s r now)
  unfolding decide_domain
  decide_domain-IsNil (t, looked_up, dated, band, crossed) seen =
      elim (Result-cases
        (store.find_recent_alerts r.site_name type_domain_expiring (now -ℤ days 365) s)) [
          | inl (message, failed) ↦
              rw (looked_up, is_zero_time-false _ dated, band, eqb_ℤ-false _ _ crossed, failed) tt
          | inr (found, searched) ↦
              let dup =
                OnOk-eq
                  (λ found.
                    any (is_duplicate threshold (fmt.rfc3339_utc r.domain_expiry)) found ≡ true)
                  _ seen searched in
              rw
                (
                  looked_up,
                  is_zero_time-false _ dated,
                  band,
                  eqb_ℤ-false _ _ crossed,
                  searched,
                  dup,
                )
                refl
        ]

  abbrev HasNone : Outcome → Type 0
  HasNone o = o.alerts ≡ []

  process_ssl-HasNone :
      r.type ≡ check_ssl
      → OnOk IsNil (decide_ssl fmt store e s r now)
      → OnOk HasNone (process fmt store e s r now)
  unfolding process
  process_ssl-HasNone t h =
      let http = ap (λ x. x == check_http) t in
      let ssl = ap (λ x. x == check_ssl) t in
      elim (Result-cases (store.get_site_state r.site_name s)) [
        | inl (message, unread) ↦ rw unread tt
        | inr (got, read) ↦ elim (Result-cases (decide_ssl fmt store e s r now)) [
          | inl (message, d) ↦ rw (read, t, d) tt
          | inr (alerts, d) ↦ rw (read, t, d) (OnOk-eq IsNil _ h d)
        ]
      ]

  process_domain-HasNone :
      r.type ≡ check_domain
      → OnOk IsNil (decide_domain fmt store e s r now)
      → OnOk HasNone (process fmt store e s r now)
  unfolding process
  process_domain-HasNone t h = elim (Result-cases (store.get_site_state r.site_name s)) [
    | inl (message, unread) ↦ rw unread tt
    | inr (got, read) ↦ elim (Result-cases (decide_domain fmt store e s r now)) [
      | inl (message, d) ↦ rw (read, t, d) tt
      | inr (alerts, d) ↦ rw (read, t, d) (OnOk-eq IsNil _ h d)
    ]
  ]

  module _ (routing : Routing) (notifiers : Dict Backend) where
    silent :
        OnOk HasNone (process fmt store e s r now)
        → (process_result fmt store e routing notifiers r now s).1 ≡ []
    unfolding process_result dispatch_all alerts_for_dispatch
    silent h = elim (Result-cases (process fmt store e s r now)) [
      | inl (message, p) ↦
          ap (λ q. dispatch_all routing notifiers q.1) (settle_err fmt store e r now s p)
      | inr (o, p) ↦
          ap (λ q. q.1) (process_result_lem fmt store e routing notifiers r now s p)
          ∙ ap (λ alerts. dispatch_all routing notifiers (map project alerts))
              (OnOk-eq HasNone _ h p)
    ]

    pub ssl_silent :
        IsSslWarning e r threshold
        → IsSeen type_ssl_expiring (now -ℤ days 90) r.cert_serial
        → (process_result fmt store e routing notifiers r now s).1 ≡ []
    ssl_silent w seen = silent (process_ssl-HasNone w.0 (decide_ssl-IsNil w seen))

    pub domain_silent :
        IsDomainWarning e r threshold
        → IsSeen type_domain_expiring (now -ℤ days 365) (fmt.rfc3339_utc r.domain_expiry)
        → (process_result fmt store e routing notifiers r now s).1 ≡ []
    domain_silent w seen = silent (process_domain-HasNone w.0 (decide_domain-IsNil w seen))
