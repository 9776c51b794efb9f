-- ===== src/Scheduler/Once.antt =====
-- From a check to the next: an alert that was sent is not sent again.
use domainturva.Prelude.{
  ℤ, pos, ◌-ℤ◌, ◌≤ℤ◌, String, ◌≡◌, refl, sym, ap, subst, ◌∙◌, ◌≢◌, false, true, ◌||◌, some, List,
  [], ◌++◌, All, Any, Dict,
}
use domainturva.Time.{Time, TimeFormat, zero_time, days}
use domainturva.Storage.{AlertRecord, Storage}
use domainturva.Storage.Lawful.{Lawful}
use domainturva.Notifier.{Alert, type_ssl_expiring, type_domain_expiring}
use domainturva.Notifier.Backend.{Backend}
use domainturva.Notifier.Dispatcher.{Send, Attempts, outcome, send_one}
use domainturva.Checker.{CheckResult, check_ssl, check_domain}
use domainturva.Config.{Routing}
use domainturva.Alerting.Steps.{process-ssl, process-domain}
use domainturva.Alerting.Band.{current_threshold_band}
use domainturva.Alerting.Expiry.{
  Engine, decide_ssl, decide_domain, ssl_expiring_alert, domain_expiring_alert,
}
use domainturva.Alerting.Expiry.Search.{IsSent}
use domainturva.Alerting.Expiry.Ssl.{RaisedUnless, decide_ssl-expiring}
use domainturva.Alerting.Expiry.Domain.{decide_domain-expiring}
use domainturva.Scheduler.{process_result}
use domainturva.Scheduler.Raised.{IsFor, All-at, Any-IsSent, sends, sends-All, sends-nil}
use domainturva.Scheduler.Sends.{OfMeta, OfSend, send_one-IsSent, Any-append_left}

-- An SSL result for a trusted, dated certificate that has reached a threshold.
abbrev pub IsSslWarning : Engine → CheckResult → ℤ → Type 0
IsSslWarning e r threshold =
    (r.type ≡ check_ssl)
    × ((r.cert_untrusted || r.cert_self_signed) ≡ false)
    × (r.cert_not_after ≢ zero_time)
    × (current_threshold_band r.days_until_cert_expiry e.ssl_warn_days ≡ threshold)
    × (threshold ≢ pos 0)

-- A domain result with an expiry time that has reached a threshold.
abbrev pub IsDomainWarning : Engine → CheckResult → ℤ → Type 0
IsDomainWarning e r threshold =
    (r.type ≡ check_domain)
    × (r.domain_lookup_ok ≡ true)
    × (r.domain_expiry ≢ zero_time)
    × (current_threshold_band r.days_until_domain_expiry e.domain_warn_days ≡ threshold)
    × (threshold ≢ pos 0)

module _ (fmt : TimeFormat) {S : Type 0} (store : Storage S) (law : Lawful store) (e : Engine)
    (routing : Routing) (notifiers : Dict Backend) (payload_json : Alert → String) where
  module _ (r : CheckResult) (threshold : ℤ) (now : Time) (s : S)
      (w : IsSslWarning e r threshold) where
    abbrev IsSentSsl : AlertRecord → Type 0
    IsSentSsl = IsSent r.site_name type_ssl_expiring (now -ℤ days 90) threshold r.cert_serial

    ssl_raised :
        RaisedUnless IsSentSsl
          (law.log s)
          (ssl_expiring_alert fmt r threshold now)
          (decide_ssl fmt store e s r now)
    ssl_raised =
        let (t, trusted, dated, band, crossed) = w in
        subst
          (λ b.
            b ≢ pos 0
            → RaisedUnless (IsSent r.site_name type_ssl_expiring (now -ℤ days 90) b r.cert_serial)
                (law.log s) (ssl_expiring_alert fmt r b now) (decide_ssl fmt store e s r now))
          band (decide_ssl-expiring fmt store law e s r now trusted dated) crossed

    ssl_expiring_alert-IsFor :
        OfMeta
          (IsFor r.site_name type_ssl_expiring threshold r.cert_serial)
          (ssl_expiring_alert fmt r threshold now)
    unfolding ssl_expiring_alert
    ssl_expiring_alert-IsFor = (refl, refl, refl, refl)

    ssl_sends :
        All
          (OfSend (IsFor r.site_name type_ssl_expiring threshold r.cert_serial))
          (sends fmt store law e routing notifiers r now s)
    ssl_sends =
        sends-All fmt store law e routing notifiers r now s _ IsSentSsl _ _ ssl_raised
          (λ alerts d. process-ssl fmt store law e s r now w.0 d) _ ssl_expiring_alert-IsFor

    ssl_silent : Any IsSentSsl (law.log s) → sends fmt store law e routing notifiers r now s ≡ []
    ssl_silent =
        sends-nil fmt store law e routing notifiers r now s _ IsSentSsl _ _ ssl_raised
          (λ alerts d. process-ssl fmt store law e s r now w.0 d)

  -- Over a lawful store, once a goroutine that an SSL result started has sent its expiry alert, a
  -- later result for the same site, threshold and serial number starts no goroutine if the alert
  -- was sent at most 90 days before it, whatever else was written to the log after it.
  pub ssl_sent_once :
      (r r' : CheckResult) (threshold : ℤ) (now now' t : Time) (s s₁ s₂ : S) (x : Send)
      (env : Attempts) (more : List AlertRecord)
      → IsSslWarning e r threshold
      → Any (λ y. y ≡ x) (sends fmt store law e routing notifiers r now s)
      → (outcome env).0 ≡ "sent"
      → law.log s₂ ≡ law.log (send_one payload_json (some store) env x t s₁) ++ more
      → IsSslWarning e r' threshold
      → r'.site_name ≡ r.site_name
      → r'.cert_serial ≡ r.cert_serial
      → now' -ℤ days 90 ≤ℤ t
      → (process_result fmt store e routing notifiers r' now' s₂).1 ≡ []
  ssl_sent_once r r' threshold now now' t s s₁ s₂ x env more w started sent later w' site key
        recent =
      let (site_x, type_x, threshold_x, key_x) =
        All-at _ (sends fmt store law e routing notifiers r now s) x (ssl_sends r threshold now s w)
          started in
      let recorded =
        send_one-IsSent store law payload_json env x (now' -ℤ days 90) t s₁ sent recent in
      ssl_silent r' threshold now' s₂ w' (
        rw later (
          Any-append_left _ _ more (
            Any-IsSent (now' -ℤ days 90) (site_x ∙ sym site) type_x threshold_x (key_x ∙ sym key) _
              recorded)))

  module _ (r : CheckResult) (threshold : ℤ) (now : Time) (s : S)
      (w : IsDomainWarning e r threshold) where
    abbrev IsSentDomain : AlertRecord → Type 0
    IsSentDomain =
        IsSent r.site_name type_domain_expiring (now -ℤ days 365) threshold
          (fmt.rfc3339_utc r.domain_expiry)

    domain_raised :
        RaisedUnless IsSentDomain
          (law.log s)
          (domain_expiring_alert fmt r threshold now)
          (decide_domain fmt store e s r now)
    domain_raised =
        let (t, looked_up, dated, band, crossed) = w in
        subst
          (λ b.
            b ≢ pos 0
            → RaisedUnless
                (IsSent r.site_name type_domain_expiring (now -ℤ days 365) b
                  (fmt.rfc3339_utc r.domain_expiry))
                (law.log s) (domain_expiring_alert fmt r b now) (decide_domain fmt store e s r now))
          band (decide_domain-expiring fmt store law e s r now looked_up dated) crossed

    domain_expiring_alert-IsFor :
        OfMeta
          (IsFor r.site_name type_domain_expiring threshold (fmt.rfc3339_utc r.domain_expiry))
          (domain_expiring_alert fmt r threshold now)
    unfolding domain_expiring_alert
    domain_expiring_alert-IsFor = (refl, refl, refl, refl)

    domain_sends :
        All
          (OfSend
            (IsFor r.site_name type_domain_expiring threshold (fmt.rfc3339_utc r.domain_expiry)))
          (sends fmt store law e routing notifiers r now s)
    domain_sends =
        sends-All fmt store law e routing notifiers r now s _ IsSentDomain _ _ domain_raised
          (λ alerts d. process-domain fmt store law e s r now w.0 d) _ domain_expiring_alert-IsFor

    domain_silent :
        Any IsSentDomain (law.log s) → sends fmt store law e routing notifiers r now s ≡ []
    domain_silent =
        sends-nil fmt store law e routing notifiers r now s _ IsSentDomain _ _ domain_raised
          (λ alerts d. process-domain fmt store law e s r now w.0 d)

  -- Over a lawful store, once a goroutine that a domain result started has sent its expiry alert,
  -- a later result for the same site, threshold and expiry time starts no goroutine if the alert
  -- was sent at most 365 days before it, whatever else was written to the log after it.
  pub domain_sent_once :
      (r r' : CheckResult) (threshold : ℤ) (now now' t : Time) (s s₁ s₂ : S) (x : Send)
      (env : Attempts) (more : List AlertRecord)
      → IsDomainWarning e r threshold
      → Any (λ y. y ≡ x) (sends fmt store law e routing notifiers r now s)
      → (outcome env).0 ≡ "sent"
      → law.log s₂ ≡ law.log (send_one payload_json (some store) env x t s₁) ++ more
      → IsDomainWarning e r' threshold
      → r'.site_name ≡ r.site_name
      → r'.domain_expiry ≡ r.domain_expiry
      → now' -ℤ days 365 ≤ℤ t
      → (process_result fmt store e routing notifiers r' now' s₂).1 ≡ []
  domain_sent_once r r' threshold now now' t s s₁ s₂ x env more w started sent later w' site key
        recent =
      let (site_x, type_x, threshold_x, key_x) =
        All-at _ (sends fmt store law e routing notifiers r now s) x
          (domain_sends r threshold now s w) started in
      let recorded =
        send_one-IsSent store law payload_json env x (now' -ℤ days 365) t s₁ sent recent in
      domain_silent r' threshold now' s₂ w' (
        rw later (
          Any-append_left _ _ more (
            Any-IsSent (now' -ℤ days 365) (site_x ∙ sym site) type_x threshold_x
              (key_x ∙ ap fmt.rfc3339_utc (sym key)) _ recorded)))
