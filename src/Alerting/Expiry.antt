-- ===== src/Alerting/Expiry.antt =====
-- `decideSSL` and `decideDomain` of internal/alerting/alerting.go: the alerts that are kept from
-- repeating by the alert log.
pub mod Search
pub mod Ssl
pub mod Domain
use domainturva.Prelude.{
  ℤ, pos, ◌-ℤ◌, ltb_ℤ, leb_ℤ, eqb_ℤ, String, ◌==◌, ◌<>◌, decimal, Bool, ◌&&◌, ◌||◌, not, List, [],
  ◌∷◌, any, is_empty, Result, ok, ◌>>=◌, if◌then◌else◌,
}
use domainturva.Time.{Time, TimeFormat, is_zero_time, sub_time, days}
use domainturva.Storage.{AlertRecord, SiteState, DomainCache, Storage}
use domainturva.Notifier.{
  Value, text, int, severity_warning, severity_critical, type_ssl_expiring, type_ssl_untrusted,
  type_domain_expiring, type_degraded_monitor,
}
use domainturva.Checker.{CheckResult}
use domainturva.Alerting.Band.{current_threshold_band}
use domainturva.Alerting.Http.{AlertWithMeta}

-- The configuration of the `Engine`; its `Store` and its clock are arguments below.
pub record Engine : Type 0 where
  pub ssl_warn_days : List ℤ
  pub domain_warn_days : List ℤ

-- A record that says that this threshold was already sent for this key.
abbrev pub is_duplicate : ℤ → String → AlertRecord → Bool
is_duplicate threshold key a =
    eqb_ℤ a.threshold threshold && (a.cert_serial == key && a.status == "sent")

abbrev pub threshold_severity : ℤ → String
threshold_severity threshold =
    if leb_ℤ threshold (pos 7) then severity_critical else severity_warning

module _ (fmt : TimeFormat) where
  unfoldable pub untrusted_alert : CheckResult → Time → AlertWithMeta
  untrusted_alert r now =
      let kind : String = if r.cert_self_signed then "self-signed" else "untrusted" in
      record {
        alert = record {
          site_name = r.site_name;
          type = type_ssl_untrusted;
          severity = severity_warning;
          title = "SSL cert " <> kind;
          message = r.site_name <> " cert is " <> kind <> ".";
          details =
              ("issuer", text r.cert_issuer)
              ∷ ("not_after", text (fmt.rfc3339 r.cert_not_after))
              ∷ [];
          at = now;
        };
        threshold = pos 0;
        cert_serial = r.cert_serial;
      }

  unfoldable pub ssl_expiring_alert : CheckResult → ℤ → Time → AlertWithMeta
  ssl_expiring_alert r threshold now = record {
    alert = record {
      site_name = r.site_name;
      type = type_ssl_expiring;
      severity = threshold_severity threshold;
      title = "SSL cert expires in " <> decimal threshold <> " days";
      message =
          r.site_name
          <> " cert expires on "
          <> fmt.date r.cert_not_after
          <> " ("
          <> decimal r.days_until_cert_expiry
          <> " days).";
      details =
          ("days_left", int r.days_until_cert_expiry)
          ∷ ("not_after", text (fmt.rfc3339 r.cert_not_after))
          ∷ ("issuer", text r.cert_issuer)
          ∷ ("serial", text r.cert_serial)
          ∷ [];
      at = now;
    };
    threshold = threshold;
    cert_serial = r.cert_serial;
  }

  unfoldable pub degraded_alert : CheckResult → DomainCache → Time → AlertWithMeta
  degraded_alert r dc now = record {
    alert = record {
      site_name = r.site_name;
      type = type_degraded_monitor;
      severity = severity_warning;
      title = "Domain lookup degraded";
      message = r.site_name <> " domain lookups failing for >3 days; can't verify expiry.";
      details =
          ("last_ok_at", text (fmt.rfc3339 dc.last_ok_at)) ∷ ("last_error", text dc.error) ∷ [];
      at = now;
    };
    threshold = pos 0;
    cert_serial = "";
  }

  unfoldable pub domain_expiring_alert : CheckResult → ℤ → Time → AlertWithMeta
  domain_expiring_alert r threshold now = record {
    alert = record {
      site_name = r.site_name;
      type = type_domain_expiring;
      severity = threshold_severity threshold;
      title = "Domain expires in " <> decimal threshold <> " days";
      message =
          r.site_name
          <> " domain expires on "
          <> fmt.date r.domain_expiry
          <> " ("
          <> decimal r.days_until_domain_expiry
          <> " days).";
      details =
          ("days_left", int r.days_until_domain_expiry)
          ∷ ("expires_at", text (fmt.rfc3339 r.domain_expiry))
          ∷ [];
      at = now;
    };
    threshold = threshold;
    cert_serial = fmt.rfc3339_utc r.domain_expiry;
  }

  module _ {S : Type 0} (store : Storage S) (e : Engine) (s : S) where
    unfoldable pub decide_ssl : CheckResult → Time → Result (List AlertWithMeta)
    unfolding untrusted_alert ssl_expiring_alert current_threshold_band
    decide_ssl r now =
        if r.cert_untrusted || r.cert_self_signed
        then (do
          recent ← store.find_recent_alerts r.site_name type_ssl_untrusted (now -ℤ days 7) s
          ok (if is_empty recent then untrusted_alert r now ∷ [] else []))
        else if is_zero_time r.cert_not_after
        then ok []
        else (let threshold = current_threshold_band r.days_until_cert_expiry e.ssl_warn_days in
            if eqb_ℤ threshold (pos 0) then ok [] else do
              recent ← store.find_recent_alerts r.site_name type_ssl_expiring (now -ℤ days 90) s
              ok (
                  if any (is_duplicate threshold r.cert_serial) recent
                  then []
                  else ssl_expiring_alert r threshold now ∷ []))

    -- The branch for a failed lookup.
    unfoldable pub decide_degraded : CheckResult → Time → Result (List AlertWithMeta)
    unfolding degraded_alert sub_time
    decide_degraded r now = do
      got ← store.get_domain_cache r.site_name s
      let dc = got.0
      if is_zero_time dc.last_ok_at || leb_ℤ (sub_time now dc.last_ok_at) (days 3)
          then ok []
          else do
            recent ← store.find_recent_alerts r.site_name type_degraded_monitor (now -ℤ days 7) s
            ok (if is_empty recent then degraded_alert r dc now ∷ [] else [])

    unfoldable pub decide_domain : CheckResult → Time → Result (List AlertWithMeta)
    unfolding decide_degraded domain_expiring_alert current_threshold_band
    decide_domain r now =
        if not r.domain_lookup_ok
        then decide_degraded r now
        else if is_zero_time r.domain_expiry
        then ok []
        else (let threshold =
              current_threshold_band r.days_until_domain_expiry e.domain_warn_days in
            if eqb_ℤ threshold (pos 0) then ok [] else do
              recent ← store.find_recent_alerts r.site_name type_domain_expiring (now -ℤ days 365) s
              ok (
                  if any (is_duplicate threshold (fmt.rfc3339_utc r.domain_expiry)) recent
                  then []
                  else domain_expiring_alert r threshold now ∷ []))
