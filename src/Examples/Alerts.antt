-- ===== src/Examples/Alerts.antt =====
-- internal/alerting at work.
use domainturva.Prelude.{
  ℕ, suc, pos, negsuc, ◌≡◌, ◌≢◌, refl, ◌⊎◌, true, false, ok, [], ◌∷◌, All, arith, ◌-ℤ◌, ◌+ℤ◌, ◌≤ℤ◌,
  max_int64,
}
use domainturva.Time.{zero_time, days, seconds}
use domainturva.Storage.{SiteState, DomainCache}
use domainturva.Storage.Memory.{Memory, new_memory, memory, upsert_domain_cache}
use domainturva.Storage.Memory.Laws.{memory-Lawful}
use domainturva.Notifier.{
  type_ssl_untrusted, type_ssl_expiring, type_degraded_monitor, type_domain_expiring, type_down,
}
use domainturva.Checker.{CheckResult, status_up, status_down}
use domainturva.Alerting.Band.{current_threshold_band}
use domainturva.Alerting.Band.Laws.{IsBand, current_threshold_band-IsBand}
use domainturva.Alerting.Duration.{format_duration}
use domainturva.Alerting.Duration.Laws.{IsNearest, IsPrintedAs, format_duration-IsPrintedAs}
use domainturva.Alerting.Http.{decide_http}
use domainturva.Alerting.Http.Machine.{Phase, phase_of, types_of, decide_http-observe}
use domainturva.Alerting.Http.Fields.{
  Advances, IsFlapAlert, decide_http-Advances, decide_http_alerts-IsFlapAlert,
}
use domainturva.Alerting.Expiry.{
  untrusted_alert, ssl_expiring_alert, degraded_alert, domain_expiring_alert, decide_ssl,
  decide_domain,
}
use domainturva.Alerting.Expiry.Search.{IsRecent, IsSent}
use domainturva.Alerting.Expiry.Ssl.{RaisedUnless, decide_ssl-untrusted, decide_ssl-expiring}
use domainturva.Alerting.Expiry.Domain.{
  IsDegraded, cache, decide_domain-lookup_failed, decide_domain-expiring,
}
use domainturva.Examples.Values.{format, engine, noon, down_result, ssl_result, domain_result}

abbrev up_state : SiteState
up_state = record {
  site_name = "a";
  status = status_up;
  last_check_at = days 999;
  last_status_change_at = days 900;
  consecutive_failures = pos 0;
  last_error = "";
}

band_tests :
    (current_threshold_band (pos 31) engine.ssl_warn_days ≡ pos 0)
    × (current_threshold_band (pos 30) engine.ssl_warn_days ≡ pos 30)
    × (current_threshold_band (pos 15) engine.ssl_warn_days ≡ pos 30)
    × (current_threshold_band (pos 7) engine.ssl_warn_days ≡ pos 7)
    × (current_threshold_band (negsuc 2) engine.ssl_warn_days ≡ pos 1)
unfolding current_threshold_band
band_tests = (refl, refl, refl, refl, refl)

duration_tests :
    (format_duration (seconds 45) ≡ "45s")
    × (format_duration (seconds 192) ≡ "3m12s")
    × (format_duration (seconds 7500) ≡ "2h5m")
    × (format_duration (seconds 180000) ≡ "2d2h")
unfolding format_duration
duration_tests = (refl, refl, refl, refl)

down_tests : (decide_http up_state down_result noon).0.status ≡ status_down
unfolding decide_http
down_tests = refl

current_threshold_band-IsBand_example :
    IsBand (pos 10) engine.ssl_warn_days (current_threshold_band (pos 10) engine.ssl_warn_days)
current_threshold_band-IsBand_example = current_threshold_band-IsBand (pos 10) engine.ssl_warn_days

fits : pos 192_600_000_000 +ℤ seconds 1 ≤ℤ max_int64
unfolding ◌+ℤ◌
fits = omega arith

format_duration-IsPrintedAs_example :
    (r : ℕ) × IsNearest 192_600_000_000 r × IsPrintedAs r (format_duration (pos 192_600_000_000))
format_duration-IsPrintedAs_example = format_duration-IsPrintedAs 192_600_000_000 fits

decide_http-observe_example :
    let (ns, alerts) = decide_http up_state down_result noon in
    (phase_of ns.status ≡ Phase.down) × (types_of alerts ≡ type_down ∷ [])
decide_http-observe_example = decide_http-observe up_state down_result noon

decide_http-Advances_example :
    Advances up_state down_result noon (decide_http up_state down_result noon).0
decide_http-Advances_example = decide_http-Advances up_state down_result noon

decide_http_alerts-IsFlapAlert_example :
    All (IsFlapAlert down_result noon) (decide_http up_state down_result noon).1
decide_http_alerts-IsFlapAlert_example = decide_http_alerts-IsFlapAlert up_state down_result noon

abbrev untrusted_result : CheckResult
untrusted_result = record ssl_result { cert_untrusted = true }

decide_ssl-untrusted_example :
    RaisedUnless
      (IsRecent "a" type_ssl_untrusted (noon -ℤ days 7))
      []
      (untrusted_alert format untrusted_result noon)
      (decide_ssl format memory engine new_memory untrusted_result noon)
unfolding memory-Lawful new_memory
decide_ssl-untrusted_example =
    decide_ssl-untrusted format memory memory-Lawful engine new_memory untrusted_result noon refl

ssl_band : current_threshold_band (pos 10) engine.ssl_warn_days ≢ pos 0
unfolding current_threshold_band
ssl_band h = ground arith

dated : (n : ℕ) → days (suc n) ≢ zero_time
dated n h = ground arith

decide_ssl-expiring_example :
    RaisedUnless
      (IsSent "a" type_ssl_expiring
        (noon -ℤ days 90)
        (current_threshold_band (pos 10) engine.ssl_warn_days)
        "01")
      []
      (ssl_expiring_alert format ssl_result
        (current_threshold_band (pos 10) engine.ssl_warn_days)
        noon)
      (decide_ssl format memory engine new_memory ssl_result noon)
unfolding memory-Lawful new_memory
decide_ssl-expiring_example =
    decide_ssl-expiring format memory memory-Lawful engine new_memory ssl_result noon refl
      (dated 1009) ssl_band

abbrev failed_result : CheckResult
failed_result = record domain_result { domain_lookup_ok = false }

abbrev degraded_cache : DomainCache
degraded_cache = record {
  site_name = "a";
  expires_at = days 1050;
  last_lookup_at = days 999;
  last_ok_at = days 990;
  source = "rdap";
  error = "timeout";
}

abbrev degraded_memory : Memory
degraded_memory = (upsert_domain_cache degraded_cache new_memory).0

decide_domain-lookup_failed_example :
    (IsDegraded (cache format memory memory-Lawful engine degraded_memory failed_result noon) noon
      × RaisedUnless
          (IsRecent "a" type_degraded_monitor (noon -ℤ days 7))
          (memory-Lawful.log degraded_memory)
          (degraded_alert format failed_result
            (cache format memory memory-Lawful engine degraded_memory failed_result noon)
            noon)
          (decide_domain format memory engine degraded_memory failed_result noon))
    ⊎ ((¬ IsDegraded
          (cache format memory memory-Lawful engine degraded_memory failed_result noon)
          noon)
        × (decide_domain format memory engine degraded_memory failed_result noon ≡ ok []))
decide_domain-lookup_failed_example =
    decide_domain-lookup_failed format memory memory-Lawful engine degraded_memory failed_result
      noon refl

domain_band : current_threshold_band (pos 50) engine.domain_warn_days ≢ pos 0
unfolding current_threshold_band
domain_band h = ground arith

decide_domain-expiring_example :
    RaisedUnless
      (IsSent "a" type_domain_expiring
        (noon -ℤ days 365)
        (current_threshold_band (pos 50) engine.domain_warn_days)
        (format.rfc3339_utc domain_result.domain_expiry))
      []
      (domain_expiring_alert format domain_result
        (current_threshold_band (pos 50) engine.domain_warn_days)
        noon)
      (decide_domain format memory engine new_memory domain_result noon)
unfolding memory-Lawful new_memory
decide_domain-expiring_example =
    decide_domain-expiring format memory memory-Lawful engine new_memory domain_result noon refl
      (dated 1049) domain_band
