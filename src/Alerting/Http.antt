-- ===== src/Alerting/Http.antt =====
-- The up/down state machine, `decideHTTP` of internal/alerting/alerting.go, and the types of its
-- results.
pub mod Machine
pub mod Fields
use domainturva.Prelude.{
  ℤ, pos, ◌+ℤ◌, wrap64, String, ◌==◌, ◌<>◌, decimal, ◌||◌, not, List, [], ◌∷◌, if◌then◌else◌,
}
use domainturva.Time.{Time, Duration, sub_time}
use domainturva.Storage.{SiteState}
use domainturva.Notifier.{
  Alert, Value, text, int, severity_info, severity_critical, type_down, type_recovered,
}
use domainturva.Checker.{CheckResult, status_up, status_down, status_unknown}
use domainturva.Alerting.Duration.{format_duration}

pub record AlertWithMeta : Type 0 where
  pub alert : Alert
  pub threshold : ℤ
  pub cert_serial : String

pub record Outcome : Type 0 where
  pub new_state : SiteState
  pub alerts : List AlertWithMeta

unfoldable pub recovered_alert : SiteState → CheckResult → Time → AlertWithMeta
unfolding sub_time format_duration
recovered_alert prev r now =
    let downtime = sub_time now prev.last_status_change_at in
    record {
      alert = record {
        site_name = r.site_name;
        type = type_recovered;
        severity = severity_info;
        title = "Recovered";
        message = r.site_name <> " is back up after " <> format_duration downtime <> ".";
        details =
            ("downtime", text (format_duration downtime))
            ∷ ("status_code", int r.status_code)
            ∷ ("response_ms", int r.response_ms)
            ∷ [];
        at = now;
      };
      threshold = pos 0;
      cert_serial = "";
    }

unfoldable pub down_alert : CheckResult → ℤ → Time → AlertWithMeta
down_alert r consecutive_failures now = record {
  alert = record {
    site_name = r.site_name;
    type = type_down;
    severity = severity_critical;
    title = "DOWN";
    message = r.site_name <> " is down: " <> r.error;
    details =
        ("error", text r.error)
        ∷ ("status_code", int r.status_code)
        ∷ ("consec_fails", int consecutive_failures)
        ∷ [];
    at = now;
  };
  threshold = pos 0;
  cert_serial = "";
}

-- The branch for a check that succeeded.
unfoldable pub decide_up : SiteState → CheckResult → Time → SiteState × List AlertWithMeta
decide_up prev r now =
    let ns = record prev {
      last_check_at = now;
      last_error = "";
      consecutive_failures = pos 0;
      status = status_up;
    } in
    if prev.status == status_down
    then (record ns { last_status_change_at = now }, recovered_alert prev r now ∷ [])
    else if not (prev.status == status_up)
    then (record ns { last_status_change_at = now }, [])
    else (ns, [])

-- The failure path.
unfoldable pub decide_down : SiteState → CheckResult → Time → SiteState × List AlertWithMeta
decide_down prev r now =
    let failures = wrap64 (prev.consecutive_failures +ℤ pos 1) in
    let ns = record prev {
      last_check_at = now;
      last_error = r.error;
      consecutive_failures = failures;
    } in
    if prev.status == status_down
    then (ns, [])
    else (let flipped = record ns { status = status_down; last_status_change_at = now } in
        if prev.status == status_unknown || prev.status == ""
        then (flipped, [])
        else (flipped, down_alert r failures now ∷ []))

unfoldable pub decide_http : SiteState → CheckResult → Time → SiteState × List AlertWithMeta
unfolding decide_up decide_down
decide_http prev r now =
    if r.status == status_up then decide_up prev r now else decide_down prev r now
