-- ===== src/Alerting.antt =====
-- `Engine.Process` of internal/alerting/alerting.go. It reads the store, and leaves the writes to
-- its caller.
pub mod Band
pub mod Duration
pub mod Http
pub mod Expiry
pub mod Steps
pub mod Quiet
pub mod Succeeds
use domainturva.Prelude.{String, ◌==◌, List, [], ◌∷◌, map, Result, ok, ◌>>=◌, if◌then◌else◌, ℤ}
use domainturva.Time.{Time, TimeFormat}
use domainturva.Storage.{SiteState, Storage}
use domainturva.Notifier.{Alert}
use domainturva.Checker.{CheckResult, check_http, check_ssl, check_domain, status_unknown}
use domainturva.Alerting.Http.{AlertWithMeta, Outcome, decide_http}
use domainturva.Alerting.Expiry.{Engine, decide_ssl, decide_domain}

-- A site that the store does not know yet.
unfoldable pub baseline : CheckResult → Time → SiteState → SiteState
baseline r now prev =
    if prev.site_name == ""
    then record prev {
      site_name = r.site_name;
      status = status_unknown;
      last_status_change_at = now;
    }
    else prev

-- `now` is what `e.now()` returns.
unfoldable pub process :
    {S : Type 0} → TimeFormat → Storage S → Engine → S → CheckResult → Time → Result Outcome
unfolding decide_http decide_ssl decide_domain baseline
process fmt store e s r now = do
  got ← store.get_site_state r.site_name s
  let prev = baseline r now got.0
  if r.type == check_http
      then (let (new_state, alerts) = decide_http prev r now in
          ok (record { new_state = new_state; alerts = alerts }))
      else if r.type == check_ssl
      then (do
        alerts ← decide_ssl fmt store e s r now
        ok (record { new_state = record prev { last_check_at = now }; alerts = alerts }))
      else if r.type == check_domain
      then (do
        alerts ← decide_domain fmt store e s r now
        ok (record { new_state = record prev { last_check_at = now }; alerts = alerts }))
      else ok (record { new_state = prev; alerts = [] })

pub record DispatchableAlert : Type 0 where
  pub alert : Alert
  pub threshold : ℤ
  pub cert_serial : String

unfoldable pub alerts_for_dispatch : Outcome → List DispatchableAlert
alerts_for_dispatch o =
    map (λ a. record { alert = a.alert; threshold = a.threshold; cert_serial = a.cert_serial })
      o.alerts
