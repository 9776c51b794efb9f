-- ===== src/Scheduler.antt =====
-- internal/scheduler/scheduler.go: the jobs, one check, and the consumer's work on one result.
pub mod Jobs
pub mod Sends
pub mod Raised
pub mod Once
pub mod Silent
pub mod Stored
pub mod Flaps
pub mod Processed
pub mod Settle
pub mod Traces
pub mod Shutdown
pub mod Logging
use domainturva.Prelude.{
  ℕ, ◌*◌, ◌%◌, ◌^◌, ℤ, pos, negsuc, String, ◌==◌, Bool, ◌&&◌, Option, none, some, List, [], ◌∷◌,
  ◌++◌, map, length, Result, ok, err, leb_ℤ, ltb_ℤ, Dict, if◌then◌else◌,
}
use domainturva.Time.{Time, Duration, TimeFormat, seconds, zero_time}
use domainturva.Storage.{AlertRecord, Storage}
use domainturva.Notifier.Backend.{Backend}
use domainturva.Notifier.Dispatcher.{Send, dispatch}
use domainturva.Checker.{CheckResult, check_http, check_ssl, check_domain}
use domainturva.Config.{Site, Config, Routing, notifiers_for}
use domainturva.Alerting.{DispatchableAlert, process, alerts_for_dispatch}
use domainturva.Alerting.Expiry.{Engine}

pub record Job : Type 0 where
  pub site : Site
  pub typ : String
  pub interval : Duration

abbrev pub min_ℤ : ℤ → ℤ → ℤ
min_ℤ a b = if leb_ℤ a b then a else b

-- The jobs of one site; the flags say that the SSL and domain runners are not nil.
unfoldable pub site_jobs : Config → Bool → Bool → Site → List Job
site_jobs c has_ssl has_domain site =
    (record { site = site; typ = check_http; interval = site.interval } ∷ [])
    ++ ((if site.check_ssl && has_ssl
          then record { site = site; typ = check_ssl; interval = c.ssl_check_interval } ∷ []
          else [])
        ++ (if site.check_domain && has_domain
            then record { site = site; typ = check_domain; interval = c.domain_check_interval } ∷ []
            else []))

-- The loop of `Run` that collects the jobs.
unfoldable pub jobs : Config → Bool → Bool → List Site → List Job
unfolding site_jobs
jobs c has_ssl has_domain [] = []
jobs c has_ssl has_domain (site ∷ sites) =
    site_jobs c has_ssl has_domain site ++ jobs c has_ssl has_domain sites

-- The size of the channel of results.
unfoldable pub results_capacity : List Job → ℕ
results_capacity js = Prim.Native.Nat.max (4 * length js) 16

abbrev pub initial_jitter_cap : Duration
initial_jitter_cap = seconds 5

-- `random` is the 64-bit number that `rand.Read` fills in.
unfoldable pub jitter_duration : ℕ → Duration → Duration
jitter_duration random (pos n) = if leb_ℤ (pos n) (pos 0) then pos 0 else pos (random % 2 ^ 63 % n)
jitter_duration random (negsuc n) = pos 0

-- The delay of a worker's first check.
unfoldable pub first_delay : ℕ → Duration → Duration
unfolding jitter_duration
first_delay random interval = jitter_duration random (min_ℤ interval initial_jitter_cap)

-- `runOne`: the runners are functions from a site to a result; `delivered` says which way the
-- `select` went.
unfoldable pub run_one :
    (http ssl domain : Site → CheckResult) → Site → String → Bool → Option CheckResult
run_one http ssl domain site typ delivered =
    let send = λ (r : CheckResult). if delivered then some r else none in
    if typ == check_http
    then send (http site)
    else if typ == check_ssl
    then send (ssl site)
    else if typ == check_domain
    then send (domain site)
    else none

abbrev pub extra_record : DispatchableAlert → AlertRecord
extra_record da = record {
  id = pos 0;
  site_name = "";
  alert_type = "";
  threshold = da.threshold;
  cert_serial = da.cert_serial;
  payload = "";
  sent_at = zero_time;
  notifier = "";
  status = "";
}

-- The loop of `process` over the alerts: the goroutines that it starts.
unfoldable pub dispatch_all : Routing → Dict Backend → List DispatchableAlert → List Send
unfolding notifiers_for dispatch
dispatch_all routing notifiers [] = []
dispatch_all routing notifiers (da ∷ das) =
    dispatch notifiers da.alert (notifiers_for routing da.alert.type) (extra_record da)
    ++ dispatch_all routing notifiers das

module _ {S : Type 0} (fmt : TimeFormat) (store : Storage S) (e : Engine) where
  -- The part of `process` above its loop: a failed read ends it, a failed write is only logged.
  unfoldable pub settle : CheckResult → Time → S → S × List DispatchableAlert
  unfolding process alerts_for_dispatch
  settle r now s = elim (process fmt store e s r now) [
    | err _ ↦ (s, [])
    | ok out ↦ ((store.upsert_site_state out.new_state s).0, alerts_for_dispatch out)
  ]

  -- `process`: the new store, and the goroutines that it starts.
  unfoldable pub process_result : Routing → Dict Backend → CheckResult → Time → S → S × List Send
  unfolding settle dispatch_all
  process_result routing notifiers r now s =
      let (s', das) = settle r now s in (s', dispatch_all routing notifiers das)
