-- ===== src/Notifier/Dispatcher.antt =====
-- internal/notifier/dispatcher.go. `Dispatch` starts a goroutine for each known recipient: here it
-- returns them, as values of `Send`. `send_one` runs one of them: what the network and the shutdown
-- do to it is an `Attempts`, whose calls are counted, and it ends with one write to the alert log.
pub mod Laws
use domainturva.Prelude.{
  ℕ, suc, String, Bool, Option, none, some, List, [], ◌∷◌, Dict, lookup, if◌then◌else◌, pos,
}
use domainturva.Time.{Time}
use domainturva.Storage.{AlertRecord, Storage}
use domainturva.Notifier.{Alert}
use domainturva.Notifier.Backend.{Backend, name}

pub record Send : Type 0 where
  pub notifier : Backend
  pub alert : Alert
  pub extra : AlertRecord

-- The error of each call of `Notify`, numbered from 0 (`none` where it succeeds), and whether the
-- `select` after a failed one takes `ctx.Done()`.
pub record Attempts : Type 0 where
  pub notify : ℕ → Option String
  pub cancelled : Bool

-- `n.Notify(ctx, a)` after `calls` calls.
unfoldable pub call : Attempts → ℕ → Option String × ℕ
call env calls = (env.notify calls, suc calls)

unfoldable pub dispatch : Dict Backend → Alert → List String → AlertRecord → List Send
unfolding lookup
dispatch notifiers a [] extra = []
dispatch notifiers a (recipient ∷ names) extra =
    let later = dispatch notifiers a names extra in
    elim (lookup recipient notifiers) [
      | none ↦ later
      | some n ↦ record { notifier = n; alert = a; extra = extra } ∷ later
    ]

-- How the goroutine ends: the status that it records, and how often it called `Notify`.
unfoldable pub outcome : Attempts → String × ℕ
unfolding call
outcome env =
    let (first, calls) = call env 0 in
    elim first [
      | none ↦ ("sent", calls)
      | some _ ↦
          if env.cancelled
          then ("failed", calls)
          else let (second, calls') = call env calls in
            elim second [ none ↦ ("sent", calls') | some _ ↦ ("failed", calls') ]
    ]

unfoldable pub alert_record :
    (Alert → String) → String → Alert → AlertRecord → String → Time → AlertRecord
alert_record payload_json notifier_name a extra status now = record {
  id = pos 0;
  site_name = a.site_name;
  alert_type = a.type;
  threshold = extra.threshold;
  cert_serial = extra.cert_serial;
  payload = payload_json a;
  sent_at = now;
  notifier = notifier_name;
  status = status;
}

module _ {S : Type 0} (payload_json : Alert → String) where
  -- `d.record`; the store may be nil, and a failed write is only logged.
  unfoldable pub record_send :
      Option (Storage S) → String → Alert → AlertRecord → String → Time → S → S
  unfolding alert_record
  record_send none notifier_name a extra status now s = s
  record_send (some store) notifier_name a extra status now s =
      (store.record_alert (alert_record payload_json notifier_name a extra status now) s).0

  unfoldable pub send_one : Option (Storage S) → Attempts → Send → Time → S → S
  unfolding record_send outcome name
  send_one store env send now s =
      record_send store (name send.notifier) send.alert send.extra (outcome env).0 now s
