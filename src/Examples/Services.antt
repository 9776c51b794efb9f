-- ===== src/Examples/Services.antt =====
-- internal/checker, internal/notifier and internal/storage at work.
use domainturva.Prelude.{
  ℕ, ◌≤◌, ℤ, pos, String, ◌≡◌, ◌↔◌, refl, ◌⊎◌, true, false, ◌+ℤ◌, ◌-ℤ◌, wrap64, List, [], ◌∷◌, ◌++◌,
  none, some, Option, arith, ok, err, zero, suc, filter,
}
use mathlib.Core.List.{Perm, Mem}
use domainturva.Time.{zero_time, seconds}
use domainturva.Storage.{AlertRecord}
use domainturva.Storage.Memory.{
  Memory, new_memory, memory, record_alert, is_recent, find_recent_alerts,
}
use domainturva.Storage.Memory.Laws.{memory-Lawful, IsWanted, IsDescending, find_recent_alerts_lem}
use domainturva.Notifier.{Alert, type_down, severity_critical}
use domainturva.Notifier.Backend.{console, name}
use domainturva.Notifier.Dispatcher.{Send, Attempts, outcome, alert_record, send_one}
use domainturva.Notifier.Dispatcher.Laws.{Succeeds, AreCallsOf, send_one_lem}
use domainturva.Checker.{status_up, status_down}
use domainturva.Checker.Http.{Exchange, Round, Printing, deadline_margin, attempt, check}
use domainturva.Checker.Http.Attempt.{IsHealthy, attempt-IsHealthy}
use domainturva.Checker.Http.Laws.{IsUp, IsReached, check-IsUp}
use domainturva.Examples.Values.{site, noon}

abbrev printing : Printing
printing = record { int_list = λ xs. "[200]"; quoted = λ s. s; contains = λ body part. true }

abbrev refused : Exchange
refused = record {
  request_error = none;
  start = noon;
  reply = err "refused";
  finish = noon;
  tls_start = zero_time;
  tls_end = zero_time;
  error_at = noon;
}

abbrev answered : Exchange
answered = record refused { reply = ok (record { status_code = pos 200; body = ok "" }) }

-- The site answers from the third attempt on.
abbrev rounds : ℕ → Round
rounds zero = record {
  before_pause = noon;
  cancelled = none;
  cancelled_at = noon;
  exchange = refused;
}
rounds (suc zero) = record {
  before_pause = noon;
  cancelled = none;
  cancelled_at = noon;
  exchange = refused;
}
rounds _ = record {
  before_pause = noon;
  cancelled = none;
  cancelled_at = noon;
  exchange = answered;
}

check_tests :
    ((check printing site noon rounds).status ≡ status_up)
    × ((check printing (record site { retries = pos 1 }) noon rounds).status ≡ status_down)
unfolding check ◌+ℤ◌ ◌-ℤ◌ wrap64
check_tests = (refl, refl)

check-IsUp_example : ((check printing site noon rounds).status ≡ status_up) ↔ (
    (k : ℕ) × (k ≤ 2)
    × IsUp printing site rounds (noon +ℤ wrap64 (seconds 60 -ℤ deadline_margin)) k
    × ((j : ℕ)
        → j ≤ k
        → IsReached printing site rounds (noon +ℤ wrap64 (seconds 60 -ℤ deadline_margin)) j))
check-IsUp_example = check-IsUp printing site noon rounds 2 refl (omega arith)

attempt-IsHealthy_example :
    ((attempt printing site answered).status ≡ status_up) ↔ IsHealthy printing site answered
attempt-IsHealthy_example = attempt-IsHealthy printing site answered

abbrev alert : Alert
alert = record {
  site_name = "a";
  type = type_down;
  severity = severity_critical;
  title = "DOWN";
  message = "a is down: timeout";
  details = [];
  at = noon;
}

abbrev blank_record : AlertRecord
blank_record = record {
  id = pos 0;
  site_name = "";
  alert_type = "";
  threshold = pos 0;
  cert_serial = "";
  payload = "";
  sent_at = zero_time;
  notifier = "";
  status = "";
}

abbrev send : Send
send = record { notifier = console "console"; alert = alert; extra = blank_record }

-- The first call fails and the second one succeeds.
abbrev second_answers : ℕ → Option String
second_answers zero = some "timeout"
second_answers (suc n) = none

abbrev second_time : Attempts
second_time = record { notify = second_answers; cancelled = false }

abbrev payload_json : Alert → String
payload_json a = "{}"

abbrev down_record : AlertRecord
down_record = alert_record payload_json "console" alert blank_record "sent" noon

outcome_tests : outcome second_time ≡ ("sent", 2)
unfolding outcome
outcome_tests = refl

send_one_lem_example :
    (n : ℤ) × (status : String) × (memory-Lawful.log
        (send_one payload_json (some memory) second_time send noon new_memory)
      ≡ memory-Lawful.log new_memory
        ++ record {
          id = n;
          site_name = "a";
          alert_type = type_down;
          threshold = pos 0;
          cert_serial = "";
          payload = "{}";
          sent_at = noon;
          notifier = name (console "console");
          status = status;
        }
          ∷ [])
    × ((status ≡ "sent") ↔ Succeeds second_time)
    × ((status ≡ "sent") ⊎ (status ≡ "failed"))
    × AreCallsOf second_time (outcome second_time).1
    × ((site : String)
        → memory-Lawful.state_of
            (send_one payload_json (some memory) second_time send noon new_memory)
            site
          ≡ memory-Lawful.state_of new_memory site)
send_one_lem_example =
    send_one_lem memory memory-Lawful payload_json second_time send noon new_memory

abbrev one_alert : Memory
one_alert = (record_alert down_record new_memory).0

find_recent_alerts_lem_example :
    (found : List AlertRecord) × (find_recent_alerts "a" type_down noon one_alert ≡ ok found)
    × ((a : AlertRecord) → Mem a found ↔ (Mem a one_alert.alerts × IsWanted "a" type_down noon a))
    × Perm found (filter (is_recent "a" type_down noon) one_alert.alerts)
    × IsDescending found
find_recent_alerts_lem_example = find_recent_alerts_lem "a" type_down noon one_alert
