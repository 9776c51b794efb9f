-- ===== src/Examples/Warnings.antt =====
-- Expiry alerts of internal/scheduler at work: each is sent once.
use domainturva.Prelude.{
  ℕ, suc, ◌<◌, ◌==◌, if◌then◌else◌, pos, String, ◌≡◌, ◌≢◌, refl, inl, false, ◌≤ℤ◌, ◌+ℤ◌, ◌-ℤ◌, List,
  [], ◌∷◌, ◌++◌, Any, none, some, arith, Dict,
}
use domainturva.Time.{zero_time, days, seconds}
use domainturva.Storage.Memory.{
  Memory, new_memory, get_site_state, find_recent_alerts, sort_desc, memory,
}
use domainturva.Storage.Memory.Laws.{memory-Lawful}
use domainturva.Storage.Sqlite.{Database, empty_database}
use domainturva.Storage.Sqlite.Order.{IsStorable, second_of}
use domainturva.Storage.Sqlite.States.{Faults, sqlite}
use domainturva.Time.Rfc3339.{from_year_zero}
use domainturva.Scheduler.Stored.{stored_sent_once}
use domainturva.Notifier.{Alert, type_ssl_expiring, type_domain_expiring}
use domainturva.Notifier.Backend.{Backend, console}
use domainturva.Notifier.Dispatcher.{Send, Attempts, outcome, send_one}
use domainturva.Alerting.Expiry.{ssl_expiring_alert, domain_expiring_alert}
use domainturva.Alerting.Band.{current_threshold_band}
use domainturva.Scheduler.{process_result}
use domainturva.Scheduler.Raised.{IsFor, sends}
use domainturva.Scheduler.Once.{IsSslWarning, IsDomainWarning, ssl_sent_once, domain_sent_once}
use domainturva.Examples.Values.{format, engine, noon, routing, ssl_result, domain_result}

abbrev notifiers : Dict Backend
notifiers = ("ops", console "console") ∷ []

abbrev payload_json : Alert → String
payload_json a = "{}"

abbrev first_time : Attempts
first_time = record { notify = λ n. none; cancelled = false }

sent : (outcome first_time).0 ≡ "sent"
unfolding outcome
sent = refl

after_nil : {A : Type 0} (xs : List A) → xs ≡ xs ++ []
after_nil [] = refl
after_nil (x ∷ xs) = cc (after_nil xs)

dated : (n : ℕ) → days (suc n) ≢ zero_time
dated n h = ground arith

ssl_result-IsSslWarning : IsSslWarning engine ssl_result (pos 14)
unfolding current_threshold_band
ssl_result-IsSslWarning = (refl, refl, dated 1009, refl, λ h. ground arith)

abbrev ssl_send : Send
ssl_send = record {
  notifier = console "console";
  alert = (ssl_expiring_alert format ssl_result (pos 14) noon).alert;
  extra = record {
    id = pos 0;
    site_name = "";
    alert_type = "";
    threshold = pos 14;
    cert_serial = "01";
    payload = "";
    sent_at = zero_time;
    notifier = "";
    status = "";
  };
}

ssl_started :
    Any
      (λ y. y ≡ ssl_send)
      (sends format memory memory-Lawful engine routing notifiers ssl_result noon new_memory)
unfolding process_result new_memory get_site_state find_recent_alerts sort_desc
ssl_started = inl refl

abbrev after_ssl : Memory
after_ssl = send_one payload_json (some memory) first_time ssl_send (noon +ℤ seconds 1) new_memory

recent : (noon +ℤ days 1) -ℤ days 90 ≤ℤ noon +ℤ seconds 1
unfolding ◌+ℤ◌ ◌-ℤ◌
recent = omega arith

ssl_sent_once_example :
    (process_result format memory engine routing notifiers ssl_result (noon +ℤ days 1) after_ssl).1
    ≡ []
ssl_sent_once_example =
    ssl_sent_once format memory memory-Lawful engine routing notifiers payload_json ssl_result
      ssl_result (pos 14) noon (noon +ℤ days 1) (noon +ℤ seconds 1) new_memory new_memory after_ssl
      ssl_send first_time [] ssl_result-IsSslWarning ssl_started sent (after_nil _)
      ssl_result-IsSslWarning refl refl recent

domain_result-IsDomainWarning : IsDomainWarning engine domain_result (pos 60)
unfolding current_threshold_band
domain_result-IsDomainWarning = (refl, refl, dated 1049, refl, λ h. ground arith)

abbrev domain_send : Send
domain_send = record {
  notifier = console "console";
  alert = (domain_expiring_alert format domain_result (pos 60) noon).alert;
  extra = record {
    id = pos 0;
    site_name = "";
    alert_type = "";
    threshold = pos 60;
    cert_serial = format.rfc3339_utc domain_result.domain_expiry;
    payload = "";
    sent_at = zero_time;
    notifier = "";
    status = "";
  };
}

domain_started :
    Any
      (λ y. y ≡ domain_send)
      (sends format memory memory-Lawful engine routing notifiers domain_result noon new_memory)
unfolding process_result new_memory get_site_state find_recent_alerts sort_desc
domain_started = inl refl

abbrev after_domain : Memory
after_domain =
    send_one payload_json (some memory) first_time domain_send (noon +ℤ seconds 1) new_memory

this_year : (noon +ℤ days 1) -ℤ days 365 ≤ℤ noon +ℤ seconds 1
unfolding ◌+ℤ◌ ◌-ℤ◌
this_year = omega arith

domain_sent_once_example :
    (process_result format memory engine routing notifiers domain_result
      (noon +ℤ days 1)
      after_domain).1
    ≡ []
domain_sent_once_example =
    domain_sent_once format memory memory-Lawful engine routing notifiers payload_json domain_result
      domain_result (pos 60) noon (noon +ℤ days 1) (noon +ℤ seconds 1) new_memory new_memory
      after_domain domain_send first_time [] domain_result-IsDomainWarning domain_started sent
      (after_nil _) domain_result-IsDomainWarning refl refl this_year

-- A database whose log can be written, but not searched for domain alerts.
abbrev faults : Faults
faults = record {
  get_site_state = λ n db. none;
  upsert_site_state = λ st db. some "locked";
  record_alert = λ a db. none;
  find_recent_alerts =
      λ n type since db. if type == type_domain_expiring then some "locked" else none;
  get_domain_cache = λ n db. none;
  upsert_domain_cache = λ d db. none;
}

abbrev stored : Database
stored =
    send_one payload_json (some (sqlite faults)) first_time ssl_send (noon +ℤ seconds 1)
      empty_database

sent_at-IsStorable : IsStorable (noon +ℤ seconds 1)
unfolding from_year_zero ◌+ℤ◌
sent_at-IsStorable = omega arith

since-IsStorable : IsStorable ((noon +ℤ days 1) -ℤ days 90)
unfolding from_year_zero ◌+ℤ◌ ◌-ℤ◌
since-IsStorable = omega arith

later_second : second_of ((noon +ℤ days 1) -ℤ days 90) < second_of (noon +ℤ seconds 1)
unfolding from_year_zero ◌+ℤ◌ ◌-ℤ◌
later_second = omega arith

ssl_send-IsFor :
    IsFor ssl_result.site_name type_ssl_expiring
      (pos 14)
      "01"
      ssl_send.alert
      ssl_send.extra.threshold
      ssl_send.extra.cert_serial
unfolding ssl_expiring_alert
ssl_send-IsFor = (refl, refl, refl, refl)

stored_sent_once_example :
    (process_result format
      (sqlite faults)
      engine
      routing
      notifiers
      ssl_result
      (noon +ℤ days 1)
      stored).1
    ≡ []
stored_sent_once_example =
    stored_sent_once format faults engine payload_json routing notifiers ssl_result (pos 14)
      type_ssl_expiring "01" 90 (noon +ℤ days 1) (noon +ℤ seconds 1) ssl_send first_time
      empty_database stored [] ssl_send-IsFor sent sent_at-IsStorable refl (λ a. refl) (after_nil _)
      since-IsStorable later_second (inl (ssl_result-IsSslWarning, refl, refl, refl))
