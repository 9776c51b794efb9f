-- ===== src/Examples/Checks.antt =====
-- The SSL and the domain checker of internal/checker, and cmd/domainturva, at work.
use domainturva.Alerting.Expiry.Search.{IsRecent}
use domainturva.Alerting.Expiry.Ssl.{RaisedUnless}
use domainturva.Alerting.Expiry.Domain.{IsDegraded}
use domainturva.Checker.Domain.Degraded.{check-IsDegraded}
use domainturva.Prelude.{
  err, insert, ◌↔◌, String, Option, ap, eq_iff, ◌≢◌, arith, ◌+ℤ◌, ◌-ℤ◌, lookup, pos, ◌≡◌, refl, ◌⊎◌,
  true, false, [], ◌∷◌, map, none, some, ok, err,
}
use domainturva.Time.{Time, zero_time, days}
use domainturva.Storage.{AlertRecord, DomainCache}
use domainturva.Storage.Memory.{Memory, new_memory, memory, get_domain_cache, upsert_domain_cache}
use domainturva.Storage.Memory.Laws.{memory-Lawful}
use domainturva.Notifier.{Alert, type_down, severity_critical, type_degraded_monitor}
use domainturva.Notifier.Backend.{name}
use domainturva.Notifier.Dispatcher.{dispatch}
use domainturva.Checker.{status_up, status_down}
use domainturva.Checker.Ssl.{Certificate, VerifyError, Handshake}
use domainturva.Checker.Ssl.Laws.{HasLeaf, HasNoLeaf, Describes, IsBlank, check-Describes}
use domainturva.Checker.Domain.{
  DomainEvent, RdapObject, Lookups, Parsers, trim_www, equal_fold, lookup_rdap, lookup_whois,
}
use domainturva.Checker.Domain.Conditions.{not_known, failed_cache, IsAskedFor, IsUsable, IsUnknown}
use domainturva.Checker.Domain.Laws.{cached, IsAnswered, check-IsAnswered}
use domainturva.Checker.Ssl
use domainturva.Checker.Domain
use domainturva.Checker.Domain.Answers.{IsRdapTime, IsWhoisTime, lookup-IsAnswer}
use domainturva.Config.{notifiers_for}
use domainturva.Config.Validate.{Net, check_site, check_notifier, validate}
use domainturva.Main.{build_notifiers}
use domainturva.Main.Routes.{dispatch-IsValid}
use domainturva.Alerting.Expiry.{decide_ssl, decide_domain, degraded_alert}
use domainturva.Examples.Values.{format, engine, noon, site, config}

abbrev leaf : Certificate
leaf = record {
  not_after = days 1010;
  serial = "01";
  issuer_common_name = "Example CA";
  issuer = "CN=Example CA";
  subject = "CN=a.example";
}

abbrev handshake : Handshake
handshake = record {
  start = noon;
  url_error = none;
  peer = ok (leaf ∷ []);
  until = noon;
  verify = some (record { text = "signed by unknown authority"; unknown_authority = true });
  finish = noon;
}

ssl_tests :
    ((Ssl.check format site handshake).status ≡ status_up)
    × ((Ssl.check format site handshake).days_until_cert_expiry ≡ pos 10)
    × ((Ssl.check format site handshake).cert_untrusted ≡ true)
    × ((Ssl.check format site handshake).cert_self_signed ≡ false)
    × ((Ssl.check format site (record handshake { finish = days 1011 })).status ≡ status_down)
unfolding Ssl.check
ssl_tests = (refl, refl, refl, refl, refl)

check-Describes_example :
    ((cert : Certificate) × HasLeaf handshake cert
      × Describes (Ssl.check format site handshake) handshake cert)
    ⊎ (HasNoLeaf handshake
        × IsBlank (Ssl.check format site handshake)
        × (decide_ssl format memory engine new_memory (Ssl.check format site handshake) noon
            ≡ ok []))
check-Describes_example = check-Describes format memory engine new_memory noon site handshake

abbrev parsers : Parsers
parsers = record {
  hostname = λ url. ok "www.a.example";
  expiration_date = λ raw. ok none;
  parse_time = λ layout date. some (days 1050);
  quoted = λ s. s;
}

abbrev lookups : Lookups
lookups = record {
  now = noon;
  until = noon;
  rdap = λ query. ok (RdapObject.domain (record { action = "Expiration"; date = "" } ∷ []));
  whois = λ query. err "refused";
}

text_tests :
    (trim_www "www.a.example" ≡ "a.example")
    × (trim_www "a.example" ≡ "a.example")
    × (equal_fold "Expiration" "expiration" ≡ true)
    × (equal_fold "last changed" "expiration" ≡ false)
unfolding trim_www equal_fold
text_tests = (refl, refl, refl, refl)

domain_tests :
    ((Domain.check parsers memory site lookups new_memory).0.days_until_domain_expiry ≡ pos 50)
    × ((Domain.check parsers memory site lookups new_memory).0.domain_lookup_ok ≡ true)
unfolding Domain.check new_memory get_domain_cache lookup
domain_tests = (refl, refl)

check-IsAnswered_example :
    IsAnswered parsers site lookups memory memory-Lawful new_memory
      (Domain.check parsers memory site lookups new_memory)
check-IsAnswered_example = check-IsAnswered parsers site lookups memory memory-Lawful new_memory

lookup-IsAnswer_example : (Domain.lookup parsers lookups "a.example" ≡ ok (days 1050, "rdap")) ↔ (
    (IsRdapTime parsers lookups "a.example" (days 1050) × (◌≡◌ {A = String} "rdap" "rdap"))
    ⊎ (((u : Time) → ¬ IsRdapTime parsers lookups "a.example" u)
        × IsWhoisTime parsers lookups "a.example" (days 1050)
        × (◌≡◌ {A = String} "rdap" "whois")))
lookup-IsAnswer_example = lookup-IsAnswer parsers lookups "a.example" (days 1050) "rdap"

abbrev net : Net
net = record {
  parse_url = λ s. some (record { scheme = "https"; host = "a.example" });
  split_host_port_error = λ s. none;
}

config_valid : validate net config ≡ none
unfolding validate check_site check_notifier
config_valid = refl

abbrev alert : Alert
alert = record {
  site_name = "a";
  type = type_down;
  severity = severity_critical;
  title = "DOWN";
  message = "";
  details = [];
  at = noon;
}

abbrev extra : AlertRecord
extra = record {
  id = pos 0;
  site_name = "";
  alert_type = "";
  threshold = pos 0;
  cert_serial = "";
  payload = "";
  sent_at = zero_time;
  notifier = "";
  status = "";
}

dispatch-IsValid_example :
    map
      (λ x. name x.notifier)
      (dispatch
        (build_notifiers config.notifiers)
        alert
        (notifiers_for config.routing type_down)
        extra)
    ≡ notifiers_for config.routing type_down
dispatch-IsValid_example = dispatch-IsValid net config type_down alert extra config_valid

named : ◌≢◌ {A = String} "www.a.example" ""
named h = ground (arith, eq_iff "www.a.example" "")

last_lookup : Option DomainCache → Time
last_lookup none = zero_time
last_lookup (some dc) = dc.last_lookup_at

abbrev refused : Lookups
refused = record lookups { rdap = λ query. err "timeout" }

abbrev old_cache : DomainCache
old_cache = record {
  site_name = "a";
  expires_at = days 1050;
  last_lookup_at = days 990;
  last_ok_at = days 990;
  source = "rdap";
  error = "";
}

abbrev old_memory : Memory
old_memory = (upsert_domain_cache old_cache new_memory).0

refused-IsAskedFor : IsAskedFor parsers site refused "a.example"
unfolding trim_www
refused-IsAskedFor = ("www.a.example", refl, named, refl)

-- The cached lookup is ten days old.
old_memory-IsStale : ¬ IsUsable parsers site refused (memory-Lawful.cache_of old_memory "a")
unfolding upsert_domain_cache insert memory-Lawful new_memory ◌+ℤ◌ lookup last_lookup
old_memory-IsStale (dc, same, soon, dated) =
    let e : days 990 ≡ dc.last_lookup_at = ap (λ o. last_lookup o) same in ground (arith, e)

refused-IsUnknown : IsUnknown parsers site refused "a.example" "rdap and whois both failed: refused"
unfolding lookup_rdap lookup_whois
refused-IsUnknown = ("timeout", "refused", refl, refl, refl)

check-IsDegraded_example :
    let (r, after) = Domain.check parsers memory site refused old_memory in
    let before = cached parsers site refused memory memory-Lawful old_memory in
    (IsDegraded before noon
      × RaisedUnless
          (IsRecent "a" type_degraded_monitor (noon -ℤ days 7))
          (memory-Lawful.log old_memory)
          (degraded_alert format
            (not_known parsers site refused status_up "rdap and whois both failed: refused")
            (failed_cache parsers site refused before "rdap and whois both failed: refused")
            noon)
          (decide_domain format memory engine after r noon))
    ⊎ ((¬ IsDegraded before noon) × (decide_domain format memory engine after r noon ≡ ok []))
check-IsDegraded_example =
    check-IsDegraded format parsers memory memory-Lawful engine site refused old_memory noon
      "a.example" "rdap and whois both failed: refused" refused-IsAskedFor old_memory-IsStale
      refused-IsUnknown
