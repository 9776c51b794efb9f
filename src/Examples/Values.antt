-- ===== src/Examples/Values.antt =====
-- The values that the examples share.
use domainturva.Prelude.{pos, decimal, true, [], ◌∷◌}
use domainturva.Time.{Time, TimeFormat, seconds, days}
use domainturva.Checker.{
  CheckResult, check_http, check_ssl, check_domain, status_up, status_down, zero_result,
}
use domainturva.Config.{Site, Notifier, Routing, Config}
use domainturva.Alerting.Expiry.{Engine}

abbrev pub format : TimeFormat
format = record { rfc3339 = decimal; rfc3339_utc = decimal; date = decimal }

abbrev pub engine : Engine
engine = record {
  ssl_warn_days = pos 30 ∷ pos 14 ∷ pos 7 ∷ pos 1 ∷ [];
  domain_warn_days = pos 60 ∷ pos 7 ∷ [];
}

-- 1000 days after the zero time.
abbrev pub noon : Time
noon = days 1000

abbrev pub up_result : CheckResult
up_result = record zero_result {
  site_name = "a";
  type = check_http;
  status = status_up;
  at = noon;
  status_code = pos 200;
}

abbrev pub down_result : CheckResult
down_result = record zero_result {
  site_name = "a";
  type = check_http;
  status = status_down;
  at = noon;
  error = "timeout";
}

abbrev pub ssl_result : CheckResult
ssl_result = record zero_result {
  site_name = "a";
  type = check_ssl;
  status = status_up;
  cert_not_after = days 1010;
  cert_serial = "01";
  days_until_cert_expiry = pos 10;
}

abbrev pub domain_result : CheckResult
domain_result = record zero_result {
  site_name = "a";
  type = check_domain;
  status = status_up;
  domain_lookup_ok = true;
  domain_expiry = days 1050;
  days_until_domain_expiry = pos 50;
}

abbrev pub site : Site
site = record {
  name = "a";
  url = "https://a.example";
  expect_status = pos 200 ∷ [];
  expect_body_contains = "";
  check_ssl = true;
  check_domain = true;
  interval = seconds 60;
  timeout = seconds 10;
  retries = pos 2;
}

abbrev pub slack_config : Notifier
slack_config = record {
  name = "ops";
  type = "slack";
  webhook = "https://hooks.example";
  host = "";
  port = pos 0;
  username = "";
  password = "";
  from = "";
  to = [];
}

abbrev pub routing : Routing
routing = record { default = "ops" ∷ []; per_type = [] }

abbrev pub config : Config
config = record {
  check_interval = seconds 60;
  ssl_check_interval = seconds 43200;
  domain_check_interval = seconds 86400;
  sites = site ∷ [];
  ssl_warn_days = pos 30 ∷ pos 7 ∷ [];
  domain_warn_days = pos 60 ∷ [];
  notifiers = slack_config ∷ [];
  routing = routing;
  storage_path = "./domainturva.db";
  health_listen = "";
}
