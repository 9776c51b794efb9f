-- ===== src/Notifier/Backend.antt =====
-- The notifiers: the structs of internal/notifier/slack.go and smtp.go, their constructors, and
-- `Name`. What `Notify` sends is in the network's hands; its outcome is an argument elsewhere.
use domainturva.Prelude.{ℤ, String, List}
use domainturva.Time.{Duration, seconds}

pub record Slack : Type 0 where
  pub n : String
  pub webhook : String
  pub client_timeout : Duration

unfoldable pub new_slack : String → String → Slack
new_slack name webhook = record { n = name; webhook = webhook; client_timeout = seconds 10 }

pub record Smtp : Type 0 where
  pub n : String
  pub host : String
  pub port : ℤ
  pub username : String
  pub password : String
  pub from : String
  pub to : List String
  pub dial_timeout : Duration

unfoldable pub new_smtp : String → String → ℤ → String → String → String → List String → Smtp
new_smtp name host port user pass from to = record {
  n = name;
  host = host;
  port = port;
  username = user;
  password = pass;
  from = from;
  to = to;
  dial_timeout = seconds 10;
}

-- The types that implement `Notifier`.
pub data Backend : Type 0 where
  slack : Slack → Backend
  smtp : Smtp → Backend
  console : String → Backend

unfoldable pub name : Backend → String
name (slack s) = s.n
name (smtp s) = s.n
name (console n) = n
