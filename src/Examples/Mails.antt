-- ===== src/Examples/Mails.antt =====
-- internal/notifier/smtp.go and slack.go, and the shutdown of internal/scheduler, at work.
use domainturva.Prelude.{
  ℕ, ◌≤◌, pos, ◌==◌, if◌then◌else◌, decimal, ◌<>◌, ◌≡◌, ◌⊎◌, refl, true, [], ◌∷◌, none, some, ok,
  arith,
}
use domainturva.Time.{seconds}
use domainturva.Notifier.{Alert, text, int, type_down, severity_critical}
use domainturva.Notifier.Backend.{Slack, Smtp}
use domainturva.Notifier.Smtp.{
  Server, dial, greet, start_tls, mail, rcpt, quit, converse, build_mime, join, subject_of, body_of,
}
use domainturva.Notifier.Smtp.Laws.{IsTalk, full, converse-IsTalk}
use domainturva.Notifier.Smtp.Mail.{read_header, read_header-build_mime}
use domainturva.Notifier.Slack.{Web, payload_of, notify}
use domainturva.Checker.{zero_result}
use domainturva.Scheduler.Shutdown.{
  Worker, Program, delivering, processing, Quiet, Quiets, HasReturned,
}
use domainturva.Scheduler.Shutdown.Laws.{moves_left, shutdown_ends}
use domainturva.Examples.Values.{noon, format}

abbrev alert : Alert
alert = record {
  site_name = "a";
  type = type_down;
  severity = severity_critical;
  title = "Site DOWN";
  message = "timeout";
  details = ("status_code", int (pos 0)) ∷ ("error", text "timeout") ∷ [];
  at = noon;
}

abbrev smtp : Smtp
smtp = record {
  n = "mail";
  host = "mx";
  port = pos 25;
  username = "";
  password = "";
  from = "m@a";
  to = "x@a" ∷ "y@a" ∷ [];
  dial_timeout = seconds 10;
}

-- A server that refuses the second recipient.
abbrev refusing : Server
refusing = record {
  offers_tls = true;
  answer = λ n c. elim c [ rcpt to ↦ (if to == "y@a" then some "550" else none) | _ ↦ none ];
}

converse_test : converse refusing smtp "hi" ≡ (
  dial "mx" (pos 25)
      ∷ greet "mx"
      ∷ start_tls "mx"
      ∷ mail "m@a"
      ∷ rcpt "x@a"
      ∷ rcpt "y@a"
      ∷ quit
      ∷ [],
  some "550",
)
unfolding converse
converse_test = refl

converse-IsTalk_example : IsTalk refusing (full refusing smtp "hi") (converse refusing smtp "hi")
converse-IsTalk_example = converse-IsTalk refusing smtp "hi"

body_test :
    (subject_of (λ s. "CRITICAL") alert ≡ "[CRITICAL] Site DOWN — a")
    × (body_of format alert
        ≡ "Site: a\nType: down\nSeverity: critical\nTime: 86400000000000000\n\ntimeout\n\nDetails:\n  status_code: 0\n  error: timeout\n")
unfolding subject_of body_of decimal
body_test = (refl, refl)

read_header-build_mime_example :
    read_header 6 (build_mime "m@a" ("x@a" ∷ "y@a" ∷ []) "down" "text\n") ≡ (
      ("From: " <> "m@a")
          ∷ ("To: " <> join ("x@a" ∷ "y@a" ∷ []))
          ∷ ("Subject: " <> "down")
          ∷ "MIME-Version: 1.0"
          ∷ "Content-Type: text/plain; charset=\"utf-8\""
          ∷ [],
      "text\n",
    )
read_header-build_mime_example =
    read_header-build_mime "m@a" ("x@a" ∷ "y@a" ∷ []) "down" "text\n" (omega arith) (omega arith)
      (omega arith)

abbrev slack : Slack
slack = record { n = "ops"; webhook = "https://hooks.example"; client_timeout = seconds 10 }

abbrev web : Web
web = record {
  marshal = λ p. ok p.text;
  request_error = λ url. none;
  post = λ r. ok (record { status_code = pos 200; body = "ok" });
}

slack_test :
    ((payload_of alert).text ≡ ":rotating_light: Site DOWN — a")
    × (notify "dev" web slack alert ≡ none)
unfolding payload_of notify
slack_test = (refl, refl)

-- A result waits for a channel that is full, and the consumer is at work.
abbrev stopping : Program
stopping = record {
  cancelled = true;
  workers = delivering zero_result ∷ Worker.checking ∷ Worker.waiting ∷ [];
  consumer = processing zero_result;
  buffer = zero_result ∷ [];
}

shutdown_ends_example :
    ((n : ℕ) (q : Program)
      → Quiets 1 n stopping q
      → (n ≤ moves_left stopping) × (HasReturned q ⊎ ((r : Program) × Quiet 1 q r)))
    × ((n : ℕ) × (q : Program) × Quiets 1 n stopping q × HasReturned q)
shutdown_ends_example = shutdown_ends 1 stopping refl
