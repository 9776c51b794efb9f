-- ===== src/Notifier/Slack.antt =====
-- `Notify` of internal/notifier/slack.go, and the client's header of internal/buildinfo/buildinfo.go.
-- `json.Marshal` and what the network answers are arguments.
pub mod Laws
use domainturva.Prelude.{
  ℤ, pos, leb_ℤ, String, ◌==◌, ◌<>◌, decimal, Option, none, some, List, [], ◌∷◌, Result, ok, err,
  if◌then◌else◌,
}
use domainturva.Notifier.{Value, Alert, severity_critical, severity_warning}
use domainturva.Notifier.Smtp.{print_value}
use domainturva.Notifier.Backend.{Slack}

pub record TextElem : Type 0 where
  pub type : String
  pub text : String

pub record Block : Type 0 where
  pub type : String
  pub text : TextElem

pub record Payload : Type 0 where
  pub text : String
  pub blocks : List Block

unfoldable pub severity_emoji : String → String
severity_emoji s =
    if s == severity_critical
    then ":rotating_light:"
    else if s == severity_warning
    then ":warning:"
    else ":information_source:"

unfoldable pub detail_text : List (String × Value) → String
detail_text [] = ""
detail_text (detail ∷ details) =
    "\n" <> detail.0 <> ": " <> print_value detail.1 <> detail_text details

abbrev with_details : String → List (String × Value) → String
with_details message [] = message
with_details message (detail ∷ details) =
    message <> "\n```" <> detail_text (detail ∷ details) <> "\n```"

unfoldable pub payload_of : Alert → Payload
unfolding severity_emoji detail_text
payload_of a =
    let header = severity_emoji a.severity <> " " <> a.title <> " — " <> a.site_name in
    let section = with_details a.message a.details in
    record {
      text = header;
      blocks =
          record { type = "header"; text = record { type = "plain_text"; text = header } }
          ∷ record { type = "section"; text = record { type = "mrkdwn"; text = section } }
          ∷ [];
    }

pub record Request : Type 0 where
  pub method : String
  pub url : String
  pub body : String
  pub content_type : String
  pub user_agent : String

pub record Reply : Type 0 where
  pub status_code : ℤ
  pub body : String

-- `UserAgent` of internal/buildinfo/buildinfo.go.
unfoldable pub user_agent : (version : String) → String
user_agent version = "domainturva/" <> version <> " (+https://github.com/juusomikkonen/domainturva)"

-- `RoundTrip` of `uaTransport`: the header that the request goes out with.
unfoldable pub round_trip : (ua header : String) → String
round_trip ua header = if header == "" then ua else header

-- What the program finds outside: the encoder, the error of `http.NewRequestWithContext`, and what
-- `Client.Do` returns for a request. The reply's body is its first 1024 bytes.
pub record Web : Type 0 where
  pub marshal : Payload → Result String
  pub request_error : String → Option String
  pub post : Request → Result Reply

abbrev pub after_reply : Result Reply → Option String
after_reply (err e) = some e
after_reply (ok r) =
    if leb_ℤ (pos 300) r.status_code
    then some ("slack: status " <> decimal r.status_code <> ": " <> r.body)
    else none

abbrev pub after_request : Web → Request → Option String → Option String
after_request web r (some e) = some e
after_request web r none = after_reply (web.post r)

abbrev pub request_of : (version : String) → Slack → String → Request
request_of version s body = record {
  method = "POST";
  url = s.webhook;
  body = body;
  content_type = "application/json";
  user_agent = user_agent version;
}

abbrev pub after_marshal : (version : String) → Web → Slack → Result String → Option String
after_marshal version web s (err e) = some e
after_marshal version web s (ok body) =
    after_request web (request_of version s body) (web.request_error s.webhook)

unfoldable pub notify : (version : String) → Web → Slack → Alert → Option String
unfolding payload_of user_agent
notify version web s a = after_marshal version web s (web.marshal (payload_of a))
