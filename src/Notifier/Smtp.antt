-- ===== src/Notifier/Smtp.antt =====
-- `Notify` of internal/notifier/smtp.go and `buildMIME`. What the server answers is a `Server`; a
-- conversation is the list of the commands that were sent. The details stand in the order in which the
-- loop over the map takes them.
pub mod Laws
pub mod Mail
use Prim.Native.Nat.{ℕ, suc}
use domainturva.Prelude.{
  ℤ, String, ◌==◌, ◌<>◌, decimal, Bool, true, false, not, Option, none, some, List, [], ◌∷◌, ◌++◌,
  if◌then◌else◌,
}
use domainturva.Time.{Time, TimeFormat}
use domainturva.Notifier.{Value, text, int, Alert}
use domainturva.Notifier.Backend.{Smtp}

-- `%v` of a detail.
unfoldable pub print_value : Value → String
print_value (text s) = s
print_value (int n) = decimal n

-- The loop that writes the details.
unfoldable pub detail_lines : List (String × Value) → String
unfolding print_value
detail_lines [] = ""
detail_lines (detail ∷ details) =
    "  " <> detail.0 <> ": " <> print_value detail.1 <> "\n" <> detail_lines details

abbrev details_text : List (String × Value) → String
details_text [] = ""
details_text (detail ∷ details) = "\nDetails:\n" <> detail_lines (detail ∷ details)

-- `upper` is `strings.ToUpper`.
unfoldable pub subject_of : (upper : String → String) → Alert → String
subject_of upper a = "[" <> upper a.severity <> "] " <> a.title <> " — " <> a.site_name

unfoldable pub body_of : TimeFormat → Alert → String
unfolding detail_lines
body_of fmt a =
    "Site: "
    <> a.site_name
    <> "\nType: "
    <> a.type
    <> "\nSeverity: "
    <> a.severity
    <> "\nTime: "
    <> fmt.rfc3339_utc a.at
    <> "\n\n"
    <> a.message
    <> "\n"
    <> details_text a.details

-- `strings.Join(to, ", ")`
unfoldable pub join : List String → String
join [] = ""
join (x ∷ []) = x
join (x ∷ y ∷ xs) = x <> ", " <> join (y ∷ xs)

unfoldable pub build_mime : String → List String → String → String → String
unfolding join
build_mime from to subject body =
    "From: "
    <> from
    <> "\r\n"
    <> "To: "
    <> join to
    <> "\r\n"
    <> "Subject: "
    <> subject
    <> "\r\n"
    <> "MIME-Version: 1.0\r\n"
    <> "Content-Type: text/plain; charset=\"utf-8\"\r\n"
    <> "\r\n"
    <> body

pub data SmtpCommand : Type 0 where
  dial : (host : String) (port : ℤ) → SmtpCommand
  greet : (host : String) → SmtpCommand
  start_tls : (server_name : String) → SmtpCommand
  auth_plain : (username password host : String) → SmtpCommand
  mail : (from : String) → SmtpCommand
  rcpt : (to : String) → SmtpCommand
  begin_data : SmtpCommand
  write_data : (msg : String) → SmtpCommand
  close_data : SmtpCommand
  quit : SmtpCommand

-- Whether the server offers STARTTLS, and the error that each command ends with, if any, by the
-- number of commands before it.
pub record Server : Type 0 where
  pub offers_tls : Bool
  pub answer : ℕ → SmtpCommand → Option String

-- The commands that were sent, and the error.
abbrev pub Talk : Type 0
Talk = List SmtpCommand × Option String

-- A part of the conversation, from a number of commands on.
abbrev pub Part : Type 0
Part = ℕ → Talk

module _ (server : Server) where
  -- `if err := c; err != nil { return }`, and what follows it.
  abbrev pub after_answer : SmtpCommand → Option String → Talk → Talk
  after_answer c (some e) rest = (c ∷ [], some e)
  after_answer c none rest = (c ∷ rest.0, rest.1)

  abbrev pub send : SmtpCommand → Part → Part
  send c rest n = after_answer c (server.answer n c) (rest (suc n))

  -- The loop over the recipients, and what follows it.
  unfoldable pub send_rcpts : List String → Part → Part
  send_rcpts [] rest = rest
  send_rcpts (to ∷ tos) rest = send (rcpt to) (send_rcpts tos rest)

  -- From `client.Data()` on.
  unfoldable pub send_data : String → Part
  send_data msg = send begin_data (send (write_data msg) (send close_data (λ n. ([], none))))

  -- With the client; the deferred `Quit` comes last.
  unfoldable pub with_client : Smtp → String → Part
  unfolding send_rcpts send_data
  with_client s msg n =
      let sent = send (mail s.from) (send_rcpts s.to (send_data msg)) in
      let authenticated =
        if not (s.username == "")
        then send (auth_plain s.username s.password s.host) sent
        else sent in
      let (commands, e) =
        (if server.offers_tls then send (start_tls s.host) authenticated else authenticated) n in
      (commands ++ quit ∷ [], e)

  -- The goroutine that `Notify` starts.
  unfoldable pub converse : Smtp → String → Talk
  unfolding with_client
  converse s msg = send (dial s.host s.port) (send (greet s.host) (with_client s msg)) 0

-- `Notify` itself; `cancelled` is the error of the context where it ends before the goroutine.
unfoldable pub notify :
    (upper : String → String)
    → TimeFormat
    → Server
    → (cancelled : Option String) → Smtp
    → Alert
    → Option String
unfolding converse build_mime subject_of body_of
notify upper fmt server (some e) s a = some e
notify upper fmt server none s a =
    (converse server s (build_mime s.from s.to (subject_of upper a) (body_of fmt a))).1
