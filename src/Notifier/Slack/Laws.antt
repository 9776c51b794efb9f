-- ===== src/Notifier/Slack/Laws.antt =====
-- When an alert has reached Slack.
use domainturva.Prelude.{
  pos, ◌<ℤ◌, String, ◌≡◌, refl, ◌↔◌, Option, none, some, Result, ok, err, arith,
}
use domainturva.Notifier.{Alert}
use domainturva.Notifier.Backend.{Slack}
use domainturva.Notifier.Slack.{
  payload_of, Request, Reply, Web, user_agent, request_of, after_reply, after_request,
  after_marshal, notify,
}

-- The payload was encoded and posted to the webhook, and the answer's status is below 300.
pub record IsPosted (version : String) (web : Web) (s : Slack) (a : Alert) : Type 0 where
  pub body : String
  pub reply : Reply
  pub was_encoded : web.marshal (payload_of a) ≡ ok body
  pub was_made : web.request_error s.webhook ≡ none
  pub was_posted :
      web.post (record {
        method = "POST";
        url = s.webhook;
        body = body;
        content_type = "application/json";
        user_agent = user_agent version;
      })
      ≡ ok reply
  pub is_accepted : reply.status_code <ℤ pos 300

after_reply-eq :
    (r : Result Reply)
    → after_reply r ≡ none
    → (reply : Reply) × (r ≡ ok reply) × (reply.status_code <ℤ pos 300)
after_reply-eq (err e) h = cc
after_reply-eq (ok reply) h = (reply, refl, ground arith)

after_request-eq :
    (web : Web) (r : Request) (o : Option String)
    → after_request web r o ≡ none
    → (o ≡ none) × (after_reply (web.post r) ≡ none)
after_request-eq web r none h = (refl, h)
after_request-eq web r (some e) h = cc

after_marshal-eq :
    (version : String) (web : Web) (s : Slack) (r : Result String)
    → after_marshal version web s r ≡ none
    → (body : String) × (r ≡ ok body)
      × (after_request web (request_of version s body) (web.request_error s.webhook) ≡ none)
after_marshal-eq version web s (ok body) h = (body, refl, h)
after_marshal-eq version web s (err e) h = cc

-- Notify of the Slack notifier returns no error exactly where the alert's payload was encoded, the
-- request could be made and was posted to the webhook as JSON, under the program's user agent, and
-- the status of the answer is below 300.
pub notify-IsPosted :
    (version : String) (web : Web) (s : Slack) (a : Alert)
    → (notify version web s a ≡ none) ↔ IsPosted version web s a
unfolding notify
notify-IsPosted version web s a = (
  λ h.
      let (body, was_encoded, h1) = after_marshal-eq version web s (web.marshal (payload_of a)) h in
      let (was_made, h2) = after_request-eq web (request_of version s body) _ h1 in
      let (reply, was_posted, is_accepted) =
        after_reply-eq (web.post (request_of version s body)) h2 in
      record {
        body = body;
        reply = reply;
        was_encoded = was_encoded;
        was_made = was_made;
        was_posted = was_posted;
        is_accepted = is_accepted;
      },
  λ p. let accepted = p.is_accepted in rw (p.was_encoded, p.was_made, p.was_posted) (ground arith),
)
