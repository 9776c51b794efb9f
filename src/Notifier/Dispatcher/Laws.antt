-- ===== src/Notifier/Dispatcher/Laws.antt =====
-- The goroutine of `Dispatch`, whatever the network does: `sendOne` of
-- internal/notifier/dispatcher.go.
use domainturva.Prelude.{
  ℕ, String, ◌≡◌, ◌↔◌, ◌≢◌, refl, ◌∙◌, ap, eq_iff, ◌⊎◌, inl, inr, true, false, none, some, [], ◌∷◌,
  ◌++◌, arith, ℤ,
}
use domainturva.Time.{Time}
use domainturva.Storage.{AlertRecord, Storage}
use domainturva.Storage.Lawful.{Lawful, stored}
use domainturva.Notifier.{Alert}
use domainturva.Notifier.Backend.{name}
use domainturva.Notifier.Dispatcher.{Send, Attempts, outcome, alert_record, send_one}

-- A call of `Notify` succeeds: the first, or the second where the shutdown lets it happen.
abbrev pub Succeeds : Attempts → Type 0
Succeeds env = (env.notify 0 ≡ none) ⊎ ((env.cancelled ≡ false) × (env.notify 1 ≡ none))

-- One call where the first succeeds or the shutdown came, two elsewhere.
abbrev pub AreCallsOf : Attempts → ℕ → Type 0
AreCallsOf env n =
    ((n ≡ 1) × ((env.notify 0 ≡ none) ⊎ (env.cancelled ≡ true)))
    ⊎ ((n ≡ 2) × (env.notify 0 ≢ none) × (env.cancelled ≡ false))

failed_not_sent : ◌≢◌ {A = String} "failed" "sent"
failed_not_sent h = ground (arith, eq_iff "failed" "sent")

outcome_lem :
    (env : Attempts)
    → (((outcome env).0 ≡ "sent") ↔ Succeeds env)
      × (((outcome env).0 ≡ "sent") ⊎ ((outcome env).0 ≡ "failed"))
      × AreCallsOf env (outcome env).1
unfolding outcome
outcome_lem env = ground (arith, failed_not_sent)

stored_lem :
    (n : ℤ) (a : AlertRecord)
    → (a.status ≡ "sent") ⊎ (a.status ≡ "failed")
    → stored n a ≡ record a { id = n }
stored_lem n a (inl h) = rw h refl
stored_lem n a (inr h) = rw h refl

-- A goroutine adds exactly one record to the log of a lawful store, and changes no site state. The
-- record has the site, the type and the payload of the alert, the threshold and the serial number
-- of the extra record, the time of the sending and the name of the notifier; its status is sent
-- exactly where a call of Notify succeeds, and failed elsewhere. Notify is called once where the
-- first call succeeds or the shutdown comes before the second, and twice elsewhere.
pub send_one_lem :
    {S : Type 0} (store : Storage S) (law : Lawful store) (payload_json : Alert → String)
    (env : Attempts) (x : Send) (now : Time) (s : S)
    → (n : ℤ) × (status : String) × (law.log (send_one payload_json (some store) env x now s)
        ≡ law.log s
          ++ record {
            id = n;
            site_name = x.alert.site_name;
            alert_type = x.alert.type;
            threshold = x.extra.threshold;
            cert_serial = x.extra.cert_serial;
            payload = payload_json x.alert;
            sent_at = now;
            notifier = name x.notifier;
            status = status;
          }
            ∷ [])
      × ((status ≡ "sent") ↔ Succeeds env)
      × ((status ≡ "sent") ⊎ (status ≡ "failed"))
      × AreCallsOf env (outcome env).1
      × ((site : String)
          → law.state_of (send_one payload_json (some store) env x now s) site
            ≡ law.state_of s site)
unfolding send_one alert_record
send_one_lem store law payload_json env x now s =
    let (sent, either, calls) = outcome_lem env in
    let a = alert_record payload_json (name x.notifier) x.alert x.extra (outcome env).0 now in
    let (n, e) = law.append a s in
    (
      n,
      (outcome env).0,
      e ∙ ap (λ r. law.log s ++ r ∷ []) (stored_lem n a either),
      sent,
      either,
      calls,
      λ site. law.append_state a s site,
    )
