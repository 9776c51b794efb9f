-- ===== src/Scheduler/Raised.antt =====
-- From a decision that the alert log may hold back to the goroutines that `process` starts.
use domainturva.Prelude.{
  ℤ, String, ◌≡◌, refl, sym, ap, subst, ◌∙◌, inl, inr, List, [], ◌∷◌, All, Any, Any-map, Dict,
  Result, ok,
}
use domainturva.Time.{Time, TimeFormat}
use domainturva.Storage.{SiteState, AlertRecord, Storage}
use domainturva.Storage.Lawful.{Lawful}
use domainturva.Notifier.Backend.{Backend}
use domainturva.Notifier.Dispatcher.{Send}
use domainturva.Checker.{CheckResult}
use domainturva.Config.{Routing}
use domainturva.Alerting.{process, alerts_for_dispatch}
use domainturva.Alerting.Http.{AlertWithMeta, Outcome}
use domainturva.Alerting.Expiry.{Engine}
use domainturva.Alerting.Expiry.Search.{IsSent}
use domainturva.Alerting.Expiry.Ssl.{RaisedUnless}
use domainturva.Scheduler.{settle, process_result, dispatch_all}
use domainturva.Scheduler.Sends.{Claim, OfMeta, OfSend, dispatch_all-All, alerts_for_dispatch-All}

-- What identifies an expiry alert.
abbrev pub IsFor : String → String → ℤ → String → Claim
IsFor site type threshold key a th k =
    (a.site_name ≡ site) × (a.type ≡ type) × (th ≡ threshold) × (k ≡ key)

module _ (P : AlertRecord → Type 0) (log : List AlertRecord) (a : AlertWithMeta) where
  pub RaisedUnless-All :
      (Q : Claim) (result : Result (List AlertWithMeta))
      → RaisedUnless P log a result
      → OfMeta Q a
      → (alerts : List AlertWithMeta) × (result ≡ ok alerts) × All (OfMeta Q) alerts
  RaisedUnless-All Q result (inl (_, e)) q = ([], e, tt)
  RaisedUnless-All Q result (inr (_, e)) q = (a ∷ [], e, (q, tt))

  pub RaisedUnless-nil :
      (result : Result (List AlertWithMeta))
      → RaisedUnless P log a result
      → Any P log
      → result ≡ ok []
  RaisedUnless-nil result (inl (_, e)) h = e
  RaisedUnless-nil result (inr (n, _)) h = absurd (n h)

pub process_result_lem :
    (fmt : TimeFormat) {S : Type 0} (store : Storage S) (e : Engine) (routing : Routing)
    (notifiers : Dict Backend) (r : CheckResult) (now : Time) (s : S) {o : Outcome}
    → process fmt store e s r now ≡ ok o
    → process_result fmt store e routing notifiers r now s ≡ (
      (store.upsert_site_state o.new_state s).0,
      dispatch_all routing notifiers (alerts_for_dispatch o),
    )
unfolding process_result
process_result_lem fmt store e routing notifiers r now s p = rw (p, settle)

-- Equal keys ask for the same records.
pub Any-IsSent :
    {n n' type type' key key' : String} {th th' : ℤ} (since : Time)
    → n ≡ n'
    → type ≡ type'
    → th ≡ th'
    → key ≡ key'
    → (log : List AlertRecord) → Any (IsSent n type since th key) log
    → Any (IsSent n' type' since th' key') log
Any-IsSent since p q u v log =
    Any-map _ _ (λ a h. ((h.0.0 ∙ p, h.0.1 ∙ q, h.0.2), h.1 ∙ u, h.2 ∙ v, h.3)) log

-- No alerts start no goroutine.
no_sends :
    (routing : Routing) (notifiers : Dict Backend) (st : SiteState)
    → dispatch_all routing notifiers (alerts_for_dispatch (record { new_state = st; alerts = [] }))
      ≡ []
unfolding dispatch_all alerts_for_dispatch
no_sends routing notifiers st = refl

pub All-at : (P : Send → Type 0) (xs : List Send) (x : Send) → All P xs → Any (λ y. y ≡ x) xs → P x
All-at P (y ∷ ys) x (p, h) (inl e) = subst P e p
All-at P (y ∷ ys) x (p, h) (inr k) = All-at P ys x h k
All-at P [] x h k = absurd k

module _ (fmt : TimeFormat) {S : Type 0} (store : Storage S) (law : Lawful store) (e : Engine)
    (routing : Routing) (notifiers : Dict Backend) where
  abbrev pub sends : CheckResult → Time → S → List Send
  sends r now s = (process_result fmt store e routing notifiers r now s).1

  -- A decision that is raised unless the log speaks against it, and its way through `Process`.
  module _ (r : CheckResult) (now : Time) (s : S) (st : SiteState) (P : AlertRecord → Type 0)
      (a : AlertWithMeta) (decision : Result (List AlertWithMeta))
      (raised : RaisedUnless P (law.log s) a decision)
      (goes : (alerts : List AlertWithMeta)
        → decision ≡ ok alerts
        → process fmt store e s r now ≡ ok (record { new_state = st; alerts = alerts })) where
    pub sends-All : (Q : Claim) → OfMeta Q a → All (OfSend Q) (sends r now s)
    sends-All Q q =
        let (alerts, d, h) = RaisedUnless-All P (law.log s) a Q decision raised q in
        let o : Outcome = record { new_state = st; alerts = alerts } in
        let eq = process_result_lem fmt store e routing notifiers r now s (goes alerts d) in
        subst (All (OfSend Q)) (sym (ap (λ p. p.1) eq)) (
          dispatch_all-All Q routing notifiers (alerts_for_dispatch o)
            (alerts_for_dispatch-All Q o h))

    pub sends-nil : Any P (law.log s) → sends r now s ≡ []
    sends-nil h =
        let d = RaisedUnless-nil P (law.log s) a decision raised h in
        let eq = process_result_lem fmt store e routing notifiers r now s (goes [] d) in
        ap (λ p. p.1) eq ∙ no_sends routing notifiers st
