-- ===== src/Scheduler/Sends.antt =====
-- What the goroutines that `process` starts have to send, and what they write.
use domainturva.Prelude.{
  All-append, ℤ, String, ◌≡◌, refl, sym, subst, ◌≤ℤ◌, some, List, [], ◌∷◌, ◌++◌, map, All, Any, inl,
  inr, Dict, lookup, Option-cases,
}
use domainturva.Time.{Time}
use domainturva.Storage.{AlertRecord, Storage}
use domainturva.Storage.Lawful.{Lawful}
use domainturva.Notifier.{Alert}
use domainturva.Notifier.Backend.{Backend, name}
use domainturva.Notifier.Dispatcher.{Send, Attempts, outcome, dispatch, send_one, alert_record}
use domainturva.Config.{Routing, notifiers_for}
use domainturva.Alerting.{DispatchableAlert, alerts_for_dispatch}
use domainturva.Alerting.Http.{AlertWithMeta, Outcome}
use domainturva.Alerting.Expiry.Search.{IsSent}
use domainturva.Scheduler.{extra_record, dispatch_all}

-- A claim about an alert with its threshold and its key.
abbrev pub Claim : Type 1
Claim = Alert → ℤ → String → Type 0

abbrev pub OfMeta : Claim → AlertWithMeta → Type 0
OfMeta P a = P a.alert a.threshold a.cert_serial

abbrev pub OfDispatchable : Claim → DispatchableAlert → Type 0
OfDispatchable P a = P a.alert a.threshold a.cert_serial

abbrev pub OfSend : Claim → Send → Type 0
OfSend P x = P x.alert x.extra.threshold x.extra.cert_serial

module _ (P : Claim) where
  dispatch-All :
      (notifiers : Dict Backend) (a : Alert) (names : List String) (extra : AlertRecord)
      → P a extra.threshold extra.cert_serial
      → All (OfSend P) (dispatch notifiers a names extra)
  unfolding dispatch
  dispatch-All notifiers a [] extra p = tt
  dispatch-All notifiers a (n ∷ names) extra p = elim (Option-cases (lookup n notifiers)) [
    | inl missing ↦ rw (missing, dispatch) (dispatch-All notifiers a names extra p)
    | inr (b, found) ↦ rw (found, dispatch) (p, dispatch-All notifiers a names extra p)
  ]

  pub dispatch_all-All :
      (routing : Routing) (notifiers : Dict Backend) (das : List DispatchableAlert)
      → All (OfDispatchable P) das
      → All (OfSend P) (dispatch_all routing notifiers das)
  unfolding dispatch_all
  dispatch_all-All routing notifiers [] h = tt
  dispatch_all-All routing notifiers (da ∷ das) (p, h) =
      All-append (OfSend P)
        (dispatch notifiers da.alert (notifiers_for routing da.alert.type) (extra_record da)) _
        (dispatch-All notifiers da.alert _ (extra_record da) p)
        (dispatch_all-All routing notifiers das h)

  map-All :
      (more : List AlertWithMeta)
      → All (OfMeta P) more
      → All (OfDispatchable P) (
          map
            (λ a. record { alert = a.alert; threshold = a.threshold; cert_serial = a.cert_serial })
            more)
  map-All [] h = tt
  map-All (a ∷ more) (p, h) = (p, map-All more h)

  pub alerts_for_dispatch-All :
      (o : Outcome) → All (OfMeta P) o.alerts → All (OfDispatchable P) (alerts_for_dispatch o)
  unfolding alerts_for_dispatch
  alerts_for_dispatch-All o h = map-All o.alerts h

Any-append_right {ℓ} :
    {A : Type ℓ} (P : A → Type 0) (xs : List A) {x : A} → P x → Any P (xs ++ x ∷ [])
Any-append_right P [] p = inl p
Any-append_right P (y ∷ xs) p = inr (Any-append_right P xs p)

pub Any-append_left {ℓ} :
    {A : Type ℓ} (P : A → Type 0) (xs ys : List A) → Any P xs → Any P (xs ++ ys)
Any-append_left P (x ∷ xs) ys (inl p) = inl p
Any-append_left P (x ∷ xs) ys (inr h) = inr (Any-append_left P xs ys h)
Any-append_left P [] ys h = absurd h

module _ {S : Type 0} (store : Storage S) (law : Lawful store) (payload_json : Alert → String) where
  -- A goroutine that ends well leaves a record in the log that says so.
  pub send_one-IsSent :
      (env : Attempts) (x : Send) (since t : Time) (s : S)
      → (outcome env).0 ≡ "sent"
      → since ≤ℤ t
      → Any
          (IsSent x.alert.site_name x.alert.type since x.extra.threshold x.extra.cert_serial)
          (law.log (send_one payload_json (some store) env x t s))
  unfolding send_one
  send_one-IsSent env x since t s sent recent =
      let (n, e) =
        law.append (alert_record payload_json (name x.notifier) x.alert x.extra (outcome env).0 t)
          s in
      subst
        (Any (IsSent x.alert.site_name x.alert.type since x.extra.threshold x.extra.cert_serial))
        (sym e)
        (Any-append_right
          (IsSent x.alert.site_name x.alert.type since x.extra.threshold x.extra.cert_serial)
          (law.log s) ((refl, refl, recent), refl, refl, rw sent))
