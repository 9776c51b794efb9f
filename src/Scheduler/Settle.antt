-- ===== src/Scheduler/Settle.antt =====
-- One result, over a store that keeps site states: what becomes of the state of each site, and which alerts of a
-- site going down or recovering come of it.
use domainturva.Prelude.{
  String, ◌==◌, ==-eq-true, ==-eq-false, ne_of_==-eq-false, eq_iff, ◌≡◌, ◌≢◌, sym, ap, subst, ◌∙◌,
  ◌⊎◌, inl, inr, Option, some, List, [], map, All-map, Result-cases, ok, err, OnOk-eq, Bool-cases,
}
use domainturva.Time.{Time, TimeFormat}
use domainturva.Storage.{SiteState, Storage}
use domainturva.Storage.Memory.{comma_ok, zero_site_state}
use domainturva.Storage.Lawful.{Lawful}
use domainturva.Storage.States.{KeepsStates, Lawful-KeepsStates}
use domainturva.Checker.{CheckResult, check_http}
use domainturva.Alerting.{baseline, process, DispatchableAlert, alerts_for_dispatch}
use domainturva.Alerting.Http.{Outcome}
use domainturva.Alerting.Http.Machine.{Phase, phase_of, observe, event_type, succeeded}
use domainturva.Alerting.Expiry.{Engine}
use domainturva.Scheduler.{settle}
use domainturva.Scheduler.Flaps.{
  project, flaps, flaps_none, flaps-All, not_flap_of_IsQuiet, flap_of_IsFlapAlert,
  not_flap_of_other,
}
use domainturva.Scheduler.Processed.{
  phase_in, IsOf, baseline-site, baseline-phase, MovesHttp, MovesOther, HasMoved, process-HasMoved,
  process-fails, process-succeeds,
}

module _ {S : Type 0} (state_of : S → String → Option SiteState) where
  -- Each site's state is stored under its own name.
  abbrev pub IsKeyed : S → Type 0
  IsKeyed s = (n : String) (st : SiteState) → state_of s n ≡ some st → st.site_name ≡ n

  abbrev pub phase_at : S → String → Phase
  phase_at s n = phase_in (state_of s n)

settle_ok :
    (fmt : TimeFormat) {S : Type 0} (store : Storage S) (e : Engine) (r : CheckResult) (now : Time)
    (s : S) {o : Outcome}
    → process fmt store e s r now ≡ ok o
    → settle fmt store e r now s ≡ ((store.upsert_site_state o.new_state s).0, map project o.alerts)
unfolding settle alerts_for_dispatch
settle_ok fmt store e r now s p = rw (p, settle)

pub settle_err :
    (fmt : TimeFormat) {S : Type 0} (store : Storage S) (e : Engine) (r : CheckResult) (now : Time)
    (s : S) {message : String}
    → process fmt store e s r now ≡ err message
    → settle fmt store e r now s ≡ (s, [])
unfolding settle
settle_err fmt store e r now s p = rw (p, settle)

module _ {S : Type 0} (store : Storage S) (keeps : KeepsStates store) (s : S) (x : SiteState) where
  abbrev put : S
  put = (store.upsert_site_state x s).0

  state_of-put_self : (n : String) → x.site_name ≡ n → keeps.state_of put n ≡ some (keeps.kept x)
  state_of-put_self n h = keeps.put_state x s n ∙ rw ((eq_iff x.site_name n).1 h)

  state_of-put_ne : (n : String) → x.site_name ≢ n → keeps.state_of put n ≡ keeps.state_of s n
  state_of-put_ne n h = keeps.put_state x s n ∙ rw (==-eq-false x.site_name n h)

  put-IsKeyed : IsKeyed keeps.state_of s → IsKeyed keeps.state_of put
  put-IsKeyed keyed n st h = elim (Bool-cases (x.site_name == n)) [
    | inl t ↦
        let same = ==-eq-true x.site_name n t in
        let e : keeps.kept x ≡ st = cc (state_of-put_self n same) in
        sym (ap (λ y. y.site_name) e) ∙ keeps.kept_name x ∙ same
    | inr f ↦ keyed n st (sym (state_of-put_ne n (ne_of_==-eq-false x.site_name n f)) ∙ h)
  ]

-- What one result does to the up/down machine of the site `n`: it moves it if it is an HTTP result
-- for `n`, and leaves it alone otherwise.
abbrev pub Observes : Phase → CheckResult → String → Phase → List String → Type 0
Observes before r n after types =
    ((r.site_name ≡ n)
      × (r.type ≡ check_http)
      × (after ≡ (observe before (succeeded r)).0)
      × (types ≡ map event_type (observe before (succeeded r)).1))
    ⊎ (((r.site_name ≢ n) ⊎ (r.type ≢ check_http)) × (after ≡ before) × (types ≡ []))

module _ {S : Type 0} (store : Storage S) (keeps : KeepsStates store) (s : S) (r : CheckResult)
    (now : Time) (n : String) (o : Outcome) (site : o.new_state.site_name ≡ r.site_name) (p : Phase)
    (moves : ((r.type ≡ check_http) × MovesHttp r now p o)
      ⊎ ((r.type ≢ check_http) × MovesOther p o)) where
  abbrev Observed : Type 0
  Observed =
      Observes (phase_at keeps.state_of s n) r n
        (phase_at keeps.state_of (put store keeps s o.new_state) n) (flaps n (map project o.alerts))

  same-Observes : r.site_name ≡ n → p ≡ phase_at keeps.state_of s n → Observed
  same-Observes same from =
      let stored = ap phase_in (state_of-put_self store keeps s o.new_state n (site ∙ same)) in
      elim moves [
        | inl (t, (phase, types, flap)) ↦ inl (
          same,
          t,
          stored
              ∙ ap phase_of (keeps.kept_status o.new_state)
              ∙ phase
              ∙ ap (λ q. (observe q (succeeded r)).0) from,
          flaps-All n o.alerts
                (All-map _ _ (λ a h. flap_of_IsFlapAlert r now n a h same) o.alerts flap)
              ∙ types
              ∙ ap (λ q. map event_type (observe q (succeeded r)).1) from,
        )
        | inr (t, (phase, quiet)) ↦ inr (
          inr t,
          stored ∙ ap phase_of (keeps.kept_status o.new_state) ∙ phase ∙ from,
          flaps_none n o.alerts (All-map _ _ (not_flap_of_IsQuiet n) o.alerts quiet),
        )
      ]

  other-Observes : r.site_name ≢ n → Observed
  other-Observes ne =
      let kept =
        ap phase_in (state_of-put_ne store keeps s o.new_state n (λ e. ne (sym site ∙ e))) in
      elim moves [
        | inl (t, (phase, types, flap)) ↦ inr (
          inl ne,
          kept,
          flaps_none n o.alerts
              (All-map _ _ (λ a h. not_flap_of_other r now n a h ne) o.alerts flap),
        )
        | inr (t, (phase, quiet)) ↦ inr (
          inl ne,
          kept,
          flaps_none n o.alerts (All-map _ _ (not_flap_of_IsQuiet n) o.alerts quiet),
        )
      ]

module _ (fmt : TimeFormat) {S : Type 0} (store : Storage S) (keeps : KeepsStates store)
    (e : Engine) (s : S) (keyed : IsKeyed keeps.state_of s) (r : CheckResult) (now : Time)
    (n : String) where
  -- What is true of the store and of the alerts after a result that was processed.
  abbrev pub Settled : S → List DispatchableAlert → Type 0
  Settled s' das =
      IsKeyed keeps.state_of s'
      × Observes (phase_at keeps.state_of s n) r n (phase_at keeps.state_of s' n) (flaps n das)

  settle-moved :
      (o : Outcome)
      → n ≢ ""
      → HasMoved r now
          (baseline r now (comma_ok zero_site_state (keeps.state_of s r.site_name)).0)
          o
      → Settled (put store keeps s o.new_state) (map project o.alerts)
  settle-moved o named (site, moves) =
      let stored = keeps.state_of s r.site_name in
      let is_of : IsOf r stored = keyed r.site_name in
      let site' = site ∙ baseline-site r now stored is_of in
      let phase = phase_of (baseline r now (comma_ok zero_site_state stored).0).status in
      (
        put-IsKeyed store keeps s o.new_state keyed,
        elim (Bool-cases (r.site_name == n)) [
          | inl t ↦
              let same = ==-eq-true r.site_name n t in
              same-Observes store keeps s r now n o site' phase moves same (
                baseline-phase r now stored is_of (λ e. named (sym same ∙ e))
                ∙ ap (phase_at keeps.state_of s) same)
          | inr f ↦
              other-Observes store keeps s r now n o site' phase moves
                (ne_of_==-eq-false r.site_name n f)
        ],
      )

  -- Where `Process` succeeds, the store has been read.
  settle-ok :
      (o : Outcome)
      → n ≢ ""
      → process fmt store e s r now ≡ ok o
      → let (s', das) = settle fmt store e r now s in Settled s' das
  settle-ok o named p = elim (keeps.reads r.site_name s) [
    | inr (message, failed) ↦ cc (process-fails r now fmt store e s failed, p)
    | inl read ↦
        let moved =
          OnOk-eq _ (process fmt store e s r now) (process-HasMoved r now fmt store e s _ read) p in
        subst (λ q. Settled q.0 q.1) (sym (settle_ok fmt store e r now s p))
          (settle-moved o named moved)
  ]

  -- A result either does what the machine says, or nothing.
  pub settle-cases :
      n ≢ ""
      → (let (s', das) = settle fmt store e r now s in Settled s' das)
        ⊎ (settle fmt store e r now s ≡ (s, []))
  settle-cases named = elim (Result-cases (process fmt store e s r now)) [
    | inr (o, p) ↦ inl (settle-ok o named p)
    | inl (message, p) ↦ inr (settle_err fmt store e r now s p)
  ]

module _ (fmt : TimeFormat) {S : Type 0} (store : Storage S) (law : Lawful store) (e : Engine)
    (s : S) (keyed : IsKeyed law.state_of s) (r : CheckResult) (now : Time) (n : String) where
  -- Over a lawful store that keeps each state under its own name, one result keeps it so; for a
  -- site with a name, an HTTP result of that site moves its stored phase and raises its up/down
  -- alerts as the abstract machine says, and any other result leaves its phase alone and raises no
  -- such alert for it.
  pub settle-Observes :
      n ≢ ""
      → let (s', das) = settle fmt store e r now s in
        IsKeyed law.state_of s'
        × Observes (phase_at law.state_of s n) r n (phase_at law.state_of s' n) (flaps n das)
  settle-Observes named =
      let (o, p) = process-succeeds r now fmt store e s law in
      settle-ok fmt store (Lawful-KeepsStates law) e s keyed r now n o named p
