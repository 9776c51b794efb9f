-- ===== src/Alerting/Http/Machine.antt =====
-- The contract of `decideHTTP`: a machine over what is known of a site, with no record in sight.
use domainturva.Prelude.{
  ℤ, String, ◌==◌, ==-eq-true, ◌≡◌, refl, ap, Bool, true, false, ◌||◌, List, [], ◌∷◌, map, arith,
  Bool-cases, inl, inr, if◌then◌else◌,
}
use domainturva.Time.{Time}
use domainturva.Storage.{SiteState}
use domainturva.Notifier.{type_down, type_recovered}
use domainturva.Checker.{CheckResult, status_up, status_down, status_unknown}
use domainturva.Alerting.Http.{
  AlertWithMeta, decide_http, decide_up, decide_down, down_alert, recovered_alert,
}

-- `other` is a stored status that the program never writes.
pub data Phase : Type 0 where
  unknown up down other : Phase

pub data Event : Type 0 where
  went_down recovered : Event

abbrev pub phase_of : String → Phase
phase_of status =
    if status == status_down
    then down
    else if status == status_up
    then up
    else if status == status_unknown || status == ""
    then unknown
    else other

-- The next phase and the events of one check; the flag says that the check succeeded.
abbrev pub observe : Phase → Bool → Phase × List Event
observe down true = (up, recovered ∷ [])
observe _ true = (up, [])
observe down false = (down, [])
observe unknown false = (down, [])
observe _ false = (down, went_down ∷ [])

abbrev pub event_type : Event → String
event_type went_down = type_down
event_type recovered = type_recovered

abbrev pub types_of : List AlertWithMeta → List String
types_of = map (λ a. a.alert.type)

abbrev pub succeeded : CheckResult → Bool
succeeded r = r.status == status_up

recovered_alert-type :
    (prev : SiteState) (r : CheckResult) (now : Time)
    → (recovered_alert prev r now).alert.type ≡ type_recovered
unfolding recovered_alert
recovered_alert-type prev r now = refl

down_alert-type :
    (r : CheckResult) (n : ℤ) (now : Time) → (down_alert r n now).alert.type ≡ type_down
unfolding down_alert
down_alert-type r n now = refl

-- What the machine asks of a new state and the alerts that come with it.
abbrev Implements : Phase × List Event → SiteState × List AlertWithMeta → Type 0
Implements (phase, events) (ns, alerts) =
    (phase_of ns.status ≡ phase) × (types_of alerts ≡ map event_type events)

decide_up-Implements :
    (prev : SiteState) (r : CheckResult) (now : Time)
    → Implements (observe (phase_of prev.status) true) (decide_up prev r now)
unfolding decide_up
decide_up-Implements prev r now = elim (Bool-cases (prev.status == status_down)) [
  | inl d ↦ rw d (refl, ap (λ t. t ∷ []) (recovered_alert-type prev r now))
  | inr nd ↦ rw nd (elim (Bool-cases (prev.status == status_up)) [
    | inl u ↦ rw u (refl, refl)
    | inr nu ↦ rw nu (elim (Bool-cases (prev.status == status_unknown || prev.status == "")) [
      | inl k ↦ rw k (refl, refl)
      | inr nk ↦ rw nk (refl, refl)
    ])
  ])
]

unknown_not_up :
    (s : String) → (s == status_unknown || s == "") ≡ true → (s == status_up) ≡ true → ⊥
unknown_not_up s k u = let e : s ≡ status_up = ==-eq-true s status_up u in cc (rw e at k)

decide_down-Implements :
    (prev : SiteState) (r : CheckResult) (now : Time)
    → Implements (observe (phase_of prev.status) false) (decide_down prev r now)
unfolding decide_down
decide_down-Implements prev r now = elim (Bool-cases (prev.status == status_down)) [
  | inl d ↦ rw d (rw d, refl)
  | inr nd ↦ rw nd (elim (Bool-cases (prev.status == status_unknown || prev.status == "")) [
    | inl k ↦ rw k (elim (Bool-cases (prev.status == status_up)) [
      | inl u ↦ absurd (unknown_not_up prev.status k u)
      | inr nu ↦ rw nu (refl, refl)
    ])
    | inr nk ↦ rw nk (elim (Bool-cases (prev.status == status_up)) [
      | inl u ↦ rw u (refl, ap (λ t. t ∷ []) (down_alert-type r _ now))
      | inr nu ↦ rw nu (refl, ap (λ t. t ∷ []) (down_alert-type r _ now))
    ])
  ])
]

-- decideHTTP implements the abstract up/down machine: the phase of the new status and the types of
-- the alerts are those that the machine gives for the phase of the old status.
pub decide_http-observe :
    (prev : SiteState) (r : CheckResult) (now : Time)
    → let (ns, alerts) = decide_http prev r now in
      let (phase, events) = observe (phase_of prev.status) (succeeded r) in
      (phase_of ns.status ≡ phase) × (types_of alerts ≡ map event_type events)
unfolding decide_http
decide_http-observe prev r now =
    ground (arith, decide_up-Implements prev r now, decide_down-Implements prev r now)
