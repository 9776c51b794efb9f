-- ===== src/Scheduler/Processed.antt =====
-- What `Process` returns, whatever the type of the result and whatever the store answers to searches;
-- and that it succeeds over a lawful store.
use domainturva.Prelude.{
  ◌==◌, ==-eq-true, ==-eq-false, ne_of_==-eq-false, ◌≡◌, ◌≢◌, refl, sym, ap, ◌∙◌, ◌⊎◌, inl, inr,
  Bool, Option, none, some, List, map, All, Result, ok, err, ◌>>=◌, OnOk, Bool-cases,
}
use domainturva.Time.{Time, TimeFormat}
use domainturva.Storage.{SiteState, Storage}
use domainturva.Storage.Lawful.{Lawful}
use domainturva.Storage.Memory.{comma_ok, zero_site_state}
use domainturva.Checker.{CheckResult, check_http, check_ssl, check_domain}
use domainturva.Alerting.{baseline, process}
use domainturva.Alerting.Steps.{process-http, process-ssl, process-domain, process-other}
use domainturva.Alerting.Quiet.{IsQuiet, IsQuietly, decide_ssl-IsQuietly, decide_domain-IsQuietly}
use domainturva.Alerting.Succeeds.{decide_ssl-Succeeds, decide_domain-Succeeds}
use domainturva.Alerting.Http.{AlertWithMeta, Outcome}
use domainturva.Alerting.Http.Machine.{
  Phase, unknown, phase_of, observe, event_type, types_of, succeeded, decide_http-observe,
}
use domainturva.Alerting.Http.Fields.{
  IsFlapAlert, decide_http-Advances, decide_http_alerts-IsFlapAlert,
}
use domainturva.Alerting.Expiry.{Engine}

-- What is known of a site from its stored state.
abbrev pub phase_in : Option SiteState → Phase
phase_in none = unknown
phase_in (some st) = phase_of st.status

-- A stored state, if any, is that of the site of `r`.
abbrev pub IsOf : CheckResult → Option SiteState → Type 0
IsOf r o = (st : SiteState) → o ≡ some st → st.site_name ≡ r.site_name

module _ (r : CheckResult) (now : Time) where
  pub baseline-site :
      (o : Option SiteState)
      → IsOf r o
      → (baseline r now (comma_ok zero_site_state o).0).site_name ≡ r.site_name
  unfolding baseline
  baseline-site none h = refl
  baseline-site (some st) h = elim (Bool-cases (st.site_name == "")) [
    | inl empty ↦ rw empty
    | inr named ↦ rw named (h st refl)
  ]

  pub baseline-phase :
      (o : Option SiteState)
      → IsOf r o
      → r.site_name ≢ ""
      → phase_of (baseline r now (comma_ok zero_site_state o).0).status ≡ phase_in o
  unfolding baseline
  baseline-phase none h named = refl
  baseline-phase (some st) h named =
      rw (==-eq-false st.site_name "" (λ e. named (sym (h st refl) ∙ e)))

-- What `Process` returns for an HTTP result, and for one of another type.
abbrev pub MovesHttp : CheckResult → Time → Phase → Outcome → Type 0
MovesHttp r now p o =
    (phase_of o.new_state.status ≡ (observe p (succeeded r)).0)
    × (types_of o.alerts ≡ map event_type (observe p (succeeded r)).1)
    × All (IsFlapAlert r now) o.alerts

abbrev pub MovesOther : Phase → Outcome → Type 0
MovesOther p o = (phase_of o.new_state.status ≡ p) × All IsQuiet o.alerts

module _ (r : CheckResult) (now : Time) where
  -- What becomes of the state `prev`.
  abbrev pub HasMoved : SiteState → Outcome → Type 0
  HasMoved prev o =
      (o.new_state.site_name ≡ prev.site_name)
      × (((r.type ≡ check_http) × MovesHttp r now (phase_of prev.status) o)
          ⊎ ((r.type ≢ check_http) × MovesOther (phase_of prev.status) o))

  -- A decision whose alerts are quiet.
  decided :
      (prev new_state : SiteState) (d : Result (List AlertWithMeta))
      → r.type ≢ check_http
      → new_state.site_name ≡ prev.site_name
      → new_state.status ≡ prev.status
      → IsQuietly d
      → OnOk
          (HasMoved prev)
          (d >>= λ alerts. ok (record { new_state = new_state; alerts = alerts }))
  decided prev new_state (err message) ne name status quiet = tt
  decided prev new_state (ok alerts) ne name status quiet =
      (name, inr (ne, (ap phase_of status, quiet)))

  module _ (fmt : TimeFormat) {S : Type 0} (store : Storage S) (e : Engine) (s : S) where
    pub process-HasMoved :
        (got : SiteState × Bool)
        → store.get_site_state r.site_name s ≡ ok got
        → OnOk (HasMoved (baseline r now got.0)) (process fmt store e s r now)
    unfolding process
    process-HasMoved got h =
        let prev = baseline r now got.0 in
        elim (Bool-cases (r.type == check_http)) [
          | inl http ↦
              let (phase, types) = decide_http-observe prev r now in
              rw (h, http)
                (
                  (decide_http-Advances prev r now).site_kept,
                  inl (
                    ==-eq-true _ _ http,
                    (phase, types, decide_http_alerts-IsFlapAlert prev r now),
                  ),
                )
          | inr other ↦
              let ne = ne_of_==-eq-false _ _ other in
              elim (Bool-cases (r.type == check_ssl)) [
                | inl ssl ↦
                    rw (h, other, ssl)
                      (decided prev _ _ ne refl refl (decide_ssl-IsQuietly fmt store e s r now))
                | inr not_ssl ↦ elim (Bool-cases (r.type == check_domain)) [
                  | inl domain ↦
                      rw (h, other, not_ssl, domain)
                        (decided prev _ _ ne refl refl
                          (decide_domain-IsQuietly fmt store e s r now))
                  | inr not_domain ↦ rw (h, other, not_ssl, not_domain) (refl, inr (ne, (refl, tt)))
                ]
              ]
        ]

    pub process-fails :
        {message : _}
        → store.get_site_state r.site_name s ≡ err message
        → process fmt store e s r now ≡ err message
    unfolding process
    process-fails h = rw h

    -- A lawful store lets `Process` succeed.
    pub process-succeeds : Lawful store → (o : Outcome) × (process fmt store e s r now ≡ ok o)
    process-succeeds law = elim (Bool-cases (r.type == check_http)) [
      | inl http ↦ (_, process-http fmt store law e s r now (==-eq-true _ _ http))
      | inr other ↦ elim (Bool-cases (r.type == check_ssl)) [
        | inl ssl ↦
            let (alerts, d) = decide_ssl-Succeeds fmt store law e s r now in
            (_, process-ssl fmt store law e s r now (==-eq-true _ _ ssl) d)
        | inr not_ssl ↦ elim (Bool-cases (r.type == check_domain)) [
          | inl domain ↦
              let (alerts, d) = decide_domain-Succeeds fmt store law e s r now in
              (_, process-domain fmt store law e s r now (==-eq-true _ _ domain) d)
          | inr not_domain ↦ (_, process-other fmt store law e s r now other not_ssl not_domain)
        ]
      ]
    ]
