-- ===== src/Alerting/Http/Fields.antt =====
-- What `decideHTTP` does to the fields of the state, and what its alerts say.
use domainturva.Prelude.{
  ℤ, pos, ◌+ℤ◌, wrap64, ◌==◌, ◌≡◌, refl, ◌⊎◌, Bool, true, false, ◌||◌, All, Bool-cases, inl, inr,
  if◌then◌else◌,
}
use domainturva.Time.{Time}
use domainturva.Storage.{SiteState}
use domainturva.Notifier.{severity_info, severity_critical, type_down, type_recovered}
use domainturva.Checker.{CheckResult, status_up, status_down, status_unknown}
use domainturva.Alerting.Http.{
  AlertWithMeta, decide_http, decide_up, decide_down, down_alert, recovered_alert,
}
use domainturva.Alerting.Http.Machine.{Phase, unknown, up, down, other, phase_of, succeeded}

abbrev pub same_phase : Phase → Phase → Bool
same_phase unknown unknown = true
same_phase up up = true
same_phase down down = true
same_phase other other = true
same_phase _ _ = false

-- The state after a check: what is kept, what is new, and when the status last changed.
pub record Advances (prev : SiteState) (r : CheckResult) (now : Time) (ns : SiteState)
    : Type 0 where
  pub site_kept : ns.site_name ≡ prev.site_name
  pub checked : ns.last_check_at ≡ now
  pub counted :
      ns.consecutive_failures
      ≡ (if succeeded r then pos 0 else wrap64 (prev.consecutive_failures +ℤ pos 1))
  pub changed : ns.last_status_change_at ≡ (
      if same_phase (phase_of ns.status) (phase_of prev.status)
      then prev.last_status_change_at
      else now)
  pub explained : ns.last_error ≡ (if succeeded r then "" else r.error)

module _ (prev : SiteState) (r : CheckResult) (now : Time) where
  decide_up-Advances : succeeded r ≡ true → Advances prev r now (decide_up prev r now).0
  unfolding decide_up
  decide_up-Advances h = elim (Bool-cases (prev.status == status_down)) [
    | inl d ↦ rw d (record {
      site_kept = refl;
      checked = refl;
      counted = rw h;
      changed = rw d;
      explained = rw h;
    })
    | inr nd ↦ rw nd (elim (Bool-cases (prev.status == status_up)) [
      | inl u ↦ rw u (record {
        site_kept = refl;
        checked = refl;
        counted = rw h;
        changed = rw (nd, u);
        explained = rw h;
      })
      | inr nu ↦ rw nu (record {
        site_kept = refl;
        checked = refl;
        counted = rw h;
        changed =
            rw (nd, nu)
              (elim (Bool-cases (prev.status == status_unknown || prev.status == "")) [
                | inl k ↦ rw k
                | inr nk ↦ rw nk
              ]);
        explained = rw h;
      })
    ])
  ]

  decide_down-Advances : succeeded r ≡ false → Advances prev r now (decide_down prev r now).0
  unfolding decide_down
  decide_down-Advances h = elim (Bool-cases (prev.status == status_down)) [
    | inl d ↦ rw d (record {
      site_kept = refl;
      checked = refl;
      counted = rw h;
      changed = rw d;
      explained = rw h;
    })
    | inr nd ↦ rw nd (elim (Bool-cases (prev.status == status_unknown || prev.status == "")) [
      | inl k ↦ rw k (record {
        site_kept = refl;
        checked = refl;
        counted = rw h;
        changed =
            rw (nd, k)
              (elim (Bool-cases (prev.status == status_up)) [ inl u ↦ rw u | inr nu ↦ rw nu ]);
        explained = rw h;
      })
      | inr nk ↦ rw nk (record {
        site_kept = refl;
        checked = refl;
        counted = rw h;
        changed =
            rw (nd, nk)
              (elim (Bool-cases (prev.status == status_up)) [ inl u ↦ rw u | inr nu ↦ rw nu ]);
        explained = rw h;
      })
    ])
  ]

  -- One HTTP result moves every field of the state as it should: the site stays, the check is
  -- stamped, failures are counted and a success clears them, the error is the one of the result,
  -- and the time of the last change is the time of this check exactly where the phase is a new
  -- one.
  pub decide_http-Advances : Advances prev r now (decide_http prev r now).0
  unfolding decide_http
  decide_http-Advances = elim (Bool-cases (succeeded r)) [
    | inl h ↦ rw h (decide_up-Advances h)
    | inr h ↦ rw h (decide_down-Advances h)
  ]

-- What an alert of the up/down machine says.
abbrev pub IsFlapAlert : CheckResult → Time → AlertWithMeta → Type 0
IsFlapAlert r now a =
    (a.alert.site_name ≡ r.site_name)
    × (a.alert.at ≡ now)
    × (a.threshold ≡ pos 0)
    × (((a.alert.type ≡ type_down) × (a.alert.severity ≡ severity_critical))
        ⊎ ((a.alert.type ≡ type_recovered) × (a.alert.severity ≡ severity_info)))

recovered_alert-IsFlapAlert :
    (prev : SiteState) (r : CheckResult) (now : Time)
    → IsFlapAlert r now (recovered_alert prev r now)
unfolding recovered_alert
recovered_alert-IsFlapAlert prev r now = (refl, refl, refl, inr (refl, refl))

down_alert-IsFlapAlert :
    (r : CheckResult) (n : ℤ) (now : Time) → IsFlapAlert r now (down_alert r n now)
unfolding down_alert
down_alert-IsFlapAlert r n now = (refl, refl, refl, inl (refl, refl))

-- Every alert of decideHTTP is for the site of the result, at the time of the check and without a
-- threshold; it is a critical alert that the site is down or an informational one that it
-- recovered.
pub decide_http_alerts-IsFlapAlert :
    (prev : SiteState) (r : CheckResult) (now : Time)
    → All (IsFlapAlert r now) (decide_http prev r now).1
unfolding decide_http decide_up decide_down
decide_http_alerts-IsFlapAlert prev r now = elim (Bool-cases (succeeded r)) [
  | inl h ↦ rw h (elim (Bool-cases (prev.status == status_down)) [
    | inl d ↦ rw d (recovered_alert-IsFlapAlert prev r now, tt)
    | inr nd ↦
        rw nd (elim (Bool-cases (prev.status == status_up)) [ inl u ↦ rw u tt | inr nu ↦ rw nu tt ])
  ])
  | inr h ↦ rw h (elim (Bool-cases (prev.status == status_down)) [
    | inl d ↦ rw d tt
    | inr nd ↦ rw nd (elim (Bool-cases (prev.status == status_unknown || prev.status == "")) [
      | inl k ↦ rw k tt
      | inr nk ↦ rw nk (down_alert-IsFlapAlert r _ now, tt)
    ])
  ])
]
