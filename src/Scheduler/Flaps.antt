-- ===== src/Scheduler/Flaps.antt =====
-- One result as the up/down machine of a site sees it.
use domainturva.Prelude.{
  String, ◌==◌, ==-eq-false, eq_iff, ◌≡◌, ◌≢◌, refl, sym, ap, ◌∙◌, inl, inr, Bool, true, false,
  ◌&&◌, List, [], ◌∷◌, map, filter, All, arith,
}
use domainturva.Time.{Time}
use domainturva.Notifier.{Alert}
use domainturva.Checker.{CheckResult}
use domainturva.Alerting.{DispatchableAlert}
use domainturva.Alerting.Quiet.{is_flap_type, IsQuiet}
use domainturva.Alerting.Http.{AlertWithMeta}
use domainturva.Alerting.Http.Machine.{types_of}
use domainturva.Alerting.Http.Fields.{IsFlapAlert}

-- An alert that says that this site went down or recovered.
abbrev pub is_flap : String → Alert → Bool
is_flap n a = a.site_name == n && is_flap_type a.type

-- The types of such alerts, in order.
abbrev pub flaps : String → List DispatchableAlert → List String
flaps n das = map (λ da. da.alert.type) (filter (λ da. is_flap n da.alert) das)

abbrev pub project : AlertWithMeta → DispatchableAlert
project a = record { alert = a.alert; threshold = a.threshold; cert_serial = a.cert_serial }

module _ (n : String) where
  pub flaps_none :
      (alerts : List AlertWithMeta)
      → All (λ a. is_flap n a.alert ≡ false) alerts
      → flaps n (map project alerts) ≡ []
  flaps_none [] h = refl
  flaps_none (a ∷ alerts) (e, h) = rw e (flaps_none alerts h)

  pub flaps-All :
      (alerts : List AlertWithMeta)
      → All (λ a. is_flap n a.alert ≡ true) alerts
      → flaps n (map project alerts) ≡ types_of alerts
  flaps-All [] h = refl
  flaps-All (a ∷ alerts) (e, h) = rw e (ap (λ ts. a.alert.type ∷ ts) (flaps-All alerts h))

  pub not_flap_of_IsQuiet : (a : AlertWithMeta) → IsQuiet a → is_flap n a.alert ≡ false
  not_flap_of_IsQuiet a q = ground arith

module _ (r : CheckResult) (now : Time) (n : String) (a : AlertWithMeta)
    (h : IsFlapAlert r now a) where
  pub flap_of_IsFlapAlert : r.site_name ≡ n → is_flap n a.alert ≡ true
  flap_of_IsFlapAlert e = elim h.3 [ inl (t, _) ↦ flap (rw t) | inr (t, _) ↦ flap (rw t) ]
    where
      flap : is_flap_type a.alert.type ≡ true → is_flap n a.alert ≡ true
      flap t = rw ((eq_iff a.alert.site_name n).1 (h.0 ∙ e), t)

  pub not_flap_of_other : r.site_name ≢ n → is_flap n a.alert ≡ false
  not_flap_of_other ne = rw (==-eq-false a.alert.site_name n (λ e. ne (sym h.0 ∙ e)))
