-- ===== src/Scheduler/Traces.antt =====
-- Runs: results are processed one at a time, in any order and for any sites; between them the
-- goroutines write to the alert log and the domain checker to its cache.
use domainturva.Prelude.{
  String, ◌≡◌, ◌≢◌, refl, sym, ap, subst, ◌∙◌, ◌⊎◌, inl, inr, Bool, true, false, List, [], ◌∷◌,
  ◌++◌, map, filter-append, map-append,
}
use domainturva.Time.{Time, TimeFormat}
use domainturva.Storage.{AlertRecord, DomainCache, Storage}
use domainturva.Storage.States.{KeepsStates}
use domainturva.Notifier.{type_down, type_recovered}
use domainturva.Checker.{CheckResult}
use domainturva.Alerting.{DispatchableAlert}
use domainturva.Alerting.Http.Machine.{
  Phase, unknown, up, down, other, observe, event_type, succeeded,
}
use domainturva.Alerting.Expiry.{Engine}
use domainturva.Scheduler.{settle}
use domainturva.Scheduler.Flaps.{flaps, is_flap}
use domainturva.Scheduler.Processed.{phase_in}
use domainturva.Scheduler.Settle.{IsKeyed, phase_at, Observes, settle-cases}

-- One step of the running program, as far as the store sees it.
pub data Step : Type 0 where
  result : CheckResult → Time → Step
  recorded : AlertRecord → Step
  cached : DomainCache → Step

module _ (fmt : TimeFormat) {S : Type 0} (store : Storage S) (e : Engine) where
  unfoldable pub apply : Step → S → S × List DispatchableAlert
  apply (result r now) s = settle fmt store e r now s
  apply (recorded a) s = ((store.record_alert a s).0, [])
  apply (cached d) s = ((store.upsert_domain_cache d s).0, [])

  -- The alerts of a run, in order.
  unfoldable pub run : List Step → S → List DispatchableAlert
  unfolding apply
  run [] s = []
  run (x ∷ xs) s = let (s', das) = apply x s in das ++ run xs s'

-- Whether an up/down alert of this type may come next for a site in this phase.
abbrev pub Permits : Phase → String → Type 0
Permits unknown t = (t ≡ type_down) ⊎ (t ≡ type_recovered)
Permits down t = t ≡ type_recovered
Permits _ t = t ≡ type_down

abbrev pub Opposite : String → String → Type 0
Opposite t u = ((t ≡ type_down) × (u ≡ type_recovered)) ⊎ ((t ≡ type_recovered) × (u ≡ type_down))

-- From the second alert on each is the Opposite of the one before.
abbrev pub Follows : String → List String → Type 0
Follows t [] = Unit
Follows t (u ∷ us) = Opposite t u × Follows u us

abbrev pub Alternates : Phase → List String → Type 0
Alternates p [] = Unit
Alternates p (t ∷ ts) = Permits p t × Follows t ts

Alternates-Follows_down : (ts : List String) → Alternates down ts → Follows type_down ts
Alternates-Follows_down [] h = tt
Alternates-Follows_down (t ∷ ts) (p, h) = (inl (refl, p), h)

Alternates-Follows_up : (ts : List String) → Alternates up ts → Follows type_recovered ts
Alternates-Follows_up [] h = tt
Alternates-Follows_up (t ∷ ts) (p, h) = (inr (refl, p), h)

Alternates-unknown_down : (ts : List String) → Alternates down ts → Alternates unknown ts
Alternates-unknown_down [] h = tt
Alternates-unknown_down (t ∷ ts) (p, h) = (inr p, h)

Alternates-unknown_up : (ts : List String) → Alternates up ts → Alternates unknown ts
Alternates-unknown_up [] h = tt
Alternates-unknown_up (t ∷ ts) (p, h) = (inl p, h)

Alternates-other : (ts : List String) → Alternates up ts → Alternates other ts
Alternates-other [] h = tt
Alternates-other (t ∷ ts) h = h

-- A move of the machine, and what comes after it.
observe-Alternates :
    (p : Phase) (b : Bool) (ts : List String)
    → Alternates (observe p b).0 ts
    → Alternates p (map event_type (observe p b).1 ++ ts)
observe-Alternates unknown true ts h = Alternates-unknown_up ts h
observe-Alternates unknown false ts h = Alternates-unknown_down ts h
observe-Alternates up true ts h = h
observe-Alternates up false ts h = (refl, Alternates-Follows_down ts h)
observe-Alternates down true ts h = (refl, Alternates-Follows_up ts h)
observe-Alternates down false ts h = h
observe-Alternates other true ts h = Alternates-other ts h
observe-Alternates other false ts h = (refl, Alternates-Follows_down ts h)

flaps-append :
    (n : String) (xs ys : List DispatchableAlert) → flaps n (xs ++ ys) ≡ flaps n xs ++ flaps n ys
flaps-append n xs ys =
    ap (map (λ da. da.alert.type)) (filter-append (λ da. is_flap n da.alert) xs ys)
    ∙ map-append _ _ _

module _ (fmt : TimeFormat) {S : Type 0} (store : Storage S) (keeps : KeepsStates store)
    (e : Engine) where
  Observes-Alternates :
      (p q : Phase) (r : CheckResult) (n : String) (types ts : List String)
      → Observes p r n q types
      → Alternates q ts
      → Alternates p (types ++ ts)
  Observes-Alternates p q r n types ts (inl (_, _, eq, et)) h =
      subst (λ us. Alternates p (us ++ ts)) (sym et)
        (observe-Alternates p (succeeded r) ts (subst (λ x. Alternates x ts) eq h))
  Observes-Alternates p q r n types ts (inr (_, eq, et)) h =
      subst (λ us. Alternates p (us ++ ts)) (sym et) (subst (λ x. Alternates x ts) eq h)

  -- In every run over a store that keeps site states, even if its reads may fail and its searches
  -- may find anything, from a state of it that has each site's state under its own name, whatever
  -- the sites, the order of the results and the writes to the alert log and the domain cache
  -- between them, the alerts that a named site goes down and that it recovers alternate, and the
  -- first of them is one that the site's stored phase permits: a site that is up first goes down,
  -- one that is down first recovers.
  pub run-Alternates :
      (xs : List Step) (s : S) (n : String)
      → n ≢ ""
      → IsKeyed keeps.state_of s
      → Alternates (phase_at keeps.state_of s n) (flaps n (run fmt store e xs s))
  unfolding run apply
  run-Alternates [] s n named keyed = tt
  run-Alternates (result r now ∷ xs) s n named keyed =
      let (s', das) = settle fmt store e r now s in
      elim (settle-cases fmt store keeps e s keyed r now n named) [
        | inl (keyed', observes) ↦
            rw (flaps-append n das (run fmt store e xs s'))
              (Observes-Alternates _ _ r n _ _ observes (run-Alternates xs s' n named keyed'))
        | inr nothing ↦
            subst
              (λ q.
                Alternates (phase_at keeps.state_of s n) (flaps n (q.1 ++ run fmt store e xs q.0)))
              (sym nothing) (run-Alternates xs s n named keyed)
      ]
  run-Alternates (recorded a ∷ xs) s n named keyed =
      let s' = (store.record_alert a s).0 in
      subst (λ o. Alternates (phase_in o) (flaps n (run fmt store e xs s')))
        (keeps.append_state a s n)
        (run-Alternates xs s' n named
          (λ n' st h. keyed n' st (sym (keeps.append_state a s n') ∙ h)))
  run-Alternates (cached d ∷ xs) s n named keyed =
      let s' = (store.upsert_domain_cache d s).0 in
      subst (λ o. Alternates (phase_in o) (flaps n (run fmt store e xs s')))
        (keeps.put_cache_state d s n)
        (run-Alternates xs s' n named
          (λ n' st h. keyed n' st (sym (keeps.put_cache_state d s n') ∙ h)))
