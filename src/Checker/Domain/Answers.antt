-- ===== src/Checker/Domain/Answers.antt =====
-- What the registries' answers come to: `lookup` of internal/checker/domain.go, RDAP and WHOIS.
use domainturva.Prelude.{
  String, ◌==◌, eq_iff, ◌≡◌, ◌≢◌, ◌↔◌, refl, sym, ap, ◌∙◌, ◌⊎◌, inl, inr, true, false, Bool-cases,
  some, Option-cases, List, [], ◌∷◌, ◌++◌, All, Result, ok, Result-cases, arith,
}
use domainturva.Time.{Time}
use domainturva.Checker.Domain.{
  DomainEvent, RdapObject, domain, other, Lookups, Parsers, rfc3339_layout, whois_layouts,
  equal_fold, expiration_event, lookup_rdap, parse_layouts, lookup_whois, lookup,
}

-- The first of a list that gives a time gives this one.
abbrev pub IsFirst : {A : Type 0} → (A → Time → Type 0) → List A → Time → Type 0
IsFirst {A} Gives xs t =
    (before : List A) × (x : A) × (after : List A) × (xs ≡ before ++ x ∷ after)
    × Gives x t
    × All (λ y. (u : Time) → ¬ Gives y u) before

module _ {A : Type 0} (Gives : A → Time → Type 0) where
  here : (x : A) (xs : List A) (t : Time) → Gives x t → IsFirst Gives (x ∷ xs) t
  here x xs t g = ([], x, xs, refl, g, tt)

  there :
      (x : A) (xs : List A) (t : Time)
      → ((u : Time) → ¬ Gives x u)
      → IsFirst Gives xs t
      → IsFirst Gives (x ∷ xs) t
  there x xs t no_time (before, y, after, split, g, h) =
      (x ∷ before, y, after, ap (λ l. x ∷ l) split, g, (no_time, h))

ok_inj : (t u : Time) → ◌≡◌ {A = Result Time} (ok t) (ok u) → t ≡ u
ok_inj t u e = cc

pair_inj :
    (t u : Time) (a b : String)
    → ◌≡◌ {A = Result (Time × String)} (ok (t, a)) (ok (u, b))
    → (t ≡ u) × (a ≡ b)
pair_inj t u a b e = (cc, cc)

object-cases : (o : RdapObject) → ((events : List DomainEvent) × (o ≡ domain events)) ⊎ (o ≡ other)
object-cases (domain events) = inl (events, refl)
object-cases other = inr refl

not_empty : (date : String) → date ≢ "" → (date == "") ≡ false
not_empty date h = ground (arith, eq_iff date "")

module _ (p : Parsers) where
  -- An event dates the expiration.
  abbrev pub Dates : DomainEvent → Time → Type 0
  Dates ev t =
      (equal_fold ev.action "expiration" ≡ true) × (p.parse_time rfc3339_layout ev.date ≡ some t)

  expiration_event-IsFirst :
      (events : List DomainEvent) (t : Time)
      → expiration_event p events ≡ ok t
      → IsFirst Dates events t
  unfolding expiration_event
  expiration_event-IsFirst [] t h = absurd (cc h)
  expiration_event-IsFirst (ev ∷ events) t h =
      elim (Bool-cases (equal_fold ev.action "expiration")) [
        | inr f ↦
            there Dates ev events t (λ u d. ground (arith, d.0))
              (expiration_event-IsFirst events t (rw f at h))
        | inl named ↦ elim (Option-cases (p.parse_time rfc3339_layout ev.date)) [
          | inl bad ↦
              there Dates ev events t (λ u d. cc (d.1, bad))
                (expiration_event-IsFirst events t (rw (named, bad) at h))
          | inr (u, good) ↦
              here Dates ev events t (named, good ∙ ap some (ok_inj u t (rw (named, good) at h)))
        ]
      ]

  IsFirst-expiration_event :
      (before : List DomainEvent) (ev : DomainEvent) (after : List DomainEvent) (t : Time)
      → Dates ev t
      → All (λ y. (u : Time) → ¬ Dates y u) before
      → expiration_event p (before ++ ev ∷ after) ≡ ok t
  unfolding expiration_event
  IsFirst-expiration_event [] ev after t (named, good) h = rw (named, good) refl
  IsFirst-expiration_event (y ∷ before) ev after t d (no_time, h) =
      let rest = IsFirst-expiration_event before ev after t d h in
      elim (Bool-cases (equal_fold y.action "expiration")) [
        | inr f ↦ rw f rest
        | inl named ↦ elim (Option-cases (p.parse_time rfc3339_layout y.date)) [
          | inl bad ↦ rw (named, bad) rest
          | inr (u, good) ↦ absurd (no_time u (named, good))
        ]
      ]

  -- A layout fits the date.
  abbrev pub Fits : String → String → Time → Type 0
  Fits date layout t = p.parse_time layout date ≡ some t

  parse_layouts-IsFirst :
      (date : String) (layouts : List String) (t : Time)
      → parse_layouts p date layouts ≡ ok t
      → IsFirst (Fits date) layouts t
  unfolding parse_layouts
  parse_layouts-IsFirst date [] t h = absurd (cc h)
  parse_layouts-IsFirst date (layout ∷ layouts) t h =
      elim (Option-cases (p.parse_time layout date)) [
        | inl bad ↦
            there (Fits date) layout layouts t (λ u d. cc (d, bad))
              (parse_layouts-IsFirst date layouts t (rw (bad, parse_layouts) at h))
        | inr (u, good) ↦
            here (Fits date) layout layouts t
              (good ∙ ap some (ok_inj u t (rw (good, parse_layouts) at h)))
      ]

  IsFirst-parse_layouts :
      (date : String) (before : List String) (layout : String) (after : List String) (t : Time)
      → Fits date layout t
      → All (λ y. (u : Time) → ¬ Fits date y u) before
      → parse_layouts p date (before ++ layout ∷ after) ≡ ok t
  unfolding parse_layouts
  IsFirst-parse_layouts date [] layout after t good h = rw good refl
  IsFirst-parse_layouts date (y ∷ before) layout after t good (no_time, h) =
      let rest = IsFirst-parse_layouts date before layout after t good h in
      elim (Option-cases (p.parse_time y date)) [
        | inl bad ↦ rw bad rest
        | inr (u, fits) ↦ absurd (no_time u fits)
      ]

  module _ (x : Lookups) (query : String) where
    -- RDAP answers with a domain, and its first event that dates the expiration says `t`.
    abbrev pub IsRdapTime : Time → Type 0
    IsRdapTime t =
        (events : List DomainEvent) × (x.rdap query ≡ ok (domain events)) × IsFirst Dates events t

    -- WHOIS answers with a date, and the first layout that fits it says `t`.
    abbrev pub IsWhoisTime : Time → Type 0
    IsWhoisTime t =
        (raw date : String) × (x.whois query ≡ ok raw)
        × (p.expiration_date raw ≡ ok (some date))
        × (date ≢ "")
        × IsFirst (Fits date) whois_layouts t

    lookup_rdap-IsRdapTime : (t : Time) → (lookup_rdap p x query ≡ ok t) ↔ IsRdapTime t
    unfolding lookup_rdap
    lookup_rdap-IsRdapTime t = (
      λ h. elim (Result-cases (x.rdap query)) [
        | inl (e, bad) ↦ absurd (cc (rw (bad, lookup_rdap) at h))
        | inr (object, good) ↦ elim (object-cases object) [
          | inl (events, same) ↦ (
            events,
            good ∙ ap ok same,
            expiration_event-IsFirst events t (rw (good, same, lookup_rdap) at h),
          )
          | inr same ↦ absurd (cc (rw (good, same, lookup_rdap) at h))
        ]
      ],
      λ (events, good, (before, ev, after, split, d, h)).
          rw (good, lookup_rdap)
            (ap (expiration_event p) split ∙ IsFirst-expiration_event before ev after t d h),
    )

    lookup_whois-IsWhoisTime : (t : Time) → (lookup_whois p x query ≡ ok t) ↔ IsWhoisTime t
    unfolding lookup_whois
    lookup_whois-IsWhoisTime t = (
      λ h. elim (Result-cases (x.whois query)) [
        | inl (e, bad) ↦ absurd (cc (rw (bad, lookup_whois) at h))
        | inr (raw, good) ↦ elim (Result-cases (p.expiration_date raw)) [
          | inl (e, bad) ↦ absurd (cc (rw (good, bad, lookup_whois) at h))
          | inr (parsed, read) ↦ elim (Option-cases parsed) [
            | inl missing ↦ absurd (cc (rw (good, read, missing, lookup_whois) at h))
            | inr (date, there_is) ↦ elim (Bool-cases (date == "")) [
              | inl empty ↦ absurd (cc (rw empty at (rw (good, read, there_is, lookup_whois) at h)))
              | inr dated ↦ (
                raw,
                date,
                good,
                read ∙ ap ok there_is,
                (λ e. ground (arith, eq_iff date "")),
                parse_layouts-IsFirst date whois_layouts t
                    (rw dated at (rw (good, read, there_is, lookup_whois) at h)),
              )
            ]
          ]
        ]
      ],
      λ (raw, date, good, read, dated, (before, layout, after, split, fits, h)).
          rw (good, read, lookup_whois)
            (rw (not_empty date dated) (
              ap (parse_layouts p date) split
              ∙ IsFirst-parse_layouts date before layout after t fits h)),
    )

    -- The domain checker's lookup gives a time and a source exactly in two cases. The source is
    -- rdap, RDAP answers with a domain, and the time is that of the first of its events whose
    -- action is the expiration, in any case of letters, and whose date is RFC 3339. Or the source
    -- is whois, RDAP gives no time in that way, WHOIS answers with a date that is not empty, and
    -- the time is what the first layout that fits makes of it.
    pub lookup-IsAnswer :
        (t : Time) (source : String)
        → (lookup p x query ≡ ok (t, source)) ↔ (
            (IsRdapTime t × (source ≡ "rdap"))
            ⊎ (((u : Time) → ¬ IsRdapTime u) × IsWhoisTime t × (source ≡ "whois")))
    unfolding lookup
    lookup-IsAnswer t source =
        let (rdap_to, rdap_from) = lookup_rdap-IsRdapTime t in
        let (whois_to, whois_from) = lookup_whois-IsWhoisTime t in
        (
          λ h. elim (Result-cases (lookup_rdap p x query)) [
            | inr (u, by_rdap) ↦
                let (same, named) = pair_inj u t "rdap" source (rw (by_rdap, lookup) at h) in
                inl (rdap_to (by_rdap ∙ ap ok same), sym named)
            | inl (e, no_rdap) ↦ elim (Result-cases (lookup_whois p x query)) [
              | inl (w, no_whois) ↦ absurd (cc (rw (no_rdap, no_whois, lookup) at h))
              | inr (u, by_whois) ↦
                  let (same, named) =
                    pair_inj u t "whois" source (rw (no_rdap, by_whois, lookup) at h) in
                  inr (
                    (λ v d. cc (no_rdap, (lookup_rdap-IsRdapTime v).1 d)),
                    whois_to (by_whois ∙ ap ok same),
                    sym named,
                  )
            ]
          ],
          λ h. elim h [
            | inl (d, named) ↦ rw (rdap_from d, lookup) (rw named refl)
            | inr (unknown, d, named) ↦ elim (Result-cases (lookup_rdap p x query)) [
              | inr (u, by_rdap) ↦ absurd (unknown u ((lookup_rdap-IsRdapTime u).0 by_rdap))
              | inl (e, no_rdap) ↦ rw (no_rdap, whois_from d, lookup) (rw named refl)
            ]
          ],
        )
