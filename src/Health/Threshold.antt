-- ===== src/Health/Threshold.antt =====
-- `staleThreshold` of internal/health/health.go: twice the longest interval.
use domainturva.Prelude.{
  All-Any, ◌^◌, pos, ltb_ℤ, eqb_ℤ, wrap64, ◌+ℤ◌, eq_of_parts, subst, ◌≤ℤ◌, ◌≡◌, refl, sym, ◌⊎◌, inl,
  inr, Bool-cases, List, [], ◌∷◌, All, Any, if◌then◌else◌, arith,
}
use domainturva.Time.{Duration, seconds}
use domainturva.Config.{Site}
use domainturva.Health.{max_interval, stale_threshold}

-- `m` is the largest of `m0` and the intervals.
abbrev pub IsMax : Duration → List Site → Duration → Type 0
IsMax m0 sites m =
    (m0 ≤ℤ m) × All (λ s. s.interval ≤ℤ m) sites × ((m ≡ m0) ⊎ Any (λ s. s.interval ≡ m) sites)

IsMax-step :
    (m x : Duration) (s : Site) (sites : List Site)
    → IsMax (if ltb_ℤ m s.interval then s.interval else m) sites x
    → IsMax m (s ∷ sites) x
IsMax-step m x s sites h = elim (Bool-cases (ltb_ℤ m s.interval)) [
  | inl t ↦
      let (low, high, which) : IsMax s.interval sites x = rw t at h in
      (ground arith, (low, high), inr (elim which [ inl e ↦ inl (sym e) | inr k ↦ inr k ]))
  | inr f ↦
      let (low, high, which) : IsMax m sites x = rw f at h in
      (low, (ground arith, high), elim which [ inl e ↦ inl e | inr k ↦ inr (inr k) ])
]

max_interval_lem : (m : Duration) (sites : List Site) → IsMax m sites (max_interval m sites)
unfolding max_interval
max_interval_lem m [] = (omega arith, tt, inl refl)
max_interval_lem m (s ∷ sites) =
    IsMax-step m _ s sites (max_interval_lem (if ltb_ℤ m s.interval then s.interval else m) sites)

-- The intervals that `Validate` lets through, up to 73 years.
abbrev pub HasInterval : Site → Type 0
HasInterval s = (seconds 1 ≤ℤ s.interval) × (s.interval ≤ℤ pos (2 ^ 61))

-- The longest interval.
abbrev pub IsLongest : List Site → Duration → Type 0
IsLongest sites m = All (λ s. s.interval ≤ℤ m) sites × Any (λ s. s.interval ≡ m) sites

doubled :
    (x : Duration) (m : Duration)
    → x ≡ m
    → seconds 1 ≤ℤ m
    → m ≤ℤ pos (2 ^ 61)
    → wrap64
        ((if eqb_ℤ x (pos 0) then seconds 60 else x) +ℤ (if eqb_ℤ x (pos 0) then seconds 60 else x))
      ≡ m +ℤ m
unfolding wrap64 ◌+ℤ◌
doubled x m e low high = ground arith

pub longest-range :
    (sites : List Site) (m : Duration)
    → All HasInterval sites
    → IsLongest sites m
    → (seconds 1 ≤ℤ m) × (m ≤ℤ pos (2 ^ 61))
longest-range sites m h (high, which) =
    let (x, (low, up), e) = All-Any HasInterval (λ s. s.interval ≡ m) sites h which in
    subst (λ i. (seconds 1 ≤ℤ i) × (i ≤ℤ pos (2 ^ 61))) e (low, up)

pub stale_threshold_lem :
    (sites : List Site) (m : Duration)
    → All HasInterval sites
    → IsLongest sites m
    → stale_threshold sites ≡ m +ℤ m
unfolding stale_threshold
stale_threshold_lem sites m h (high, which) =
    let (low, up) = longest-range sites m h (high, which) in
    let (from, above, where_max) = max_interval_lem (pos 0) sites in
    let x = max_interval (pos 0) sites in
    let (s1, p1, q1) = All-Any _ (λ s. s.interval ≡ m) sites above which in
    let same : x ≡ m = elim where_max [
      | inl z ↦ absurd (ground arith)
      | inr k ↦
          let (s2, p2, q2) = All-Any _ (λ s. s.interval ≡ x) sites high k in
          ground (arith, eq_of_parts x m)
    ] in
    doubled x m same low up
