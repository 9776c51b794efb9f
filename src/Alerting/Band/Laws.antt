-- ===== src/Alerting/Band/Laws.antt =====
-- What `currentThresholdBand` computes, said without sorting.
use domainturva.Prelude.{
  ℤ, pos, ◌≤ℤ◌, ◌<ℤ◌, leb_ℤ, ◌≡◌, refl, sym, subst, ◌⊎◌, inl, inr, List, [], ◌∷◌, All, Any, All-map,
  arith, Bool-cases,
}
use domainturva.Alerting.Band.{insert_asc, sort_ints, first_at_least, current_threshold_band}

module _ (P : ℤ → Type 0) where
  All-insert_asc : (t : ℤ) (us : List ℤ) → P t → All P us → All P (insert_asc t us)
  unfolding insert_asc
  All-insert_asc t [] p h = (p, tt)
  All-insert_asc t (u ∷ us) p (q, h) = elim (Bool-cases (leb_ℤ t u)) [
    | inl le ↦ rw le (p, (q, h))
    | inr gt ↦ rw gt (q, All-insert_asc t us p h)
  ]

  All-of_insert_asc : (t : ℤ) (us : List ℤ) → All P (insert_asc t us) → P t × All P us
  unfolding insert_asc
  All-of_insert_asc t [] h = h
  All-of_insert_asc t (u ∷ us) h = elim (Bool-cases (leb_ℤ t u)) [
    | inl le ↦ let k = rw le at h in (k.0, k.1)
    | inr gt ↦ let k = rw gt at h in let (p, rest) = All-of_insert_asc t us k.1 in (p, (k.0, rest))
  ]

  Any-of_insert_asc : (t : ℤ) (us : List ℤ) → Any P (insert_asc t us) → P t ⊎ Any P us
  unfolding insert_asc
  Any-of_insert_asc t [] h = h
  Any-of_insert_asc t (u ∷ us) h = elim (Bool-cases (leb_ℤ t u)) [
    | inl le ↦ rw le at h
    | inr gt ↦ elim (rw gt at h) [
      | inl q ↦ inr (inl q)
      | inr k ↦ elim (Any-of_insert_asc t us k) [ inl p ↦ inl p | inr r ↦ inr (inr r) ]
    ]
  ]

  All-sort_ints : (ts : List ℤ) → All P ts → All P (sort_ints ts)
  unfolding sort_ints
  All-sort_ints [] h = tt
  All-sort_ints (t ∷ ts) (p, h) = All-insert_asc t (sort_ints ts) p (All-sort_ints ts h)

  All-of_sort_ints : (ts : List ℤ) → All P (sort_ints ts) → All P ts
  unfolding sort_ints
  All-of_sort_ints [] h = tt
  All-of_sort_ints (t ∷ ts) h =
      let (p, k) = All-of_insert_asc t (sort_ints ts) h in (p, All-of_sort_ints ts k)

  Any-of_sort_ints : (ts : List ℤ) → Any P (sort_ints ts) → Any P ts
  unfolding sort_ints
  Any-of_sort_ints [] h = h
  Any-of_sort_ints (t ∷ ts) h = elim (Any-of_insert_asc t (sort_ints ts) h) [
    | inl p ↦ inl p
    | inr k ↦ inr (Any-of_sort_ints ts k)
  ]

abbrev pub IsSorted : List ℤ → Type 0
IsSorted [] = Unit
IsSorted (t ∷ ts) = All (λ u. t ≤ℤ u) ts × IsSorted ts

insert_asc-IsSorted : (t : ℤ) (us : List ℤ) → IsSorted us → IsSorted (insert_asc t us)
unfolding insert_asc
insert_asc-IsSorted t [] h = (tt, tt)
insert_asc-IsSorted t (u ∷ us) (least, h) = elim (Bool-cases (leb_ℤ t u)) [
  | inl le ↦
      let t≤u : t ≤ℤ u = ground arith in
      rw le ((t≤u, All-map (λ x. u ≤ℤ x) (λ x. t ≤ℤ x) (λ x k. omega arith) us least), (least, h))
  | inr gt ↦
      let u≤t : u ≤ℤ t = ground arith in
      rw gt (All-insert_asc (λ x. u ≤ℤ x) t us u≤t least, insert_asc-IsSorted t us h)
]

pub sort_ints-IsSorted : (ts : List ℤ) → IsSorted (sort_ints ts)
unfolding sort_ints
sort_ints-IsSorted [] = tt
sort_ints-IsSorted (t ∷ ts) = insert_asc-IsSorted t (sort_ints ts) (sort_ints-IsSorted ts)

-- `b` is the band of `days_left` among the thresholds `ts`: the least of those that it has
-- reached, or 0 where it has reached none.
abbrev pub IsBand : ℤ → List ℤ → ℤ → Type 0
IsBand days_left ts b =
    ((b ≡ pos 0) × All (λ t. t <ℤ days_left) ts)
    ⊎ (Any (λ t. b ≡ t) ts × (days_left ≤ℤ b) × All (λ t. days_left ≤ℤ t → b ≤ℤ t) ts)

first_at_least-IsBand :
    (days_left : ℤ) (ts : List ℤ) → IsSorted ts → IsBand days_left ts (first_at_least days_left ts)
unfolding first_at_least
first_at_least-IsBand days_left [] h = inl (refl, tt)
first_at_least-IsBand days_left (t ∷ ts) (least, h) = elim (Bool-cases (leb_ℤ days_left t)) [
  | inl le ↦
      let found : first_at_least days_left (t ∷ ts) ≡ t = rw le in
      subst (IsBand days_left (t ∷ ts)) (sym found) (
        inr (
          inl refl,
          ground arith,
          (
            (λ _. omega arith),
            All-map (λ u. t ≤ℤ u) (λ u. days_left ≤ℤ u → t ≤ℤ u) (λ u k _. k) ts least,
          ),
        ))
  | inr gt ↦
      let lt : t <ℤ days_left = ground arith in
      let later : first_at_least days_left (t ∷ ts) ≡ first_at_least days_left ts = rw gt in
      subst (IsBand days_left (t ∷ ts)) (sym later) (elim (first_at_least-IsBand days_left ts h) [
        | inl (e, below) ↦ inl (e, (lt, below))
        | inr (mem, le, lower) ↦ inr (inr mem, le, ((λ k. absurd (omega arith)), lower))
      ])
]

-- For every number of days and every list of thresholds, in any order and of any sign, the result
-- of currentThresholdBand is the least threshold that the days have reached, and 0 where every
-- threshold is below the days.
pub current_threshold_band-IsBand :
    (days_left : ℤ) (ts : List ℤ) → IsBand days_left ts (current_threshold_band days_left ts)
unfolding current_threshold_band
current_threshold_band-IsBand days_left [] = inl (refl, tt)
current_threshold_band-IsBand days_left (t ∷ ts) =
    let us : List ℤ = t ∷ ts in
    elim (first_at_least-IsBand days_left (sort_ints us) (sort_ints-IsSorted us)) [
      | inl (e, below) ↦ inl (e, All-of_sort_ints _ us below)
      | inr (mem, le, lower) ↦ inr (Any-of_sort_ints _ us mem, le, All-of_sort_ints _ us lower)
    ]
