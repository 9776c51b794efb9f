-- ===== src/Time/Calendar.antt =====
-- The calendar of Go's `time`: a day, counted from the first of January of the year 0, as a year, a
-- month and a day. Years and months alike are periods of known lengths, laid end to end.
use domainturva.Prelude.{
  ℕ, zero, suc, ◌+◌, ◌-◌, ◌%◌, ◌<◌, ◌≡◌, refl, Bool, false, ◌&&◌, ◌||◌, not, ap, ◌∙◌, List, [], ◌∷◌,
  length, ltb, eqb, if◌then◌else◌, arith, ◌⊎◌, inl, inr, Bool-cases,
}

-- Where the day `d` falls: the number of periods that have passed, and the days into the next one.
unfoldable pub position : List ℕ → ℕ → ℕ × ℕ
position [] d = (0, d)
position (l ∷ ls) d =
    let rest = position ls (d - l) in if ltb d l then (0, d) else (suc rest.0, rest.1)

-- The days in the first `i` periods.
unfoldable pub days_before : List ℕ → ℕ → ℕ
days_before [] i = 0
days_before (l ∷ ls) zero = 0
days_before (l ∷ ls) (suc i) = l + days_before ls i

-- The length of the period `i`.
unfoldable pub length_at : List ℕ → ℕ → ℕ
length_at [] i = 0
length_at (l ∷ ls) zero = l
length_at (l ∷ ls) (suc i) = length_at ls i

unfoldable pub total : List ℕ → ℕ
total [] = 0
total (l ∷ ls) = l + total ls

unfoldable pub is_leap : ℕ → Bool
is_leap y = eqb (y % 4) 0 && (not (eqb (y % 100) 0) || eqb (y % 400) 0)

unfoldable pub year_length : ℕ → ℕ
unfolding is_leap
year_length y = if is_leap y then 366 else 365

-- The lengths of `n` years, from `y` on.
unfoldable pub year_lengths : ℕ → ℕ → List ℕ
unfolding year_length
year_lengths zero y = []
year_lengths (suc n) y = year_length y ∷ year_lengths n (suc y)

unfoldable pub month_lengths : ℕ → List ℕ
unfolding is_leap
month_lengths y =
    31 ∷ (if is_leap y then 29 else 28) ∷ 31 ∷ 30 ∷ 31 ∷ 30 ∷ 31 ∷ 31 ∷ 30 ∷ 31 ∷ 30 ∷ 31 ∷ []

-- The years that four digits can name.
unfoldable pub calendar_years : List ℕ
unfolding year_lengths
calendar_years = year_lengths 10000 0

pub position_sum : (ls : List ℕ) (d : ℕ) → days_before ls (position ls d).0 + (position ls d).1 ≡ d
unfolding position days_before
position_sum [] d = omega arith
position_sum (l ∷ ls) d = ground (arith, position_sum ls (d - l))

-- A day before the end falls into a period.
pub position_within :
    (ls : List ℕ) (d : ℕ)
    → d < total ls
    → ((position ls d).0 < length ls) × ((position ls d).1 < length_at ls (position ls d).0)
unfolding position total length_at
position_within [] d h = absurd (omega arith)
position_within (l ∷ ls) d h = elim (Bool-cases (ltb d l)) [
  | inl in_first ↦ rw in_first (omega arith, ground arith)
  | inr later ↦ let (i, r) = position_within ls (d - l) (ground arith) in rw later (omega arith, r)
]

-- A later day falls into a later period, or later into the same one.
abbrev pub IsLater : ℕ × ℕ → ℕ × ℕ → Type 0
IsLater p q = (p.0 < q.0) ⊎ ((p.0 ≡ q.0) × (p.1 < q.1))

pub position-IsLater : (ls : List ℕ) (d e : ℕ) → d < e → IsLater (position ls d) (position ls e)
unfolding position
position-IsLater [] d e h = inr (refl, h)
position-IsLater (l ∷ ls) d e h = elim (Bool-cases (ltb d l)) [
  | inl d_first ↦ elim (Bool-cases (ltb e l)) [
    | inl e_first ↦ rw (d_first, e_first) (inr (refl, h))
    | inr e_later ↦ rw (d_first, e_later) (inl (omega arith))
  ]
  | inr d_later ↦
      let e_later : ltb e l ≡ false = ground arith in
      rw (d_later, e_later)
        (elim (position-IsLater ls (d - l) (e - l) (ground arith)) [
          | inl i ↦ inl (omega arith)
          | inr (i, r) ↦ inr (ap suc i, r)
        ])
]

-- The months of a year fill it.
pub total-month_lengths : (y : ℕ) → total (month_lengths y) ≡ year_length y
unfolding total month_lengths year_length
total-month_lengths y = ground arith

pub length_at-year_lengths :
    (n y i : ℕ) → i < n → length_at (year_lengths n y) i ≡ year_length (y + i)
unfolding length_at year_lengths
length_at-year_lengths zero y i h = absurd (omega arith)
length_at-year_lengths (suc n) y zero h = let e : y ≡ y + 0 = omega arith in ap year_length e
length_at-year_lengths (suc n) y (suc i) h =
    let e : suc y + i ≡ y + suc i = omega arith in
    length_at-year_lengths n (suc y) i (omega arith) ∙ ap year_length e

pub length-year_lengths : (n y : ℕ) → length (year_lengths n y) ≡ n
unfolding year_lengths
length-year_lengths zero y = refl
length-year_lengths (suc n) y = ap suc (length-year_lengths n (suc y))
