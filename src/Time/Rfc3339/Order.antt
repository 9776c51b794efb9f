-- ===== src/Time/Rfc3339/Order.antt =====
-- The order of printed times: by their seconds. Within a second it is another one, since the fraction
-- ends where its zeros begin.
use domainturva.Prelude.{
  Bytes, ℕ, zero, suc, ◌+◌, ◌*◌, ◌/◌, ◌%◌, ◌<◌, ◌≡◌, refl, sym, ◌∙◌, true, List, [], ◌∷◌, ◌++◌,
  length, length-append, arith, ap, subst, All, ◌≤◌, ◌⊎◌, inl, inr,
}
use native.Mathlib.Nat.{zero-add}
use domainturva.Time.Ascii.{
  digits, bound, length-digits, is_below, is_below-append, is_below-append_left, digits-is_below,
}
use domainturva.Time.Calendar.{
  position, position_within, position-IsLater, IsLater, calendar_years, month_lengths, total,
  length-year_lengths, length_at-year_lengths, total-month_lengths, length_at, year_length,
}
use domainturva.Time.Rfc3339.{day_seconds, fields_text, date_text, clock_text, second_text}

-- The days of the years 0 to 9999.
abbrev pub calendar_days : ℕ
calendar_days = 3652425

calendar_total : total calendar_years ≡ calendar_days
unfolding total calendar_years
calendar_total = refl

pub length-month_lengths : (y : ℕ) → length (month_lengths y) ≡ 12
unfolding month_lengths
length-month_lengths y = refl

-- A day of the calendar: its year and its month are in range, and so is the day of the month.
pub day_in_calendar :
    (d : ℕ)
    → d < calendar_days
    → let y = position calendar_years d in
      let m = position (month_lengths y.0) y.1 in
      (y.0 < 10000) × (m.0 < 12) × (m.1 < length_at (month_lengths y.0) m.0)
day_in_calendar d h =
    let y = position calendar_years d in
    let (year, in_year) = position_within calendar_years d (rw calendar_total h) in
    let fits : y.0 < 10000 = unfold calendar_years in omega (arith, length-year_lengths 10000 0) in
    let same : length_at calendar_years y.0 ≡ year_length y.0 =
      unfold calendar_years in
      length_at-year_lengths 10000 0 y.0 fits ∙ ap year_length (zero-add y.0) in
    let inside : y.1 < total (month_lengths y.0) =
      rw (total-month_lengths y.0) (rw same at in_year) in
    let (month, in_month) = position_within (month_lengths y.0) y.1 inside in
    (fits, rw length-month_lengths at month, in_month)

pub length-fields_text : (w sep a b c : ℕ) → length (fields_text w sep a b c) ≡ w + 6
unfolding fields_text
length-fields_text w sep a b c = omega (
  arith,
  length-append {0} (digits w a) (sep ∷ (digits 2 b ++ (sep ∷ digits 2 c))),
  length-append {0} (digits 2 b) (sep ∷ digits 2 c),
  length-digits w a,
  length-digits 2 b,
  length-digits 2 c,
)

length-date_text : (d : ℕ) → length (date_text d) ≡ 10
unfolding date_text
length-date_text d = length-fields_text 4 b'-' _ _ _

-- The order of numbers of `w` digits, with what follows them.
digits_then :
    (w n m : ℕ) (bs ds : Bytes)
    → m < bound w
    → (n < m) ⊎ ((n ≡ m) × (is_below bs ds ≡ true))
    → is_below (digits w n ++ bs) (digits w m ++ ds) ≡ true
digits_then w n m bs ds fits (inl less) =
    is_below-append (digits w n) (digits w m) bs ds (length-digits w n ∙ sym (length-digits w m))
      (digits-is_below w n m fits less)
digits_then w n m bs ds fits (inr (same, h)) =
    rw same (rw (is_below-append_left (digits w m) bs ds) h)

sep_then : (sep : ℕ) (bs ds : Bytes) → is_below bs ds ≡ true → is_below (sep ∷ bs) (sep ∷ ds) ≡ true
unfolding is_below
sep_then sep bs ds h = ground arith

-- Fields of a fixed width are in the order of the first number that differs.
abbrev IsEarlier : ℕ × ℕ × ℕ → ℕ × ℕ × ℕ → Type 0
IsEarlier (a, b, c) (a', b', c') = (a < a') ⊎ ((a ≡ a') × ((b < b') ⊎ ((b ≡ b') × (c < c'))))

fields_text-is_below :
    (w sep a b c a' b' c' : ℕ)
    → a' < bound w
    → b' < 100
    → c' < 100
    → IsEarlier (a, b, c) (a', b', c')
    → is_below (fields_text w sep a b c) (fields_text w sep a' b' c') ≡ true
unfolding fields_text
fields_text-is_below w sep a b c a' b' c' ha hb hc (inl less) = digits_then w a a' _ _ ha (inl less)
fields_text-is_below w sep a b c a' b' c' ha hb hc (inr (same, inl less)) =
    digits_then w a a' _ _ ha (inr (same, sep_then sep _ _ (digits_then 2 b b' _ _ hb (inl less))))
fields_text-is_below w sep a b c a' b' c' ha hb hc (inr (same, inr (same', less))) =
    let last = digits-is_below 2 c c' hc less in
    digits_then w a a' _ _ ha (
      inr (same, sep_then sep _ _ (digits_then 2 b b' _ _ hb (inr (same', sep_then sep _ _ last)))))

length_at-le : (ls : List ℕ) (i k : ℕ) → All (λ l. l ≤ k) ls → length_at ls i ≤ k
unfolding length_at
length_at-le [] i k h = omega arith
length_at-le (l ∷ ls) zero k (h, _) = h
length_at-le (l ∷ ls) (suc i) k (_, h) = length_at-le ls i k h

pub month_le : (y i : ℕ) → length_at (month_lengths y) i ≤ 31
month_le y i = length_at-le (month_lengths y) i 31 (unfold month_lengths in ground arith)

-- The date of a day, by the year it falls into and the days into that year.
abbrev date_fields : ℕ × ℕ → ℕ × ℕ × ℕ
date_fields (y, r) = let m = position (month_lengths y) r in (y, suc m.0, suc m.1)

date_fields-IsEarlier : (p q : ℕ × ℕ) → IsLater p q → IsEarlier (date_fields p) (date_fields q)
date_fields-IsEarlier (y, r) (y', r') (inl less) = inl less
date_fields-IsEarlier (y, r) (y', r') (inr (same, less)) =
    let next = position-IsLater (month_lengths y) r r' less in
    let within : IsEarlier (date_fields (y, r)) (date_fields (y, r')) =
      inr (
        refl,
        elim next [ inl m ↦ inl (omega arith) | inr (m, d) ↦ inr (ap suc m, omega arith) ],
      ) in
    subst (λ z. IsEarlier (date_fields (y, r)) (date_fields (z, r'))) same within

-- A later day is printed as a later text.
pub date_text-is_below :
    (d e : ℕ) → e < calendar_days → d < e → is_below (date_text d) (date_text e) ≡ true
unfolding date_text
date_text-is_below d e h lt =
    let (year, month, day) = day_in_calendar e h in
    let most = month_le (position calendar_years e).0 in
    fields_text-is_below 4 b'-' _ _ _ _ _ _ year (omega arith) (omega (arith, most _))
      (date_fields-IsEarlier _ _ (position-IsLater calendar_years d e lt))

clock_text-is_below :
    (s t : ℕ) → t < day_seconds → s < t → is_below (clock_text s) (clock_text t) ≡ true
unfolding clock_text
clock_text-is_below s t h lt =
    fields_text-is_below 2 b':' (s / 3600) (s / 60 % 60) (s % 60) (t / 3600) (t / 60 % 60) (t % 60)
      (omega arith) (omega arith) (omega arith) (clock_IsEarlier s t lt)
  where
    clock_IsEarlier :
        (s t : ℕ)
        → s < t
        → IsEarlier (s / 3600, s / 60 % 60, s % 60) (t / 3600, t / 60 % 60, t % 60)
    clock_IsEarlier s t lt = ground arith

-- A later second is printed as a later text.
pub second_text-is_below :
    (s t : ℕ)
    → t < calendar_days * day_seconds
    → s < t
    → is_below (second_text s) (second_text t) ≡ true
unfolding second_text
second_text-is_below s t h lt = elim (days_cases s t lt) [
  | inl less ↦
      is_below-append (date_text (s / day_seconds)) (date_text (t / day_seconds)) _ _
        (length-date_text _ ∙ sym (length-date_text _))
        (date_text-is_below (s / day_seconds) (t / day_seconds) (omega arith) less)
  | inr (same, less) ↦ rw same (
      rw (is_below-append_left (date_text (t / day_seconds))) (
        sep_then b'T' _ _
          (clock_text-is_below (s % day_seconds) (t % day_seconds) (omega arith) less)))
]
  where
    days_cases :
        (a b : ℕ)
        → a < b
        → (a / day_seconds < b / day_seconds)
          ⊎ ((a / day_seconds ≡ b / day_seconds) × (a % day_seconds < b % day_seconds))
    days_cases a b l = ground arith

-- Every time is printed with a second of the same width.
pub length-second_text : (s : ℕ) → length (second_text s) ≡ 19
unfolding second_text clock_text
length-second_text s = omega (
  arith,
  length-append {0} (date_text (s / day_seconds)) (b'T' ∷ clock_text (s % day_seconds)),
  length-date_text (s / day_seconds),
  length-fields_text 2 b':' (s % day_seconds / 3600) (s % day_seconds / 60 % 60)
      (s % day_seconds % 60),
)
