-- ===== src/Alerting/Duration/Laws.antt =====
-- What `formatDuration` prints of a duration that is not negative.
use domainturva.Prelude.{
  String, ◌<>◌, decimal, refl, ◌⊎◌, ℕ, ◌+◌, ◌*◌, ◌/◌, ◌%◌, ◌≤◌, ◌<◌, ℤ, pos, quot, rem, ltb_ℤ, ◌≡◌,
  ◌↔◌, ap, sym, ◌∙◌, inl, inr, true, false, Bool-cases, if◌then◌else◌, arith, max_int64, ◌≤ℤ◌, ◌+ℤ◌,
  ◌-ℤ◌,
}
use domainturva.Time.{second_ns, seconds, minutes, hours, round_duration}
use domainturva.Alerting.Duration.{
  Parts, secs, min_secs, hour_mins, day_hours, whole_seconds, whole_minutes, whole_hours,
  duration_parts, print_parts, format_duration,
}

-- The nearest number of seconds to `n` nanoseconds, a half rounded up.
abbrev pub IsNearest : ℕ → ℕ → Type 0
IsNearest n r = (r * second_ns ≤ n + 500_000_000) × (n + 500_000_000 < (r + 1) * second_ns)

-- Two numbers that make up `r` in base `k`.
abbrev IsSplit : ℕ → ℕ → ℤ → ℤ → Type 0
IsSplit k r a b = (a ≡ pos (r / k)) × (b ≡ pos (r % k))

-- `r` seconds in the largest unit that it fills, and in the next smaller one.
abbrev ArePartsOf : ℕ → Parts → Type 0
ArePartsOf r (secs n) = (r < 60) × (n ≡ pos r)
ArePartsOf r (min_secs m n) = (60 ≤ r) × (r < 3600) × IsSplit 60 r m n
ArePartsOf r (hour_mins h m) = (3600 ≤ r) × (r < 86400) × IsSplit 60 (r / 60) h m
ArePartsOf r (day_hours n h) = (86400 ≤ r) × IsSplit 24 (r / 3600) n h

rounded_seconds : ℕ → ℕ
rounded_seconds n = (n + 500_000_000) / second_ns

rounded-IsNearest : (n : ℕ) → IsNearest n (rounded_seconds n)
unfolding rounded_seconds
rounded-IsNearest n = ground arith

round_duration_lem :
    (n : ℕ)
    → pos n +ℤ seconds 1 ≤ℤ max_int64
    → round_duration (pos n) second_ns ≡ seconds (rounded_seconds n)
unfolding round_duration rounded_seconds ◌+ℤ◌ ◌-ℤ◌ rem
round_duration_lem n h = ground arith

whole_seconds_lem : (r : ℕ) → whole_seconds (seconds r) ≡ pos r
unfolding whole_seconds quot
whole_seconds_lem r = ground arith

whole_minutes_lem : (r : ℕ) → whole_minutes (seconds r) ≡ pos (r / 60)
unfolding whole_minutes quot
whole_minutes_lem r = ground arith

whole_hours_lem : (r : ℕ) → whole_hours (seconds r) ≡ pos (r / 3600)
unfolding whole_hours quot
whole_hours_lem r = ground arith

parts_of : ℕ → Parts
parts_of r =
    if ltb_ℤ (seconds r) (minutes 1)
    then secs (whole_seconds (seconds r))
    else if ltb_ℤ (seconds r) (hours 1)
    then min_secs (whole_minutes (seconds r)) (rem (whole_seconds (seconds r)) 60)
    else if ltb_ℤ (seconds r) (hours 24)
    then hour_mins (whole_hours (seconds r)) (rem (whole_minutes (seconds r)) 60)
    else day_hours (quot (whole_hours (seconds r)) 24) (rem (whole_hours (seconds r)) 24)

rem_lem : (n k : ℕ) → 1 ≤ k → rem (pos n) k ≡ pos (n % k)
unfolding rem
rem_lem n k h = ground arith

quot_lem : (n k : ℕ) → 1 ≤ k → quot (pos n) k ≡ pos (n / k)
unfolding quot
quot_lem n k h = ground arith

below : (r n : ℕ) → (ltb_ℤ (seconds r) (seconds n) ≡ true) ↔ (r < n)
below r n = ground arith

not_below : (r n : ℕ) → ltb_ℤ (seconds r) (seconds n) ≡ false → n ≤ r
not_below r n h = ground arith

hours_of_minutes : (r : ℕ) → r / 60 / 60 ≡ r / 3600
hours_of_minutes r = omega arith

parts_of_lem : (r : ℕ) → ArePartsOf r (parts_of r)
unfolding parts_of
parts_of_lem r = elim (Bool-cases (ltb_ℤ (seconds r) (minutes 1))) [
  | inl a ↦ rw a ((below r 60).0 a, whole_seconds_lem r)
  | inr a ↦ elim (Bool-cases (ltb_ℤ (seconds r) (hours 1))) [
    | inl b ↦
        rw (a, b)
          (
            not_below r 60 a,
            (below r 3600).0 b,
            (whole_minutes_lem r, rw (whole_seconds_lem r) (rem_lem r 60 (omega arith))),
          )
    | inr b ↦ elim (Bool-cases (ltb_ℤ (seconds r) (hours 24))) [
      | inl c ↦
          rw (a, b, c)
            (
              not_below r 3600 b,
              (below r 86400).0 c,
              (
                whole_hours_lem r ∙ ap pos (sym (hours_of_minutes r)),
                rw (whole_minutes_lem r) (rem_lem (r / 60) 60 (omega arith)),
              ),
            )
      | inr c ↦
          rw (a, b, c)
            (
              not_below r 86400 c,
              (
                rw (whole_hours_lem r) (quot_lem (r / 3600) 24 (omega arith)),
                rw (whole_hours_lem r) (rem_lem (r / 3600) 24 (omega arith)),
              ),
            )
    ]
  ]
]

duration_parts-ArePartsOf :
    (n : ℕ)
    → pos n +ℤ seconds 1 ≤ℤ max_int64
    → (r : ℕ) × IsNearest n r × ArePartsOf r (duration_parts (pos n))
unfolding duration_parts parts_of
duration_parts-ArePartsOf n h =
    let r = rounded_seconds n in
    (r, rounded-IsNearest n, rw (round_duration_lem n h) (parts_of_lem r))

-- The text for `r` seconds: the numbers in decimal, each with its unit.
abbrev pub IsPrintedAs : ℕ → String → Type 0
IsPrintedAs r text =
    ((r < 60) × (text ≡ decimal (pos r) <> "s"))
    ⊎ ((60 ≤ r)
        × (r < 3600)
        × (text ≡ decimal (pos (r / 60)) <> "m" <> decimal (pos (r % 60)) <> "s"))
    ⊎ ((3600 ≤ r)
        × (r < 86400)
        × (text ≡ decimal (pos (r / 3600)) <> "h" <> decimal (pos (r / 60 % 60)) <> "m"))
    ⊎ ((86400 ≤ r)
        × (text ≡ decimal (pos (r / 3600 / 24)) <> "d" <> decimal (pos (r / 3600 % 24)) <> "h"))

print_parts-IsPrintedAs : (r : ℕ) (p : Parts) → ArePartsOf r p → IsPrintedAs r (print_parts p)
unfolding print_parts
print_parts-IsPrintedAs r (secs n) (lt, e) = inl (lt, rw e refl)
print_parts-IsPrintedAs r (min_secs m n) (ge, lt, (e, f)) = inr (inl (ge, lt, rw (e, f) refl))
print_parts-IsPrintedAs r (hour_mins h m) (ge, lt, (e, f)) =
    inr (inr (inl (ge, lt, rw (e, f, hours_of_minutes r) refl)))
print_parts-IsPrintedAs r (day_hours n h) (ge, (e, f)) = inr (inr (inr (ge, rw (e, f) refl)))

-- A duration of n nanoseconds that is at least a second short of the largest Duration is printed
-- as the nearest whole number r of seconds, a half rounded up: below a minute as r and s, below an
-- hour as the minutes and m, the seconds and s, below a day as the hours and h, the minutes and m,
-- and from there as the days and d, the hours and h, all in decimal.
pub format_duration-IsPrintedAs :
    (n : ℕ)
    → pos n +ℤ seconds 1 ≤ℤ max_int64
    → (r : ℕ) × IsNearest n r × IsPrintedAs r (format_duration (pos n))
unfolding format_duration
format_duration-IsPrintedAs n h =
    let (r, nearest, parts) = duration_parts-ArePartsOf n h in
    (r, nearest, print_parts-IsPrintedAs r (duration_parts (pos n)) parts)
