-- ===== src/Checker/Days.antt =====
-- `int(d.Hours() / 24)` in `float64`, which the SSL and the domain checker use for the days that are
-- left. A `float64` that is not negative is a fraction `significand / 2 ^ scale` here; all of the
-- values are far from the ends of its range. The sign plays no part in rounding: the number is
-- computed for the size of the duration.
use domainturva.Prelude.{
  ℕ, zero, suc, ◌+◌, ◌-◌, ◌*◌, ◌/◌, ◌%◌, ◌^◌, ℤ, pos, negsuc, neg_ℤ, ltb, leb, eqb, ◌&&◌, ◌||◌,
  if◌then◌else◌, ◌≡◌, refl,
}
use domainturva.Time.{Duration, second_ns, days}

pub record Float : Type 0 where
  pub significand : ℕ
  pub scale : ℕ

-- The least scale from `k` on that gives `p / q` 53 significant bits.
scale_of : ℕ → ℕ → ℕ → ℕ → ℕ
scale_of zero k p q = k
scale_of (suc fuel) k p q =
    let next = scale_of fuel (suc k) p q in if leb (2 ^ 52) (p * 2 ^ k / q) then k else next

-- The nearest integer to `a / b`, and of two the even one.
round_even : ℕ → ℕ → ℕ
round_even a b =
    let n = a / b in
    let twice = 2 * (a % b) in if ltb twice b || (eqb twice b && eqb (n % 2) 0) then n else n + 1

-- Enough for numbers from 2 ^ -60 on.
abbrev scale_fuel : ℕ
scale_fuel = 113

-- The `float64` nearest to `p / q`, for `p / q` that is zero or from 2 ^ -60 to 2 ^ 53.
unfoldable pub nearest : ℕ → ℕ → Float
unfolding scale_of round_even
nearest p q =
    if eqb p 0
    then record { significand = 0; scale = 0 }
    else (let k = scale_of scale_fuel 0 p q in
        record { significand = round_even (p * 2 ^ k) q; scale = k })

abbrev hour_ns : ℕ
hour_ns = 3600 * second_ns

-- `d.Hours()` for `n` nanoseconds: the whole hours plus the rest.
unfoldable pub hours_float : ℕ → Float
unfolding nearest
hours_float n =
    let part = nearest (n % hour_ns) hour_ns in
    nearest (n / hour_ns * 2 ^ part.scale + part.significand) (2 ^ part.scale)

-- The days in `n` nanoseconds.
unfoldable pub days_of : ℕ → ℕ
unfolding hours_float nearest
days_of n =
    let h = hours_float n in
    let d = nearest h.significand (24 * 2 ^ h.scale) in d.significand / 2 ^ d.scale

unfoldable pub days_left : Duration → ℤ
unfolding days_of
days_left (pos n) = pos (days_of n)
days_left (negsuc n) = neg_ℤ (pos (days_of (suc n)))

-- One nanosecond short of 1000 days counts as 1000: it is lost when the hours are added up.
days_left_tests :
    (days_left (days 10) ≡ pos 10)
    × (days_left (pos (10 * 86400 * second_ns - 1_000)) ≡ pos 9)
    × (days_left (negsuc (86400 * second_ns)) ≡ negsuc 0)
    × (days_left (pos (100 * 86400 * second_ns - 1)) ≡ pos 99)
    × (days_left (pos (1000 * 86400 * second_ns - 1)) ≡ pos 1000)
unfolding days_left
days_left_tests = (refl, refl, refl, refl, refl)
