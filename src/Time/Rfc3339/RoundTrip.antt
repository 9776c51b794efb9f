-- ===== src/Time/Rfc3339/RoundTrip.antt =====
-- A time that is printed is read back.
use mathlib.Core.List.{append_assoc, append-nil}
use domainturva.Prelude.{
  Bytes, ℕ, zero, suc, ◌+◌, ◌-◌, ◌*◌, ◌/◌, ◌%◌, ◌<◌, ◌≡◌, ◌≢◌, ◌⊎◌, refl, true, false, some, [],
  ◌∷◌, ◌++◌, length, arith, inl, inr, eqb, ◌&&◌, All, All-append, is_empty, Bool-cases, pos, neg_ℤ,
  ◌≤ℤ◌, ◌-ℤ◌, ◌+ℤ◌,
}
use domainturva.Time.{Time, second_ns}
use domainturva.Time.Ascii.{digits, bound, length-digits, read_digits, read_digits-digits, is_digit}
use domainturva.Time.Calendar.{
  position, position_sum, days_before, calendar_years, month_lengths, length_at,
}
use domainturva.Time.Rfc3339.{
  day_seconds, fields_text, date_text, clock_text, second_text, read_fields, expect, read_date,
  read_clock, valid_day, day_number, trim_zeros, pad_zeros, span_digits, fraction_text,
  read_fraction, year_zero_ns, from_year_zero, parse_rfc3339, format_nano, read_zone,
}
use domainturva.Time.Rfc3339.Order.{calendar_days, day_in_calendar, month_le}

expect_lem : (c : ℕ) (bs : Bytes) → expect c (c ∷ bs) ≡ some bs
unfolding expect
expect_lem c bs = ground arith

read_fields-fields_text :
    (w sep a b c : ℕ) (rest : Bytes)
    → a < bound w
    → b < 100
    → c < 100
    → read_fields w sep (fields_text w sep a b c ++ rest) ≡ some ((a, b, c), rest)
unfolding read_fields fields_text
read_fields-fields_text w sep a b c rest ha hb hc =
    let third = read_digits-digits 2 c rest hc in
    let second = read_digits-digits 2 b (sep ∷ (digits 2 c ++ rest)) hb in
    let first = read_digits-digits w a (sep ∷ (digits 2 b ++ (sep ∷ (digits 2 c ++ rest)))) ha in
    simp (append_assoc, first, expect_lem, second, third)

valid_day_lem :
    (y m d : ℕ) → m < 12 → d < length_at (month_lengths y) m → valid_day y (suc m) (suc d) ≡ true
unfolding valid_day
valid_day_lem y m d hm hd = let e : suc m - 1 ≡ m = omega arith in rw e (ground arith)

day_number_lem :
    (y m d : ℕ)
    → day_number y (suc m) (suc d)
      ≡ days_before calendar_years y + (days_before (month_lengths y) m + d)
unfolding day_number
day_number_lem y m d = let e : suc m - 1 ≡ m = omega arith in rw e (omega arith)

read_date-date_text :
    (d : ℕ) (rest : Bytes) → d < calendar_days → read_date (date_text d ++ rest) ≡ some (d, rest)
unfolding read_date date_text
read_date-date_text d rest h =
    let y = position calendar_years d in
    let m = position (month_lengths y.0) y.1 in
    let (year, month, day) = day_in_calendar d h in
    let most = month_le y.0 m.0 in
    let sum : day_number y.0 (suc m.0) (suc m.1) ≡ d = omega (
      arith,
      day_number_lem y.0 m.0 m.1,
      position_sum (month_lengths y.0) y.1,
      position_sum calendar_years d,
    ) in
    rw
      (read_fields-fields_text 4 b'-' y.0 (suc m.0) (suc m.1) rest year (omega arith) (omega arith))
      (rw (valid_day_lem y.0 m.0 m.1 month day) (rw sum))

read_clock-clock_text :
    (s : ℕ) (rest : Bytes) → s < day_seconds → read_clock (clock_text s ++ rest) ≡ some (s, rest)
unfolding read_clock clock_text
read_clock-clock_text s rest h =
    rw
      (read_fields-fields_text 2 b':' (s / 3600) (s / 60 % 60) (s % 60) rest (omega arith)
        (omega arith) (omega arith))
      (ground arith)

pad_zeros-trim_zeros : (bs : Bytes) → pad_zeros (length bs) (trim_zeros bs) ≡ bs
unfolding pad_zeros trim_zeros
pad_zeros-trim_zeros [] = refl
pad_zeros-trim_zeros (c ∷ bs) = ground (arith, pad_zeros-trim_zeros bs)

span_digits_lem :
    (bs : Bytes) (c : ℕ) (rest : Bytes)
    → All (λ b. is_digit b ≡ true) bs
    → is_digit c ≡ false
    → span_digits (bs ++ (c ∷ rest)) ≡ (bs, c ∷ rest)
unfolding span_digits
span_digits_lem [] c rest h f = rw f
span_digits_lem (b ∷ bs) c rest (t, h) f = rw (span_digits_lem bs c rest h f) (rw t)

All-trim_zeros : (P : ℕ → Type 0) (bs : Bytes) → All P bs → All P (trim_zeros bs)
unfolding trim_zeros
All-trim_zeros P [] h = h
All-trim_zeros P (c ∷ bs) (p, h) = elim (Bool-cases (is_empty (trim_zeros bs) && eqb c b'0')) [
  | inl zeros ↦ rw zeros tt
  | inr more ↦ rw more (p, All-trim_zeros P bs h)
]

digits-All : (w n : ℕ) → All (λ b. is_digit b ≡ true) (digits w n)
unfolding digits
digits-All zero n = tt
digits-All (suc w) n =
    All-append (λ b. is_digit b ≡ true) (digits w (n / 10)) _ (digits-All w (n / 10))
      (ground arith, tt)

padded_digits : (n : ℕ) → pad_zeros 9 (trim_zeros (digits 9 n)) ≡ digits 9 n
padded_digits n = rw (length-digits 9 n) at (pad_zeros-trim_zeros (digits 9 n))

read_padded :
    (n : ℕ) → n < second_ns → read_digits 9 0 (pad_zeros 9 (trim_zeros (digits 9 n))) ≡ some (n, [])
read_padded n h = rw (padded_digits n) (rw append-nil at (read_digits-digits 9 n [] (omega arith)))

-- The zeros that are dropped from the end leave something of a number that is not zero.
trim_zeros-ne-nil : (n : ℕ) → n < second_ns → n ≢ 0 → is_empty (trim_zeros (digits 9 n)) ≡ false
trim_zeros-ne-nil n h ne = elim (is_empty_cases (trim_zeros (digits 9 n))) [
  | inl nil ↦ absurd (ne (zeros (rw nil at (read_padded n h))))
  | inr f ↦ f
]
  where
    is_empty_cases : (bs : Bytes) → (bs ≡ []) ⊎ (is_empty bs ≡ false)
    is_empty_cases [] = inl refl
    is_empty_cases (b ∷ bs) = inr refl

    zeros : read_digits 9 0 (pad_zeros 9 []) ≡ some (n, []) → n ≡ 0
    zeros e = unfold read_digits pad_zeros in ground arith

pub fraction_lem :
    (n : ℕ) → n < second_ns → read_fraction (fraction_text n ++ (b'Z' ∷ [])) ≡ some (n, b'Z' ∷ [])
unfolding read_fraction fraction_text
fraction_lem n h = elim (Bool-cases (eqb n 0)) [
  | inl none_left ↦ rw none_left (ground arith)
  | inr some_left ↦
      let run = All-trim_zeros (λ b. is_digit b ≡ true) (digits 9 n) (digits-All 9 n) in
      rw (some_left, span_digits_lem (trim_zeros (digits 9 n)) b'Z' [] run refl)
        (rw (trim_zeros-ne-nil n h (ground arith)) (rw (read_padded n h)))
]

-- The times of the years 0 to 9999.
abbrev pub IsPrintable : Time → Type 0
IsPrintable t =
    (neg_ℤ (pos year_zero_ns) ≤ℤ t) × (from_year_zero t < calendar_days * day_seconds * second_ns)

from_year_zero_lem :
    (t : Time)
    → neg_ℤ (pos year_zero_ns) ≤ℤ t
    → pos (from_year_zero t) -ℤ pos year_zero_ns -ℤ pos 0 ≡ t
unfolding from_year_zero ◌+ℤ◌ ◌-ℤ◌
from_year_zero_lem t low = ground arith

zone_lem : read_zone (b'Z' ∷ []) ≡ some (pos 0)
unfolding read_zone
zone_lem = refl

-- A time of these years is read back from its text.
pub parse_rfc3339-format_nano : (t : Time) → IsPrintable t → parse_rfc3339 (format_nano t) ≡ some t
unfolding parse_rfc3339 format_nano second_text
parse_rfc3339-format_nano t (low, high) =
    let n = from_year_zero t in
    let s = n / second_ns in
    let frac = fraction_lem (n % second_ns) (omega arith) in
    let rest = fraction_text (n % second_ns) ++ (b'Z' ∷ []) in
    let date =
      read_date-date_text (s / day_seconds) (b'T' ∷ (clock_text (s % day_seconds) ++ rest))
        (omega arith) in
    let clock = read_clock-clock_text (s % day_seconds) rest (omega arith) in
    let whole : (s / day_seconds * day_seconds + s % day_seconds) * second_ns + n % second_ns ≡ n =
      omega arith in
    simp (append_assoc, date, expect_lem, clock, frac, zone_lem)
      (rw whole (rw (from_year_zero_lem t low)))
