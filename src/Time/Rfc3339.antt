-- ===== src/Time/Rfc3339.antt =====
-- `time.RFC3339Nano` as Go's `time` prints it in UTC and reads it. A time of the years 0 to 9999 is
-- counted from the start of the year 0; Go's zero time is the start of the year 1.
pub mod RoundTrip
pub mod Order
use domainturva.Prelude.{
  Bytes, ℕ, zero, suc, ◌+◌, ◌-◌, ◌*◌, ◌/◌, ◌%◌, Bool, true, false, ◌&&◌, ◌||◌, not, negsuc, Option,
  none, some, List, [], ◌∷◌, ◌++◌, ltb, leb, eqb, if◌then◌else◌, ℤ, pos, pos_part, ◌+ℤ◌, ◌-ℤ◌,
  neg_ℤ, is_empty,
}
use domainturva.Time.{Time, second_ns}
use domainturva.Time.Ascii.{digits, read_digits, is_digit}
use domainturva.Time.Calendar.{position, days_before, length_at, calendar_years, month_lengths}

abbrev pub day_seconds : ℕ
day_seconds = 86400

-- The nanoseconds of the year 0, which is a leap year.
abbrev pub year_zero_ns : ℕ
year_zero_ns = 366 * day_seconds * second_ns

unfoldable pub from_year_zero : Time → ℕ
from_year_zero t = pos_part (t +ℤ pos year_zero_ns)

-- Three numbers, the first of `w` digits and the others of two.
unfoldable pub fields_text : ℕ → ℕ → ℕ → ℕ → ℕ → Bytes
fields_text w sep a b c = digits w a ++ (sep ∷ (digits 2 b ++ (sep ∷ digits 2 c)))

-- `2006-01-02`, for a day counted from the start of the year 0.
unfoldable pub date_text : ℕ → Bytes
date_text d =
    let y = position calendar_years d in
    let m = position (month_lengths y.0) y.1 in fields_text 4 b'-' y.0 (suc m.0) (suc m.1)

-- `15:04:05`, for the seconds of a day.
unfoldable pub clock_text : ℕ → Bytes
clock_text s = fields_text 2 b':' (s / 3600) (s / 60 % 60) (s % 60)

unfoldable pub second_text : ℕ → Bytes
second_text s = date_text (s / day_seconds) ++ (b'T' ∷ clock_text (s % day_seconds))

unfoldable pub trim_zeros : Bytes → Bytes
trim_zeros [] = []
trim_zeros (c ∷ bs) =
    let rest = trim_zeros bs in if is_empty rest && eqb c b'0' then [] else c ∷ rest

-- The fraction of a second, with no zeros at its end, and nothing where it is zero.
unfoldable pub fraction_text : ℕ → Bytes
fraction_text n = if eqb n 0 then [] else b'.' ∷ trim_zeros (digits 9 n)

-- `t.UTC().Format(time.RFC3339Nano)`
unfoldable pub format_nano : Time → Bytes
format_nano t =
    let n = from_year_zero t in
    second_text (n / second_ns) ++ (fraction_text (n % second_ns) ++ (b'Z' ∷ []))

infixl 5 ◌>>=◌
abbrev ◌>>=◌ {ℓ ℓ'} : {V : Type ℓ} {W : Type ℓ'} → Option V → (V → Option W) → Option W
none >>= next = none
some v >>= next = next v

unfoldable pub expect : ℕ → Bytes → Option Bytes
expect c [] = none
expect c (b ∷ bs) = if eqb b c then some bs else none

abbrev require {ℓ} : {V : Type ℓ} → Bool → V → Option V
require b v = if b then some v else none

-- The month has been found to be one of the twelve, counted from 1.
unfoldable pub valid_day : ℕ → ℕ → ℕ → Bool
unfolding length_at
valid_day y m d = leb 1 m && (leb m 12 && (leb 1 d && leb d (length_at (month_lengths y) (m - 1))))

unfoldable pub day_number : ℕ → ℕ → ℕ → ℕ
unfolding days_before
day_number y m d = days_before calendar_years y + (days_before (month_lengths y) (m - 1) + (d - 1))

unfoldable pub read_fields : ℕ → ℕ → Bytes → Option ((ℕ × ℕ × ℕ) × Bytes)
read_fields w sep bs = do
  a ← read_digits w 0 bs
  bs ← expect sep a.1
  b ← read_digits 2 0 bs
  bs ← expect sep b.1
  c ← read_digits 2 0 bs
  some ((a.0, b.0, c.0), c.1)

unfoldable pub read_date : Bytes → Option (ℕ × Bytes)
read_date bs = do
  f ← read_fields 4 b'-' bs
  let (y, m, d) = f.0
  require (valid_day y m d) (day_number y m d, f.1)

unfoldable pub read_clock : Bytes → Option (ℕ × Bytes)
read_clock bs = do
  f ← read_fields 2 b':' bs
  let (h, m, s) = f.0
  require (leb h 23 && (leb m 59 && leb s 59)) (h * 3600 + m * 60 + s, f.1)

-- The digits at the front, and the rest.
unfoldable pub span_digits : Bytes → Bytes × Bytes
span_digits [] = ([], [])
span_digits (c ∷ bs) =
    let rest = span_digits bs in if is_digit c then (c ∷ rest.0, rest.1) else ([], c ∷ bs)

-- The first `w` digits, filled up with zeros.
unfoldable pub pad_zeros : ℕ → Bytes → Bytes
pad_zeros zero bs = []
pad_zeros (suc w) [] = b'0' ∷ pad_zeros w []
pad_zeros (suc w) (c ∷ bs) = c ∷ pad_zeros w bs

-- A point counts only before a digit. What a fraction has beyond nanoseconds is dropped.
unfoldable pub read_fraction : Bytes → Option (ℕ × Bytes)
read_fraction [] = some (0, [])
read_fraction (c ∷ bs) =
    let (run, rest) = span_digits bs in
    if eqb c b'.' && not (is_empty run)
    then (read_digits 9 0 (pad_zeros 9 run) >>= λ n. some (n.0, rest))
    else some (0, c ∷ bs)

-- `Z`, or an offset from UTC in seconds, at the end of the text.
unfoldable pub read_offset : ℕ → Bytes → Option ℤ
read_offset sign bs = do
  h ← read_digits 2 0 bs
  bs ← expect b':' h.1
  m ← read_digits 2 0 bs
  let offset = pos ((h.0 * 60 + m.0) * 60)
  require (is_empty m.1 && (leb h.0 23 && leb m.0 59))
      (if eqb sign b'-' then neg_ℤ offset else offset)

unfoldable pub read_zone : Bytes → Option ℤ
read_zone [] = none
read_zone (c ∷ bs) =
    if eqb c b'Z'
    then (if is_empty bs then some (pos 0) else none)
    else if eqb c b'+' || eqb c b'-'
    then read_offset c bs
    else none

abbrev times_ns : ℤ → ℤ
times_ns (pos n) = pos (n * second_ns)
times_ns (negsuc n) = neg_ℤ (pos (suc n * second_ns))

-- `time.Parse(time.RFC3339Nano, s)`, which accepts what the layout `time.RFC3339` does too.
unfoldable pub parse_rfc3339 : Bytes → Option Time
parse_rfc3339 bs = do
  d ← read_date bs
  bs ← expect b'T' d.1
  c ← read_clock bs
  f ← read_fraction c.1
  offset ← read_zone f.1
  some (pos ((d.0 * day_seconds + c.0) * second_ns + f.0) -ℤ pos year_zero_ns -ℤ times_ns offset)
