-- ===== src/Time.antt =====
-- Go's `time.Time` and `time.Duration` as far as the program uses them. A `Time` is the number of
-- nanoseconds since the zero time (year 1), with its location left out; a `Duration` is an `int64`
-- of nanoseconds.
pub mod Ascii
pub mod Calendar
pub mod Rfc3339
use domainturva.Prelude.{
  ℕ, ◌*◌, ◌≡◌, Bool, true, ◌↔◌, arith, if◌then◌else◌, String, ℤ, pos, ◌+ℤ◌, ◌-ℤ◌, ◌<ℤ◌, ltb_ℤ,
  leb_ℤ, eqb_ℤ, rem, max_int64, min_int64, IsInt64,
}

abbrev pub Time : Type 0
Time = ℤ

abbrev pub Duration : Type 0
Duration = ℤ

-- `time.Time{}`
abbrev pub zero_time : Time
zero_time = pos 0

abbrev pub is_zero_time : Time → Bool
is_zero_time t = eqb_ℤ t zero_time

abbrev pub second_ns : ℕ
second_ns = 1_000_000_000

-- A number of seconds, minutes, hours or days as a `Duration`.
abbrev pub seconds : ℕ → Duration
seconds n = pos (n * second_ns)

abbrev pub minutes : ℕ → Duration
minutes n = seconds (n * 60)

abbrev pub hours : ℕ → Duration
hours n = seconds (n * 3600)

abbrev pub days : ℕ → Duration
days n = seconds (n * 86400)

-- `t.Sub(u)`: the difference, held to what a `Duration` can hold.
unfoldable pub sub_time : Time → Time → Duration
unfolding ◌-ℤ◌
sub_time t u =
    let d = t -ℤ u in
    if ltb_ℤ max_int64 d then max_int64 else if ltb_ℤ d min_int64 then min_int64 else d

-- `t.Before(u)` and `t.After(u)`.
abbrev pub before : Time → Time → Bool
before t u = ltb_ℤ t u

abbrev pub after : Time → Time → Bool
after t u = ltb_ℤ u t

-- `d.Round(m)` for a positive `m`: to the nearest multiple, half away from zero; a result that an
-- `int64` cannot hold is the largest or smallest `Duration`.
unfoldable pub round_duration : Duration → ℕ → Duration
unfolding rem ◌+ℤ◌ ◌-ℤ◌
round_duration d m =
    let r = rem d m in
    if ltb_ℤ d (pos 0)
    then if ltb_ℤ (pos 0 -ℤ r +ℤ (pos 0 -ℤ r)) (pos m)
      then d -ℤ r
      else (let down = d -ℤ r -ℤ pos m in if leb_ℤ min_int64 down then down else min_int64)
    else if ltb_ℤ (r +ℤ r) (pos m)
    then d -ℤ r
    else let up = d -ℤ r +ℤ pos m in if leb_ℤ up max_int64 then up else max_int64

-- How the program prints times with `t.Format(layout)`, which depends on the location of `t` and on
-- the calendar: a parameter of the model. `rfc3339_utc t` is `t.UTC().Format(time.RFC3339)`,
-- `rfc3339` and `date` are `t.Format` with `time.RFC3339` and `2006-01-02`.
pub record TimeFormat : Type 0 where
  pub rfc3339 : Time → String
  pub rfc3339_utc : Time → String
  pub date : Time → String

-- A difference that a `Duration` can hold is exact.
pub sub_time_fits : (t u : Time) → IsInt64 (t -ℤ u) → sub_time t u ≡ t -ℤ u
unfolding sub_time
sub_time_fits t u h = ground arith

-- A held difference exceeds a bound exactly where the exact difference does.
pub sub_time-gt :
    (t u : Time) (n : ℕ)
    → pos n <ℤ max_int64
    → (ltb_ℤ (pos n) (sub_time t u) ≡ true) ↔ (u +ℤ pos n <ℤ t)
unfolding sub_time ◌+ℤ◌
sub_time-gt t u n h = ground arith

pub sub_time-IsInt64 : (t u : Time) → IsInt64 (sub_time t u)
unfolding sub_time
sub_time-IsInt64 t u = ground arith
