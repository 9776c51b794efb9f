-- ===== src/Alerting/Duration.antt =====
-- `formatDuration` of internal/alerting/alerting.go. After rounding to a second the conversions
-- through `float64` are exact: below the next whole minute or hour the fraction is at most 59/60
-- or 3599/3600, so `int(d.Minutes())` and the like are truncated divisions.
pub mod Laws
use domainturva.Prelude.{◌*◌, ℤ, ltb_ℤ, quot, rem, String, ◌<>◌, decimal, if◌then◌else◌}
use domainturva.Time.{Duration, second_ns, minutes, hours, round_duration}

-- `int(d.Seconds())`, `int(d.Minutes())` and `int(d.Hours())`.
unfoldable pub whole_seconds : Duration → ℤ
unfolding quot
whole_seconds d = quot d second_ns

unfoldable pub whole_minutes : Duration → ℤ
unfolding quot
whole_minutes d = quot d (60 * second_ns)

unfoldable pub whole_hours : Duration → ℤ
unfolding quot
whole_hours d = quot d (3600 * second_ns)

-- What is printed: one number of seconds, or two numbers with their units.
pub data Parts : Type 0 where
  secs : ℤ → Parts
  min_secs hour_mins day_hours : ℤ → ℤ → Parts

unfoldable pub duration_parts : Duration → Parts
unfolding whole_seconds whole_minutes whole_hours rem quot round_duration
duration_parts d0 =
    let d = round_duration d0 second_ns in
    if ltb_ℤ d (minutes 1)
    then secs (whole_seconds d)
    else if ltb_ℤ d (hours 1)
    then min_secs (whole_minutes d) (rem (whole_seconds d) 60)
    else if ltb_ℤ d (hours 24)
    then hour_mins (whole_hours d) (rem (whole_minutes d) 60)
    else day_hours (quot (whole_hours d) 24) (rem (whole_hours d) 24)

unfoldable pub print_parts : Parts → String
unfolding decimal
print_parts (secs n) = decimal n <> "s"
print_parts (min_secs m n) = decimal m <> "m" <> decimal n <> "s"
print_parts (hour_mins h m) = decimal h <> "h" <> decimal m <> "m"
print_parts (day_hours n h) = decimal n <> "d" <> decimal h <> "h"

unfoldable pub format_duration : Duration → String
unfolding duration_parts print_parts
format_duration d = print_parts (duration_parts d)
