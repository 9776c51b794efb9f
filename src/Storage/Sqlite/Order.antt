-- ===== src/Storage/Sqlite/Order.antt =====
-- `formatTS` and `parseTS`: what is written is read back, and texts are in the order of the seconds.
use domainturva.Prelude.{
  Bytes, ℕ, ◌*◌, ◌/◌, ◌%◌, ◌<◌, ◌≤◌, ◌≡◌, refl, sym, ◌∙◌, true, false, [], ◌∷◌, ◌++◌, length,
  length-append, arith, inl, inr, Bool-cases, is_empty, pos, ◌+ℤ◌, ◌≤ℤ◌,
}
use domainturva.Time.{Time, is_zero_time, second_ns}
use domainturva.Time.Ascii.{is_below, is_below-append}
use domainturva.Time.Rfc3339.{day_seconds, from_year_zero, second_text, fraction_text, format_nano}
use domainturva.Time.Rfc3339.Order.{calendar_days, length-second_text, second_text-is_below}
use domainturva.Time.Rfc3339.RoundTrip.{parse_rfc3339-format_nano}
use domainturva.Storage.Sqlite.{format_ts, parse_ts}

-- The times that a column can hold: from the zero time to the end of the year 9999.
abbrev pub IsStorable : Time → Type 0
IsStorable t = (pos 0 ≤ℤ t) × (from_year_zero t < calendar_days * day_seconds * second_ns)

-- The second that a time is in, counted from the start of the year 0.
abbrev pub second_of : Time → ℕ
second_of t = from_year_zero t / second_ns

is_empty_of_length : (bs : Bytes) → 1 ≤ length bs → is_empty bs ≡ false
is_empty_of_length [] h = absurd (omega arith)
is_empty_of_length (b ∷ bs) h = refl

format_nano-not_empty : (t : Time) → is_empty (format_nano t) ≡ false
unfolding format_nano
format_nano-not_empty t =
    let s = second_text (second_of t) in
    let rest = fraction_text (from_year_zero t % second_ns) ++ (b'Z' ∷ []) in
    is_empty_of_length (s ++ rest)
      (omega (arith, length-append {0} s rest, length-second_text (second_of t)))

-- parseTS reads back what formatTS writes, for the zero time and every later time up to the end of
-- the year 9999.
pub parse_ts-format_ts : (t : Time) → IsStorable t → parse_ts (format_ts t) ≡ t
unfolding format_ts parse_ts
parse_ts-format_ts t (low, high) = elim (Bool-cases (is_zero_time t)) [
  | inl zero_t ↦ rw zero_t (ground arith)
  | inr later ↦
      rw (later, format_nano-not_empty t) (rw (parse_rfc3339-format_nano t (omega arith, high)))
]

later-ne-zero : (t u : Time) → pos 0 ≤ℤ t → second_of t < second_of u → is_zero_time u ≡ false
unfolding from_year_zero ◌+ℤ◌
later-ne-zero t u h lt = ground arith

below_of_empty : (bs : Bytes) → is_empty bs ≡ false → is_below [] bs ≡ true
unfolding is_below
below_of_empty [] f = cc
below_of_empty (b ∷ bs) f = refl

-- A time of an earlier second has an earlier text.
pub format_ts-is_below :
    (t u : Time)
    → IsStorable t
    → IsStorable u
    → second_of t < second_of u
    → is_below (format_ts t) (format_ts u) ≡ true
unfolding format_ts
format_ts-is_below t u (low, _) (_, high) lt = elim (Bool-cases (is_zero_time t)) [
  | inl zero_t ↦
      rw (zero_t, later-ne-zero t u low lt)
        (below_of_empty (format_nano u) (format_nano-not_empty u))
  | inr later ↦
      rw (later, later-ne-zero t u low lt)
        (unfold format_nano in
          is_below-append (second_text (second_of t)) (second_text (second_of u)) _ _
            (length-second_text _ ∙ sym (length-second_text _))
            (second_text-is_below (second_of t) (second_of u) (omega arith) lt))
]
