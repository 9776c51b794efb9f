-- ===== src/Storage/Sqlite/Misses.antt =====
-- Within a second the order of the texts is not that of the times: a fraction begins with a point,
-- which is before the `Z` that ends a whole second.
use mathlib.Core.List.{Mem, mem-cons, not-mem-nil, exists_of_mem-map}
use mathlib.Core.Logic.Or
use mathlib.Core.Logic.{∥∥₁_elim}
use mathlib.Core.HLevel.{⊥_prop}
use domainturva.Prelude.{
  Bytes, ℕ, ◌%◌, ◌≡◌, ◌≢◌, refl, sym, ap, subst, ◌∙◌, All, true, false, String, none, List, [], ◌∷◌,
  ◌++◌, map, filter, arith, ok, ◌+ℤ◌, pos, ◌<ℤ◌,
}
use domainturva.Time.{Time, is_zero_time, second_ns}
use domainturva.Time.Ascii.{is_below, is_below-append_left}
use domainturva.Time.Rfc3339.{from_year_zero, fraction_text, format_nano}
use domainturva.Storage.{AlertRecord}
use domainturva.Storage.Memory as Memory
use domainturva.Storage.Memory.Laws.{find_recent_alerts_lem}
use domainturva.Storage.Sqlite.View.{view}
use domainturva.Storage.Sqlite.{
  AlertRow, Database, format_ts, parse_ts, scan_alert, is_selected, order_by_sent_at,
  find_recent_alerts,
}
use domainturva.Storage.Sqlite.Order.{second_of, parse_ts-format_ts}
use domainturva.Storage.Sqlite.Search.{IsWritten, mem_filter_rows}

-- The fraction of a second, in nanoseconds.
abbrev pub nanos_of : Time → ℕ
nanos_of t = from_year_zero t % second_ns

fraction-is_below :
    (n : ℕ)
    → n ≢ 0
    → is_below (fraction_text n ++ (b'Z' ∷ [])) (fraction_text 0 ++ (b'Z' ∷ [])) ≡ true
unfolding fraction_text is_below
fraction-is_below n h = ground arith

format_nano-is_below :
    (t u : Time)
    → second_of t ≡ second_of u
    → nanos_of t ≢ 0
    → nanos_of u ≡ 0
    → is_below (format_nano t) (format_nano u) ≡ true
unfolding format_nano
format_nano-is_below t u same later whole =
    rw (same, whole) (rw is_below-append_left (fraction-is_below (nanos_of t) later))

later_nanos :
    (t u : Time)
    → pos 0 <ℤ u
    → u <ℤ t
    → nanos_of u ≡ 0
    → second_of t ≡ second_of u
    → (nanos_of t ≢ 0) × (is_zero_time t ≡ false) × (is_zero_time u ≡ false)
unfolding from_year_zero ◌+ℤ◌
later_nanos t u positive later whole same = (grind arith, ground arith, ground arith)

format_ts-is_below_within :
    (t u : Time)
    → pos 0 <ℤ u
    → u <ℤ t
    → nanos_of u ≡ 0
    → second_of t ≡ second_of u
    → is_below (format_ts t) (format_ts u) ≡ true
unfolding format_ts
format_ts-is_below_within t u positive later whole same =
    let (fraction, t_later, u_later) = later_nanos t u positive later whole same in
    rw (t_later, u_later) (format_nano-is_below t u same fraction whole)

not_selected :
    (name type : String) (since : Bytes) (row : AlertRow)
    → is_below row.sent_at since ≡ true
    → ¬ (is_selected name type since row ≡ true)
unfolding is_selected
not_selected name type since row below kept = ground arith

-- Later than `since`, in the same second.
abbrev pub IsLater : Time → AlertRecord → Type 0
IsLater since a = (since <ℤ a.sent_at) × (second_of a.sent_at ≡ second_of since)

later-not_selected :
    (name type : String) (since : Time) (row : AlertRow)
    → pos 0 <ℤ since
    → nanos_of since ≡ 0
    → IsLater since (scan_alert row)
    → IsWritten row
    → ¬ (is_selected name type (format_ts since) row ≡ true)
unfolding scan_alert
later-not_selected name type since row positive whole (later, same) (t, storable, written) =
    let read : parse_ts row.sent_at ≡ t = ap parse_ts written ∙ parse_ts-format_ts t storable in
    not_selected name type (format_ts since) row (
      rw written
        (format_ts-is_below_within t since positive (rw read at later) whole (rw read at same)))

-- What all rows are, one of them is.
refute :
    (P : AlertRow → Type 0) (rows : List AlertRow) (row : AlertRow)
    → All P rows
    → Mem row rows
    → ¬ (¬ P row)
refute P [] row h m against = not-mem-nil m
refute P (r ∷ rows) row (p, h) m against =
    Or.elim ⊥_prop (mem-cons.0 m) (λ e. against (subst P (sym e) p))
      (λ m'. refute P rows row h m' against)

-- In a log whose times formatTS has written, a search of the SQLite store from a whole second
-- after the zero time finds no record that was sent later within that second, although the same
-- search of the in-memory store with the same records finds every such record of the site and the
-- type: SQLite compares the texts of the times.
pub find_recent_alerts-misses :
    (name type : String) (since : Time) (db : Database)
    → pos 0 <ℤ since
    → nanos_of since ≡ 0
    → All IsWritten db.alert_log
    → (found : List AlertRecord) × (found' : List AlertRecord) × (find_recent_alerts none name type
          since db
        ≡ ok found)
      × (Memory.find_recent_alerts name type since (view db) ≡ ok found')
      × ((a : AlertRecord)
          → Mem a (view db).alerts
          → a.site_name ≡ name
          → a.alert_type ≡ type
          → IsLater since a
          → Mem a found' × ¬ Mem a found)
unfolding find_recent_alerts
find_recent_alerts-misses name type since db positive whole written =
    let p = is_selected name type (format_ts since) in
    let rows = order_by_sent_at (filter p db.alert_log) in
    let (found', eq, finds, _, _) = find_recent_alerts_lem name type since (view db) in
    (
      map scan_alert rows,
      found',
      refl,
      eq,
      λ a m n ty later. (
        (finds a).1 (m, (n, ty, omega arith)),
        (λ found. ∥∥₁_elim (exists_of_mem-map found) ⊥_prop (λ (row, in_rows, scanned).
            let (in_log, kept) = (mem_filter_rows p db.alert_log row).0 in_rows in
            let late : IsLater since (scan_alert row) = subst (IsLater since) (sym scanned) later in
            refute IsWritten db.alert_log row written in_log
              (λ w. later-not_selected name type since row positive whole late w kept))),
      ),
    )
