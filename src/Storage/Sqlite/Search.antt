-- ===== src/Storage/Sqlite/Search.antt =====
-- What a search of the alert log finds, where the times are compared as texts.
use mathlib.Core.List.{Perm, Mem}
use mathlib.Core.List.Perm
use domainturva.Prelude.{
  ℕ, ◌<◌, ◌≤◌, ◌≡◌, ◌≢◌, refl, Bool, true, false, String, eq_iff, none, List, [], ◌∷◌, map, filter,
  arith, ◌⊎◌, inl, inr, Bool-cases, All, All-map, mem-filter, ok, ◌↔◌, ◌+ℤ◌,
}
use domainturva.Time.{Time, before}
use domainturva.Time.Ascii.{is_below, is_below_asymm}
use domainturva.Time.Rfc3339.{from_year_zero}
use domainturva.Storage.{AlertRecord}
use domainturva.Storage.Memory as Memory
use domainturva.Storage.Memory.{is_recent, sort_desc}
use domainturva.Storage.Memory.Laws.{sort_desc-perm}
use domainturva.Storage.Sqlite.{
  AlertRow, Database, format_ts, parse_ts, scan_alert, is_selected, insert_by_sent_at,
  order_by_sent_at, find_recent_alerts,
}
use domainturva.Storage.Sqlite.Order.{IsStorable, second_of, parse_ts-format_ts, format_ts-is_below}
use domainturva.Storage.Sqlite.View.{view}

-- The time of a row was written by `formatTS`.
abbrev pub IsWritten : AlertRow → Type 0
IsWritten row = (t : Time) × IsStorable t × (row.sent_at ≡ format_ts t)

-- The second in which a row was sent.
abbrev pub second_at : AlertRow → ℕ
second_at row = second_of (parse_ts row.sent_at)

below_of_second :
    (row : AlertRow) (since : Time)
    → IsWritten row
    → IsStorable since
    → second_at row < second_of since
    → is_below row.sent_at (format_ts since) ≡ true
below_of_second row since (t, storable, e) h lt =
    rw e (format_ts-is_below t since storable h (rw (e, parse_ts-format_ts t storable) at lt))

pub not_below_of_second :
    (row : AlertRow) (since : Time)
    → IsWritten row
    → IsStorable since
    → second_of since < second_at row
    → is_below row.sent_at (format_ts since) ≡ false
not_below_of_second row since (t, storable, e) h lt = rw e (
    is_below_asymm _ _
      (format_ts-is_below since t h storable (rw (e, parse_ts-format_ts t storable) at lt)))

earlier_second : (t u : Time) → second_of t < second_of u → before t u ≡ true
unfolding from_year_zero ◌+ℤ◌
earlier_second t u lt = ground arith

-- Outside the second of `since`, the texts choose as the times do.
is_selected-eq-is_recent :
    (name type : String) (since : Time) (row : AlertRow)
    → IsStorable since
    → IsWritten row × (second_at row ≢ second_of since)
    → is_selected name type (format_ts since) row ≡ is_recent name type since (scan_alert row)
unfolding is_selected scan_alert
is_selected-eq-is_recent name type since row h (written, other) =
    elim (side (second_at row) (second_of since) other) [
      | inl earlier ↦ rw (below_of_second row since written h earlier, earlier_second _ _ earlier)
      | inr later ↦ rw (
        not_below_of_second row since written h later,
        not_before (parse_ts row.sent_at) since (earlier_second _ _ later),
      )
    ]
  where
    side : (a b : ℕ) → a ≢ b → (a < b) ⊎ (b < a)
    side a b ne = omega arith

    not_before : (t u : Time) → before u t ≡ true → before t u ≡ false
    not_before t u e = ground arith

insert_by_sent_at-perm :
    (a : AlertRow) (bs : List AlertRow) → Perm (insert_by_sent_at a bs) (a ∷ bs)
unfolding insert_by_sent_at
insert_by_sent_at-perm a [] = Perm.refl _
insert_by_sent_at-perm a (b ∷ bs) = elim (Bool-cases (is_below a.sent_at b.sent_at)) [
  | inl later ↦ rw later (Perm.trans (Perm.cons b (insert_by_sent_at-perm a bs)) (Perm.swap a b bs))
  | inr same ↦ rw same (Perm.refl _)
]

order_by_sent_at-perm : (rows : List AlertRow) → Perm (order_by_sent_at rows) rows
unfolding order_by_sent_at
order_by_sent_at-perm [] = Perm.refl _
order_by_sent_at-perm (a ∷ rest) =
    Perm.trans (insert_by_sent_at-perm a (order_by_sent_at rest))
      (Perm.cons a (order_by_sent_at-perm rest))

filter_congr :
    (p q : AlertRow → Bool) (rows : List AlertRow)
    → All (λ row. p row ≡ q row) rows
    → filter p rows ≡ filter q rows
filter_congr p q [] h = refl
filter_congr p q (row ∷ rows) (e, h) = rw (e, filter_congr p q rows h)

filter-map :
    (p : AlertRecord → Bool) (rows : List AlertRow)
    → filter p (map scan_alert rows) ≡ map scan_alert (filter (λ row. p (scan_alert row)) rows)
filter-map p [] = refl
filter-map p (row ∷ rows) = elim (Bool-cases (p (scan_alert row))) [
  | inl kept ↦ rw (kept, filter-map p rows)
  | inr dropped ↦ rw (dropped, filter-map p rows)
]

-- Where no record of the log was sent in the second of `since`, a search finds what a search of the
-- in-memory store finds.
pub find_recent_alerts-view :
    (name type : String) (since : Time) (db : Database)
    → IsStorable since
    → All (λ row. IsWritten row × (second_at row ≢ second_of since)) db.alert_log
    → (found : List AlertRecord) × (found' : List AlertRecord) × (find_recent_alerts none name type
          since db
        ≡ ok found)
      × (Memory.find_recent_alerts name type since (view db) ≡ ok found')
      × Perm found found'
unfolding find_recent_alerts Memory.find_recent_alerts
find_recent_alerts-view name type since db h others =
    let selected = filter (is_selected name type (format_ts since)) db.alert_log in
    let recent = filter (λ row. is_recent name type since (scan_alert row)) db.alert_log in
    let same : selected ≡ recent = filter_congr _ _ db.alert_log (
      All-map _ _ (λ row w. is_selected-eq-is_recent name type since row h w) db.alert_log
        others) in
    let by_rows : Perm (map scan_alert (order_by_sent_at selected)) (map scan_alert recent) =
      rw (← same) (Perm.map scan_alert (order_by_sent_at-perm selected)) in
    let by_time =
      sort_desc-perm (filter (is_recent name type since) (map scan_alert db.alert_log)) in
    (
      map scan_alert (order_by_sent_at selected),
      sort_desc (filter (is_recent name type since) (map scan_alert db.alert_log)),
      refl,
      refl,
      Perm.trans by_rows
          (rw (← filter-map (is_recent name type since) db.alert_log) (Perm.symm by_time)),
    )

selected_fields :
    (name type : String) (since : Time) (row : AlertRow)
    → IsWritten row
    → IsStorable since
    → is_selected name type (format_ts since) row ≡ true
    → (row.site_name ≡ name) × (row.alert_type ≡ type) × (second_of since ≤ second_at row)
unfolding is_selected
selected_fields name type since row w h t =
    ground
      (arith, eq_iff row.site_name name, eq_iff row.alert_type type, below_of_second row since w h)

pub selected_later :
    (name type : String) (since : Time) (row : AlertRow)
    → row.site_name ≡ name
    → row.alert_type ≡ type
    → is_below row.sent_at (format_ts since) ≡ false
    → is_selected name type (format_ts since) row ≡ true
unfolding is_selected
selected_later name type since row n ty f =
    ground (arith, eq_iff row.site_name name, eq_iff row.alert_type type)

pub mem_filter_rows :
    (p : AlertRow → Bool) (rows : List AlertRow) (row : AlertRow)
    → Mem row (order_by_sent_at (filter p rows)) ↔ (Mem row rows × (p row ≡ true))
mem_filter_rows p rows row = (
  λ m. (mem-filter p rows).0 (Perm.subset (order_by_sent_at-perm (filter p rows)) row m),
  λ m.
      Perm.subset (Perm.symm (order_by_sent_at-perm (filter p rows))) row ((mem-filter p rows).1 m),
)

-- A search of the SQLite store, from a storable time and in a log whose times formatTS has
-- written, finds only records of the log that are of the site and the type and not of an earlier
-- second, and it finds all of those that are of a later second.
pub find_recent_alerts_bounds :
    (name type : String) (since : Time) (db : Database)
    → IsStorable since
    → ((row : AlertRow) → Mem row db.alert_log → IsWritten row)
    → (rows : List AlertRow) × (find_recent_alerts none name type since db
        ≡ ok (map scan_alert rows))
      × ((row : AlertRow)
          → Mem row rows
          → Mem row db.alert_log
            × (row.site_name ≡ name)
            × (row.alert_type ≡ type)
            × (second_of since ≤ second_at row))
      × ((row : AlertRow)
          → Mem row db.alert_log
          → row.site_name ≡ name
          → row.alert_type ≡ type
          → second_of since < second_at row
          → Mem row rows)
unfolding find_recent_alerts
find_recent_alerts_bounds name type since db h written =
    let p = is_selected name type (format_ts since) in
    (
      order_by_sent_at (filter p db.alert_log),
      refl,
      λ row m.
          let (mem, t) = (mem_filter_rows p db.alert_log row).0 m in
          let (n, ty, s) = selected_fields name type since row (written row mem) h t in
          (mem, n, ty, s),
      λ row m n ty s. (mem_filter_rows p db.alert_log row).1 (
        m,
        selected_later name type since row n ty (not_below_of_second row since (written row m) h s),
      ),
    )
