-- ===== src/Examples/Database.antt =====
-- internal/storage/sqlite.go at work.
use mathlib.Core.List.{Mem, Perm}
use domainturva.Prelude.{
  ℕ, ◌+◌, pos, ◌+ℤ◌, ◌-ℤ◌, String, ◌≡◌, ◌==◌, refl, if◌then◌else◌, false, not, List, [], ◌∷◌, none,
  some, ok, err, Result, ascii, filter, arith, ◌&&◌, All,
}
use domainturva.Time.{Time, zero_time}
use domainturva.Time.Ascii.{digits, read_digits}
use domainturva.Time.Calendar.{position, calendar_years, month_lengths, days_before, length_at}
use domainturva.Time.Rfc3339.{
  from_year_zero, format_nano, parse_rfc3339, second_text, date_text, clock_text, fields_text,
  fraction_text, trim_zeros, read_date, read_clock, read_fields, read_fraction, read_zone,
  read_offset, span_digits, pad_zeros, expect, valid_day, day_number,
}
use domainturva.Storage.{SiteState, AlertRecord}
use domainturva.Storage.Memory as Memory
use domainturva.Storage.Memory.{new_memory}
use domainturva.Storage.Sqlite.View.{view}
use domainturva.Storage.Sqlite.Search.{IsWritten}
use domainturva.Storage.Sqlite.Migrations.Order.{IsOrdered}
use domainturva.Storage.Sqlite.{
  AlertRow, Database, empty_database, format_ts, parse_ts, alert_row, scan_alert, record_alert,
  find_recent_alerts,
}
use domainturva.Storage.Sqlite.Order.{IsStorable, parse_ts-format_ts}
use domainturva.Storage.Sqlite.Misses.{nanos_of, IsLater, find_recent_alerts-misses}
use domainturva.Storage.Sqlite.Runs.{
  put_state, put_alert, Statement, run, run_memory, Refines, run-Refines,
}
use domainturva.Storage.Sqlite.Migrations.{
  Entry, Schema, Opening, Round, is_applied, is_sql, read_versions, migration_files, migrate,
  apply_migration, apply_migrations,
}
use domainturva.Storage.Sqlite.Migrations.Laws.{IsMigrated, migrate-IsMigrated}
use domainturva.Storage.Sqlite.Migrations.Again.{migrate_again}

-- 2024-02-29T12:34:56.78Z, and the second that it is in.
abbrev leap : Time
leap = pos 63844806896780000000

abbrev whole : Time
whole = pos 63844806896000000000

format_tests :
    (format_nano leap ≡ ascii "2024-02-29T12:34:56.78Z")
    × (format_nano whole ≡ ascii "2024-02-29T12:34:56Z")
    × (format_nano zero_time ≡ ascii "0001-01-01T00:00:00Z")
unfolding format_nano second_text date_text clock_text fields_text fraction_text trim_zeros digits
    position calendar_years month_lengths from_year_zero ◌+ℤ◌
format_tests = (refl, refl, refl)

parse_tests :
    (parse_rfc3339 (ascii "2024-02-29T12:34:56.78Z") ≡ some leap)
    × (parse_rfc3339 (ascii "2024-02-29T14:34:56.780000000+02:00") ≡ some leap)
    × (parse_rfc3339 (ascii "2023-02-29T12:34:56Z") ≡ none)
    × (parse_rfc3339 (ascii "2024-02-29 12:34:56Z") ≡ none)
unfolding parse_rfc3339 read_date read_clock read_fields read_fraction read_zone read_offset
    span_digits pad_zeros expect valid_day day_number read_digits days_before length_at
    calendar_years month_lengths ◌-ℤ◌
parse_tests = (refl, refl, refl, refl)

leap-IsStorable : IsStorable leap
unfolding from_year_zero ◌+ℤ◌
leap-IsStorable = omega arith

whole-IsStorable : IsStorable whole
unfolding from_year_zero ◌+ℤ◌
whole-IsStorable = omega arith

parse_ts-format_ts_example : parse_ts (format_ts leap) ≡ leap
parse_ts-format_ts_example = parse_ts-format_ts leap leap-IsStorable

abbrev sent : AlertRecord
sent = record {
  id = pos 0;
  site_name = "a";
  alert_type = "down";
  threshold = pos 0;
  cert_serial = "";
  payload = "{}";
  sent_at = leap;
  notifier = "ops";
  status = "";
}

abbrev row : AlertRow
row = alert_row (pos 1) sent

abbrev one_row : Database
one_row = record empty_database { alert_log = row ∷ []; last_id = pos 1 }

record_alert_test : record_alert none sent empty_database ≡ (one_row, none)
unfolding record_alert alert_row ◌+ℤ◌
record_alert_test = refl

whole_nanos : nanos_of whole ≡ 0
unfolding from_year_zero ◌+ℤ◌
whole_nanos = refl

log-IsWritten : All IsWritten one_row.alert_log
unfolding alert_row
log-IsWritten = ((leap, leap-IsStorable, refl), tt)

-- The alert was sent 780 milliseconds after the time that the search begins with.
find_recent_alerts-misses_example :
    (found : List AlertRecord) × (found' : List AlertRecord) × (find_recent_alerts none "a" "down"
        whole one_row
      ≡ ok found)
    × (Memory.find_recent_alerts "a" "down" whole (view one_row) ≡ ok found')
    × ((a : AlertRecord)
        → Mem a (view one_row).alerts
        → a.site_name ≡ "a"
        → a.alert_type ≡ "down"
        → IsLater whole a
        → Mem a found' × ¬ Mem a found)
find_recent_alerts-misses_example =
    find_recent_alerts-misses "a" "down" whole one_row (omega arith) whole_nanos log-IsWritten

-- The only record of the log is such a one.
log-IsLater : All (IsLater whole) (view one_row).alerts
unfolding scan_alert alert_row parse_ts format_ts from_year_zero ◌+ℤ◌
log-IsLater = (
  (
    rw (parse_ts-format_ts leap leap-IsStorable) (omega arith),
    rw (parse_ts-format_ts leap leap-IsStorable) refl,
  ),
  tt,
)

abbrev state : SiteState
state = record {
  site_name = "a";
  status = "up";
  last_check_at = leap;
  last_status_change_at = whole;
  consecutive_failures = pos 0;
  last_error = "";
}

-- The second write fails.
abbrev statements : List Statement
statements = (none, put_state state) ∷ (some "locked", put_alert sent) ∷ (none, put_alert sent) ∷ []

run-Refines_example : Refines (run statements empty_database) (run_memory statements new_memory)
run-Refines_example =
    run-Refines statements
      ((leap-IsStorable, whole-IsStorable), (leap-IsStorable, (leap-IsStorable, tt))) (omega arith)

-- Tables that count the scripts that were run; the third file's script fails.
abbrev count_scripts : String → ℕ → Result ℕ
count_scripts body n = if body == "bad" then err "syntax error" else ok (n + 1)

abbrev no_faults : String → Round
no_faults name = record { read = none; begin = none; insert = none; commit = none }

abbrev opened : Opening
opened = record { create = none; read_dir = none; query = none; rows_read = none }

abbrev file : String → String → Entry
file name body = record { name = name; is_dir = false; body = body }

abbrev files : List Entry
files =
    file "0002_b.sql" "good"
    ∷ file "README" "bad"
    ∷ file "0001_a.sql" "good"
    ∷ file "0003_c.sql" "bad"
    ∷ []

abbrev fresh : Schema ℕ
fresh = record { tables = 0; versions = [] }

migrate_test : migrate count_scripts no_faults opened files fresh ≡ (
  record { tables = 2; versions = "0001_a.sql" ∷ "0002_b.sql" ∷ [] },
  some "apply 0003_c.sql: syntax error",
)
unfolding migrate apply_migrations migration_files apply_migration
migrate_test = refl

-- The iteration over the versions ends early: the first file is tried again, and its version is a
-- key that is there.
again_test :
    migrate count_scripts no_faults
      (record opened { rows_read = some 0 })
      files
      (record { tables = 1; versions = "0001_a.sql" ∷ [] })
    ≡ (
      record { tables = 1; versions = "0001_a.sql" ∷ [] },
      some "UNIQUE constraint failed: schema_migrations.version",
    )
unfolding migrate apply_migrations migration_files apply_migration
again_test = refl

migrate-IsMigrated_example :
    (found : List Entry) × Perm found (filter (λ e. not e.is_dir && is_sql e.name) files)
    × IsOrdered found
    × IsMigrated count_scripts no_faults
        (filter (λ e. not (is_applied (read_versions none fresh.versions) e)) found)
        fresh
        (migrate count_scripts no_faults opened files fresh)
migrate-IsMigrated_example = migrate-IsMigrated count_scripts no_faults opened files fresh

abbrev good_files : List Entry
good_files = file "0001_a.sql" "good" ∷ []

good_migration : (migrate count_scripts no_faults opened good_files fresh).1 ≡ none
unfolding migrate apply_migrations migration_files apply_migration
good_migration = refl

migrate_again_example :
    let db = (migrate count_scripts no_faults opened good_files fresh).0 in
    migrate (λ body n. err "gone") no_faults opened good_files db ≡ (db, none)
migrate_again_example =
    migrate_again count_scripts (λ body n. err "gone") no_faults no_faults opened opened good_files
      fresh good_migration (refl, refl, refl, refl)
