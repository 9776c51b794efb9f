-- ===== src/Storage/Sqlite.antt =====
-- internal/storage/sqlite.go: the `Storage` on SQLite, with the tables of migrations/0001_init.sql as
-- lists of rows and each SQL statement as what it says of them. A column of timestamps holds their
-- text; a column that may be NULL is an `Option`. The first argument of an operation is the error
-- that the driver reports, if any: a statement that fails changes nothing.
pub mod Migrations
pub mod Order
pub mod View
pub mod Search
pub mod Misses
pub mod Runs
pub mod States
use domainturva.Prelude.{
  Bytes, ℤ, pos, ◌+ℤ◌, leb_ℤ, max_int64, String, ◌==◌, Bool, true, false, ◌&&◌, not, Option, none,
  some, List, [], ◌∷◌, ◌++◌, map, filter, is_empty, Result, ok, err, if◌then◌else◌,
}
use domainturva.Time.{Time, zero_time, is_zero_time}
use domainturva.Time.Ascii.{is_below}
use domainturva.Time.Rfc3339.{format_nano, parse_rfc3339}
use domainturva.Storage.{SiteState, AlertRecord, DomainCache}
use domainturva.Storage.Memory.{zero_site_state, zero_domain_cache}

pub record SiteRow : Type 0 where
  pub site_name : String
  pub status : String
  pub last_check_at : Bytes
  pub last_status_change_at : Bytes
  pub consecutive_failures : ℤ
  pub last_error : Option String

pub record AlertRow : Type 0 where
  pub id : ℤ
  pub site_name : String
  pub alert_type : String
  pub threshold : Option ℤ
  pub cert_serial : Option String
  pub payload : Option String
  pub sent_at : Bytes
  pub notifier : String
  pub status : String

pub record DomainRow : Type 0 where
  pub site_name : String
  pub expires_at : Option Bytes
  pub last_lookup_at : Bytes
  pub last_ok_at : Option Bytes
  pub source : Option String
  pub error : Option String

-- `last_id` is the largest id that AUTOINCREMENT has given out.
pub record Database : Type 0 where
  pub site_state : List SiteRow
  pub alert_log : List AlertRow
  pub domain_cache : List DomainRow
  pub last_id : ℤ

abbrev pub empty_database : Database
empty_database = record { site_state = []; alert_log = []; domain_cache = []; last_id = pos 0 }

unfoldable pub format_ts : Time → Bytes
format_ts t = if is_zero_time t then [] else format_nano t

unfoldable pub parse_ts : Bytes → Time
parse_ts s = if is_empty s then zero_time else elim (parse_rfc3339 s) [
  -- the layout of older entries
  | none ↦ elim (parse_rfc3339 s) [ none ↦ zero_time | some t ↦ t ]
  | some t ↦ t
]

-- `if v.Valid { x = v.String }`, for an `x` that is a zero value.
abbrev pub or_zero {ℓ} : {V : Type ℓ} → V → Option V → V
or_zero zero_value none = zero_value
or_zero zero_value (some v) = v

-- `SELECT … WHERE site_name = ?`, of which `QueryRow` takes the first row.
module _ {R : Type 0} (key : R → String) where
  unfoldable pub select_row : String → List R → Option R
  select_row name [] = none
  select_row name (row ∷ rows) = if key row == name then some row else select_row name rows

  -- `INSERT … ON CONFLICT(site_name) DO UPDATE SET …`
  unfoldable pub upsert_row : (R → R → R) → R → List R → List R
  upsert_row set excluded [] = excluded ∷ []
  upsert_row set excluded (row ∷ rows) =
      let rest = upsert_row set excluded rows in
      if key row == key excluded then set row excluded ∷ rows else row ∷ rest

unfoldable pub scan_site : SiteRow → SiteState
scan_site row = record {
  site_name = row.site_name;
  status = row.status;
  last_check_at = parse_ts row.last_check_at;
  last_status_change_at = parse_ts row.last_status_change_at;
  consecutive_failures = row.consecutive_failures;
  last_error = or_zero "" row.last_error;
}

-- What `GetSiteState` and `GetDomainCache` return for the row that they find, if any.
abbrev pub scan_row : {R V : Type 0} → V → (R → V) → Option R → V × Bool
scan_row zero_value scan none = (zero_value, false)
scan_row zero_value scan (some row) = (scan row, true)

abbrev pub query : {V : Type 0} → Option String → V → Result V
query (some message) v = err message
query none v = ok v

abbrev pub exec : Option String → Database → Database → Database × Option String
exec (some message) changed db = (db, some message)
exec none changed db = (changed, none)

unfoldable pub get_site_state : Option String → String → Database → Result (SiteState × Bool)
get_site_state fault name db =
    query fault
      (scan_row zero_site_state scan_site (select_row (λ row. row.site_name) name db.site_state))

unfoldable pub site_row : SiteState → SiteRow
site_row st = record {
  site_name = st.site_name;
  status = st.status;
  last_check_at = format_ts st.last_check_at;
  last_status_change_at = format_ts st.last_status_change_at;
  consecutive_failures = st.consecutive_failures;
  last_error = some st.last_error;
}

unfoldable pub set_site : SiteRow → SiteRow → SiteRow
set_site row excluded = record row {
  status = excluded.status;
  last_check_at = excluded.last_check_at;
  last_status_change_at = excluded.last_status_change_at;
  consecutive_failures = excluded.consecutive_failures;
  last_error = excluded.last_error;
}

unfoldable pub upsert_site_state : Option String → SiteState → Database → Database × Option String
upsert_site_state fault st db =
    exec fault
      (record db {
        site_state = upsert_row (λ row. row.site_name) set_site (site_row st) db.site_state;
      })
      db

unfoldable pub alert_row : ℤ → AlertRecord → AlertRow
alert_row id a = record {
  id = id;
  site_name = a.site_name;
  alert_type = a.alert_type;
  threshold = some a.threshold;
  cert_serial = some a.cert_serial;
  payload = some a.payload;
  sent_at = format_ts a.sent_at;
  notifier = a.notifier;
  status = if a.status == "" then "sent" else a.status;
}

-- AUTOINCREMENT fails where the largest id is in use.
unfoldable pub record_alert : Option String → AlertRecord → Database → Database × Option String
record_alert fault a db =
    if leb_ℤ max_int64 db.last_id
    then (db, some "database or disk is full")
    else let id = db.last_id +ℤ pos 1 in
      exec fault (record db { alert_log = db.alert_log ++ alert_row id a ∷ []; last_id = id }) db

unfoldable pub scan_alert : AlertRow → AlertRecord
scan_alert row = record {
  id = row.id;
  site_name = row.site_name;
  alert_type = row.alert_type;
  threshold = or_zero (pos 0) row.threshold;
  cert_serial = or_zero "" row.cert_serial;
  payload = or_zero "" row.payload;
  sent_at = parse_ts row.sent_at;
  notifier = row.notifier;
  status = row.status;
}

-- `WHERE site_name = ? AND alert_type = ? AND sent_at >= ?`: the times are compared as texts.
unfoldable pub is_selected : String → String → Bytes → AlertRow → Bool
is_selected name type since row =
    row.site_name == name && (row.alert_type == type && not (is_below row.sent_at since))

-- `ORDER BY sent_at DESC`; it leaves the order of equal texts open, which is here that of the log.
unfoldable pub insert_by_sent_at : AlertRow → List AlertRow → List AlertRow
insert_by_sent_at a [] = a ∷ []
insert_by_sent_at a (b ∷ bs) =
    let rest = insert_by_sent_at a bs in
    if is_below a.sent_at b.sent_at then b ∷ rest else a ∷ b ∷ bs

unfoldable pub order_by_sent_at : List AlertRow → List AlertRow
order_by_sent_at [] = []
order_by_sent_at (a ∷ rest) = insert_by_sent_at a (order_by_sent_at rest)

unfoldable pub find_recent_alerts :
    Option String → String → String → Time → Database → Result (List AlertRecord)
find_recent_alerts fault name type since db = query fault (
    map scan_alert
      (order_by_sent_at (filter (is_selected name type (format_ts since)) db.alert_log)))

abbrev parse_null : Option Bytes → Time
parse_null none = zero_time
parse_null (some s) = parse_ts s

unfoldable pub scan_domain : DomainRow → DomainCache
scan_domain row = record {
  site_name = row.site_name;
  expires_at = parse_null row.expires_at;
  last_lookup_at = parse_ts row.last_lookup_at;
  last_ok_at = parse_null row.last_ok_at;
  source = or_zero "" row.source;
  error = or_zero "" row.error;
}

unfoldable pub get_domain_cache : Option String → String → Database → Result (DomainCache × Bool)
get_domain_cache fault name db = query fault (
    scan_row zero_domain_cache scan_domain (select_row (λ row. row.site_name) name db.domain_cache))

unfoldable pub domain_row : DomainCache → DomainRow
domain_row d = record {
  site_name = d.site_name;
  expires_at = some (format_ts d.expires_at);
  last_lookup_at = format_ts d.last_lookup_at;
  last_ok_at = some (format_ts d.last_ok_at);
  source = some d.source;
  error = some d.error;
}

unfoldable pub set_domain : DomainRow → DomainRow → DomainRow
set_domain row excluded = record row {
  expires_at = excluded.expires_at;
  last_lookup_at = excluded.last_lookup_at;
  last_ok_at = excluded.last_ok_at;
  source = excluded.source;
  error = excluded.error;
}

unfoldable pub upsert_domain_cache :
    Option String → DomainCache → Database → Database × Option String
upsert_domain_cache fault d db =
    exec fault
      (record db {
        domain_cache = upsert_row (λ row. row.site_name) set_domain (domain_row d) db.domain_cache;
      })
      db
