-- ===== src/Storage/Sqlite/States.antt =====
-- SQLite as a `Storage`, with the driver's errors as functions of the operation and the tables, and the states
-- of sites in it.
use domainturva.Prelude.{
  String, ◌==◌, ◌≡◌, refl, ap, ◌∙◌, Option, none, some, map, lookup, lookup-insert, ok, err, ◌⊎◌,
  inl, inr, if◌then◌else◌, arith,
}
use domainturva.Time.{Time}
use domainturva.Storage.{SiteState, AlertRecord, DomainCache, Storage}
use domainturva.Storage.States.{KeepsStates}
use domainturva.Storage.Memory.{zero_site_state, comma_ok}
use domainturva.Storage.Sqlite.{
  Database, scan_site, site_row, set_site, get_site_state, upsert_site_state, record_alert,
  find_recent_alerts, get_domain_cache, upsert_domain_cache,
}
use domainturva.Storage.Sqlite.View.{view, select_row-view, upsert_row-view, set_site_lem}

-- The error of each operation, if any.
pub record Faults : Type 0 where
  pub get_site_state : String → Database → Option String
  pub upsert_site_state : SiteState → Database → Option String
  pub record_alert : AlertRecord → Database → Option String
  pub find_recent_alerts : String → String → Time → Database → Option String
  pub get_domain_cache : String → Database → Option String
  pub upsert_domain_cache : DomainCache → Database → Option String

-- `*SQLite` as a `Storage`.
abbrev pub sqlite : Faults → Storage Database
sqlite f = record {
  get_site_state = λ n db. get_site_state (f.get_site_state n db) n db;
  upsert_site_state = λ st db. upsert_site_state (f.upsert_site_state st db) st db;
  record_alert = λ a db. record_alert (f.record_alert a db) a db;
  find_recent_alerts =
      λ n type since db. find_recent_alerts (f.find_recent_alerts n type since db) n type since db;
  get_domain_cache = λ n db. get_domain_cache (f.get_domain_cache n db) n db;
  upsert_domain_cache = λ d db. upsert_domain_cache (f.upsert_domain_cache d db) d db;
}

abbrev state_of : Database → String → Option SiteState
state_of db n = lookup n (view db).states

pub get_site_state_cases :
    (fault : Option String) (n : String) (db : Database)
    → (get_site_state fault n db ≡ ok (comma_ok zero_site_state (state_of db n)))
      ⊎ ((message : String) × (get_site_state fault n db ≡ err message))
unfolding get_site_state
get_site_state_cases none n db =
    inl (ap ok (select_row-view (λ row. row.site_name) scan_site zero_site_state n db.site_state))
get_site_state_cases (some message) n db = inr (message, refl)

pub upsert_site_state_lem :
    (x : SiteState) (db : Database) (n : String)
    → state_of (upsert_site_state none x db).0 n
      ≡ (if x.site_name == n then some (scan_site (site_row x)) else state_of db n)
unfolding upsert_site_state site_row
upsert_site_state_lem x db n =
    ap (lookup n) (
      upsert_row-view (λ row. row.site_name) scan_site set_site (site_row x)
        (set_site_lem (site_row x)) db.site_state)
    ∙ lookup-insert x.site_name n (scan_site (site_row x)) (view db).states

pub record_alert-site_state :
    (fault : Option String) (a : AlertRecord) (db : Database)
    → (record_alert fault a db).0.site_state ≡ db.site_state
unfolding record_alert
record_alert-site_state none a db = ground arith
record_alert-site_state (some message) a db = ground arith

pub upsert_domain_cache-site_state :
    (fault : Option String) (d : DomainCache) (db : Database)
    → (upsert_domain_cache fault d db).0.site_state ≡ db.site_state
unfolding upsert_domain_cache
upsert_domain_cache-site_state none d db = refl
upsert_domain_cache-site_state (some message) d db = refl

unfoldable pub sqlite-KeepsStates :
    (f : Faults)
    → ((st : SiteState) (db : Database) → f.upsert_site_state st db ≡ none)
    → KeepsStates (sqlite f)
unfolding scan_site site_row
sqlite-KeepsStates f writes = record {
  state_of = state_of;
  reads = λ n db. get_site_state_cases (f.get_site_state n db) n db;
  kept = λ x. scan_site (site_row x);
  kept_name = λ x. refl;
  kept_status = λ x. refl;
  put_state = λ x db n. rw (writes x db) (upsert_site_state_lem x db n);
  append_state = λ a db n.
      ap (λ rows. lookup n (map (λ row. (row.site_name, scan_site row)) rows))
        (record_alert-site_state (f.record_alert a db) a db);
  put_cache_state = λ d db n.
      ap (λ rows. lookup n (map (λ row. (row.site_name, scan_site row)) rows))
        (upsert_domain_cache-site_state (f.upsert_domain_cache d db) d db);
}
