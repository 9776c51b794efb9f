-- ===== src/Storage/Sqlite/View.antt =====
-- The tables as the in-memory store that they stand for.
use domainturva.Prelude.{
  ◌≡◌, refl, ◌∙◌, ap, false, String, ◌==◌, eq_iff, none, List, [], ◌∷◌, ◌++◌, arith, inl, inr,
  Bool-cases, ℤ, pos, ◌+ℤ◌, wrap64, map, map-append, lookup, insert, ok, if◌then◌else◌, max_int64,
  ◌<ℤ◌, leb_ℤ, wrap64_fits, ◌≤ℤ◌,
}
use domainturva.Storage.{SiteState, AlertRecord, DomainCache}
use domainturva.Storage.Memory as Memory
use domainturva.Storage.Memory.{Memory, zero_site_state, zero_domain_cache, comma_ok}
use domainturva.Storage.Sqlite.{
  SiteRow, DomainRow, Database, select_row, upsert_row, scan_site, scan_alert, scan_domain,
  scan_row, site_row, set_site, alert_row, domain_row, set_domain, get_site_state,
  upsert_site_state, record_alert, get_domain_cache, upsert_domain_cache,
}
use domainturva.Storage.Sqlite.Order.{IsStorable, parse_ts-format_ts}

abbrev pub view : Database → Memory
view db = record {
  states = map (λ row. (row.site_name, scan_site row)) db.site_state;
  alerts = map scan_alert db.alert_log;
  domains = map (λ row. (row.site_name, scan_domain row)) db.domain_cache;
  next_id = db.last_id;
}

module _ {R V : Type 0} (key : R → String) (scan : R → V) where
  pub select_row-view :
      (zero_value : V) (name : String) (rows : List R)
      → scan_row zero_value scan (select_row key name rows)
        ≡ comma_ok zero_value (lookup name (map (λ row. (key row, scan row)) rows))
  unfolding select_row lookup
  select_row-view zero_value name [] = refl
  select_row-view zero_value name (row ∷ rows) = elim (Bool-cases (key row == name)) [
    | inl found ↦ rw found
    | inr other ↦ rw other (select_row-view zero_value name rows)
  ]

  pub upsert_row-view :
      (set : R → R → R) (excluded : R)
      → ((row : R)
          → key row ≡ key excluded
          → (key (set row excluded) ≡ key excluded) × (scan (set row excluded) ≡ scan excluded))
      → (rows : List R)
      → map (λ row. (key row, scan row)) (upsert_row key set excluded rows)
        ≡ insert (key excluded) (scan excluded) (map (λ row. (key row, scan row)) rows)
  unfolding upsert_row insert
  upsert_row-view set excluded h [] = refl
  upsert_row-view set excluded h (row ∷ rows) = elim (Bool-cases (key row == key excluded)) [
    | inl found ↦
        let (same_key, same_scan) = h row ((eq_iff _ _).0 found) in rw (found, same_key, same_scan)
    | inr other ↦ rw (other, upsert_row-view set excluded h rows)
  ]

-- What can be written to the table and read back.
abbrev pub IsStorableState : SiteState → Type 0
IsStorableState st = IsStorable st.last_check_at × IsStorable st.last_status_change_at

abbrev pub IsStorableCache : DomainCache → Type 0
IsStorableCache d = IsStorable d.expires_at × IsStorable d.last_lookup_at × IsStorable d.last_ok_at

pub scan_site-site_row : (st : SiteState) → IsStorableState st → scan_site (site_row st) ≡ st
unfolding scan_site site_row
scan_site-site_row st (a, b) =
    rw (parse_ts-format_ts st.last_check_at a, parse_ts-format_ts st.last_status_change_at b)

pub scan_domain-domain_row : (d : DomainCache) → IsStorableCache d → scan_domain (domain_row d) ≡ d
unfolding scan_domain domain_row
scan_domain-domain_row d (a, b, c) = rw (
  parse_ts-format_ts d.expires_at a,
  parse_ts-format_ts d.last_lookup_at b,
  parse_ts-format_ts d.last_ok_at c,
)

pub scan_alert-alert_row :
    (id : ℤ) (a : AlertRecord)
    → IsStorable a.sent_at
    → scan_alert (alert_row id a)
      ≡ record a { id = id; status = if a.status == "" then "sent" else a.status }
unfolding scan_alert alert_row
scan_alert-alert_row id a h = rw (parse_ts-format_ts a.sent_at h)

pub get_site_state-view :
    (name : String) (db : Database)
    → get_site_state none name db ≡ Memory.get_site_state name (view db)
unfolding get_site_state Memory.get_site_state
get_site_state-view name db =
    ap ok (select_row-view (λ row. row.site_name) scan_site zero_site_state name db.site_state)

pub get_domain_cache-view :
    (name : String) (db : Database)
    → get_domain_cache none name db ≡ Memory.get_domain_cache name (view db)
unfolding get_domain_cache Memory.get_domain_cache
get_domain_cache-view name db =
    ap ok
      (select_row-view (λ row. row.site_name) scan_domain zero_domain_cache name db.domain_cache)

pub set_site_lem :
    (excluded row : SiteRow)
    → row.site_name ≡ excluded.site_name
    → ((set_site row excluded).site_name ≡ excluded.site_name)
      × (scan_site (set_site row excluded) ≡ scan_site excluded)
unfolding set_site scan_site
set_site_lem excluded row e = (e, ground arith)

set_domain_lem :
    (excluded row : DomainRow)
    → row.site_name ≡ excluded.site_name
    → ((set_domain row excluded).site_name ≡ excluded.site_name)
      × (scan_domain (set_domain row excluded) ≡ scan_domain excluded)
unfolding set_domain scan_domain
set_domain_lem excluded row e = (e, ground arith)

pub upsert_site_state-view :
    (st : SiteState) (db : Database)
    → IsStorableState st
    → view (upsert_site_state none st db).0 ≡ (Memory.upsert_site_state st (view db)).0
unfolding upsert_site_state Memory.upsert_site_state site_row
upsert_site_state-view st db h =
    let rows =
      upsert_row-view (λ row. row.site_name) scan_site set_site (site_row st)
        (set_site_lem (site_row st)) db.site_state in
    ap (λ states. record (view db) { states = states }) (rw (scan_site-site_row st h) at rows)

pub upsert_domain_cache-view :
    (d : DomainCache) (db : Database)
    → IsStorableCache d
    → view (upsert_domain_cache none d db).0 ≡ (Memory.upsert_domain_cache d (view db)).0
unfolding upsert_domain_cache Memory.upsert_domain_cache domain_row
upsert_domain_cache-view d db h =
    let rows =
      upsert_row-view (λ row. row.site_name) scan_domain set_domain (domain_row d)
        (set_domain_lem (domain_row d)) db.domain_cache in
    ap (λ domains. record (view db) { domains = domains }) (rw (scan_domain-domain_row d h) at rows)

pub record_alert-view :
    (a : AlertRecord) (db : Database)
    → IsStorable a.sent_at
    → pos 0 ≤ℤ db.last_id
    → db.last_id <ℤ max_int64
    → view (record_alert none a db).0 ≡ (Memory.record_alert a (view db)).0
unfolding record_alert Memory.record_alert
record_alert-view a db h low high =
    let id = db.last_id +ℤ pos 1 in
    let room : leb_ℤ max_int64 db.last_id ≡ false = ground arith in
    let fits : wrap64 id ≡ id = wrap64_fits id (unfold ◌+ℤ◌ in ground arith) in
    let rows : map scan_alert (db.alert_log ++ alert_row id a ∷ [])
        ≡ map scan_alert db.alert_log
          ++ record a { id = id; status = if a.status == "" then "sent" else a.status } ∷ [] =
      map-append scan_alert db.alert_log (alert_row id a ∷ []) ∙ rw (scan_alert-alert_row id a h) in
    rw (room, fits) (ap (λ alerts. record (view db) { alerts = alerts; next_id = id }) rows)
