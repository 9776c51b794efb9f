-- ===== src/Storage/Memory.antt =====
-- internal/storage/memory.go: the in-memory `Storage`. The mutex makes each method atomic, so a
-- method is a function on the state.
pub mod Laws
use domainturva.Prelude.{
  ℤ, pos, ◌+ℤ◌, leb_ℤ, ltb_ℤ, wrap64, String, ◌==◌, Bool, true, false, ◌&&◌, not, Option, none,
  some, List, [], ◌∷◌, ◌++◌, filter, Dict, lookup, insert, Result, ok, if◌then◌else◌,
}
use domainturva.Time.{Time, zero_time, before, after}
use domainturva.Storage.{SiteState, AlertRecord, DomainCache, Storage}

pub record Memory : Type 0 where
  pub states : Dict SiteState
  pub alerts : List AlertRecord
  pub domains : Dict DomainCache
  pub next_id : ℤ

unfoldable pub new_memory : Memory
new_memory = record { states = []; alerts = []; domains = []; next_id = pos 0 }

-- The zero values that Go returns for a missing key.
abbrev pub zero_site_state : SiteState
zero_site_state = record {
  site_name = "";
  status = "";
  last_check_at = zero_time;
  last_status_change_at = zero_time;
  consecutive_failures = pos 0;
  last_error = "";
}

abbrev pub zero_domain_cache : DomainCache
zero_domain_cache = record {
  site_name = "";
  expires_at = zero_time;
  last_lookup_at = zero_time;
  last_ok_at = zero_time;
  source = "";
  error = "";
}

-- `v, ok := m[k]`
abbrev pub comma_ok : {V : Type 0} → V → Option V → V × Bool
comma_ok zero none = (zero, false)
comma_ok zero (some v) = (v, true)

unfoldable pub get_site_state : String → Memory → Result (SiteState × Bool)
unfolding lookup
get_site_state name m = ok (comma_ok zero_site_state (lookup name m.states))

unfoldable pub upsert_site_state : SiteState → Memory → Memory × Option String
upsert_site_state s m = (record m { states = insert s.site_name s m.states }, none)

unfoldable pub record_alert : AlertRecord → Memory → Memory × Option String
record_alert a m =
    let next = wrap64 (m.next_id +ℤ pos 1) in
    let a' = record a { id = next; status = if a.status == "" then "sent" else a.status } in
    (record m { next_id = next; alerts = m.alerts ++ a' ∷ [] }, none)

-- Whether `FindRecentAlerts` keeps a record.
abbrev pub is_recent : String → String → Time → AlertRecord → Bool
is_recent name type since a =
    a.site_name == name && (a.alert_type == type && not (before a.sent_at since))

-- `sort.Slice` by `SentAt`, latest first. It leaves the order of equal times open; here it is the
-- order of insertion.
unfoldable pub insert_desc : AlertRecord → List AlertRecord → List AlertRecord
insert_desc a [] = a ∷ []
insert_desc a (b ∷ bs) = if after b.sent_at a.sent_at then b ∷ insert_desc a bs else a ∷ b ∷ bs

unfoldable pub sort_desc : List AlertRecord → List AlertRecord
unfolding insert_desc
sort_desc [] = []
sort_desc (a ∷ rest) = insert_desc a (sort_desc rest)

unfoldable pub find_recent_alerts : String → String → Time → Memory → Result (List AlertRecord)
find_recent_alerts name type since m = ok (sort_desc (filter (is_recent name type since) m.alerts))

unfoldable pub get_domain_cache : String → Memory → Result (DomainCache × Bool)
get_domain_cache name m = ok (comma_ok zero_domain_cache (lookup name m.domains))

unfoldable pub upsert_domain_cache : DomainCache → Memory → Memory × Option String
upsert_domain_cache d m = (record m { domains = insert d.site_name d m.domains }, none)

-- `*Memory` as a `Storage`.
abbrev pub memory : Storage Memory
memory = record {
  get_site_state = get_site_state;
  upsert_site_state = upsert_site_state;
  record_alert = record_alert;
  find_recent_alerts = find_recent_alerts;
  get_domain_cache = get_domain_cache;
  upsert_domain_cache = upsert_domain_cache;
}
