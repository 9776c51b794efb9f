-- ===== src/Storage.antt =====
-- internal/storage/storage.go: the persisted records, and the interface `Storage` as a record of
-- operations over a state `S`. A `Get` or `Find` leaves the state alone; a write returns the new
-- state and the error, if any.
pub mod Memory
pub mod Lawful
pub mod States
pub mod Sqlite
use domainturva.Prelude.{ℤ, String, Bool, Option, List, Result}
use domainturva.Time.{Time}

pub record SiteState : Type 0 where
  pub site_name : String
  pub status : String
  pub last_check_at : Time
  pub last_status_change_at : Time
  pub consecutive_failures : ℤ
  pub last_error : String

pub record AlertRecord : Type 0 where
  pub id : ℤ
  pub site_name : String
  pub alert_type : String
  pub threshold : ℤ  -- 0 if not applicable
  pub cert_serial : String  -- for SSL alerts, to detect renewals
  pub payload : String
  pub sent_at : Time
  pub notifier : String
  pub status : String  -- "sent" or "failed"

pub record DomainCache : Type 0 where
  pub site_name : String
  pub expires_at : Time
  pub last_lookup_at : Time
  pub last_ok_at : Time
  pub source : String
  pub error : String

pub record Storage (S : Type 0) : Type 0 where
  pub get_site_state : String → S → Result (SiteState × Bool)
  pub upsert_site_state : SiteState → S → S × Option String
  pub record_alert : AlertRecord → S → S × Option String
  pub find_recent_alerts : String → String → Time → S → Result (List AlertRecord)
  pub get_domain_cache : String → S → Result (DomainCache × Bool)
  pub upsert_domain_cache : DomainCache → S → S × Option String
