-- ===== src/Storage/Lawful.antt =====
-- What the clients of a `Storage` rely on, as an abstract view of its state: a map of site states,
-- an alert log in the order of writing, and a map of domain caches. `Storage.Memory` has it by
-- the theorems of Storage/Memory/Laws.
use domainturva.Prelude.{
  ℤ, String, ◌==◌, ◌≡◌, Bool, ◌&&◌, Option, some, List, [], ◌∷◌, ◌++◌, any, ok, if◌then◌else◌,
}
use domainturva.Time.{Time}
use domainturva.Storage.{SiteState, AlertRecord, DomainCache, Storage}
use domainturva.Storage.Memory.{zero_site_state, zero_domain_cache, comma_ok, is_recent}

-- A record as it stands in the log: numbered, and with a status.
abbrev pub stored : ℤ → AlertRecord → AlertRecord
stored n a = record a { id = n; status = if a.status == "" then "sent" else a.status }

pub record Lawful {S : Type 0} (store : Storage S) : Type 0 where
  pub state_of : S → String → Option SiteState
  pub log : S → List AlertRecord
  pub cache_of : S → String → Option DomainCache
  pub get_state :
      (n : String) (s : S) → store.get_site_state n s ≡ ok (comma_ok zero_site_state (state_of s n))
  pub put_state :
      (x : SiteState) (s : S) (n : String)
      → state_of (store.upsert_site_state x s).0 n
        ≡ (if x.site_name == n then some x else state_of s n)
  pub put_state_log : (x : SiteState) (s : S) → log (store.upsert_site_state x s).0 ≡ log s
  pub put_state_cache :
      (x : SiteState) (s : S) (n : String)
      → cache_of (store.upsert_site_state x s).0 n ≡ cache_of s n
  -- A search finds what the log holds, in some order.
  pub find :
      (n type : String) (since : Time) (s : S)
      → (found : List AlertRecord) × (store.find_recent_alerts n type since s ≡ ok found)
        × ((p : AlertRecord → Bool)
            → any p found ≡ any (λ a. is_recent n type since a && p a) (log s))
  pub append :
      (a : AlertRecord) (s : S)
      → (n : ℤ) × (log (store.record_alert a s).0 ≡ log s ++ stored n a ∷ [])
  pub append_state :
      (a : AlertRecord) (s : S) (n : String) → state_of (store.record_alert a s).0 n ≡ state_of s n
  pub append_cache :
      (a : AlertRecord) (s : S) (n : String) → cache_of (store.record_alert a s).0 n ≡ cache_of s n
  pub get_cache :
      (n : String) (s : S)
      → store.get_domain_cache n s ≡ ok (comma_ok zero_domain_cache (cache_of s n))
  pub put_cache :
      (x : DomainCache) (s : S) (n : String)
      → cache_of (store.upsert_domain_cache x s).0 n
        ≡ (if x.site_name == n then some x else cache_of s n)
  pub put_cache_state :
      (x : DomainCache) (s : S) (n : String)
      → state_of (store.upsert_domain_cache x s).0 n ≡ state_of s n
  pub put_cache_log : (x : DomainCache) (s : S) → log (store.upsert_domain_cache x s).0 ≡ log s
