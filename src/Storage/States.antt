-- ===== src/Storage/States.antt =====
-- What the up/down machine needs of a `Storage`: a map of site states that only `UpsertSiteState`
-- changes. A read may fail, a search may find anything, and the times of a state need not survive.
use domainturva.Prelude.{String, ◌==◌, ◌≡◌, refl, ◌⊎◌, inl, Option, some, ok, err, if◌then◌else◌}
use domainturva.Storage.{SiteState, AlertRecord, DomainCache, Storage}
use domainturva.Storage.Memory.{zero_site_state, comma_ok}
use domainturva.Storage.Lawful.{Lawful}

-- `state_of` is the map.
pub record KeepsStates {S : Type 0} (store : Storage S) : Type 0 where
  pub state_of : S → String → Option SiteState
  pub reads :
      (n : String) (s : S)
      → (store.get_site_state n s ≡ ok (comma_ok zero_site_state (state_of s n)))
        ⊎ ((message : String) × (store.get_site_state n s ≡ err message))
  -- What is read back of a state has its name and its status.
  pub kept : SiteState → SiteState
  pub kept_name : (x : SiteState) → (kept x).site_name ≡ x.site_name
  pub kept_status : (x : SiteState) → (kept x).status ≡ x.status
  pub put_state :
      (x : SiteState) (s : S) (n : String)
      → state_of (store.upsert_site_state x s).0 n
        ≡ (if x.site_name == n then some (kept x) else state_of s n)
  pub append_state :
      (a : AlertRecord) (s : S) (n : String) → state_of (store.record_alert a s).0 n ≡ state_of s n
  pub put_cache_state :
      (d : DomainCache) (s : S) (n : String)
      → state_of (store.upsert_domain_cache d s).0 n ≡ state_of s n

abbrev pub Lawful-KeepsStates : {S : Type 0} {store : Storage S} → Lawful store → KeepsStates store
Lawful-KeepsStates law = record {
  state_of = law.state_of;
  reads = λ n s. inl (law.get_state n s);
  kept = λ x. x;
  kept_name = λ x. refl;
  kept_status = λ x. refl;
  put_state = law.put_state;
  append_state = law.append_state;
  put_cache_state = law.put_cache_state;
}
