-- ===== src/Health.antt =====
-- internal/health/health.go: what `/healthz` answers.
pub mod Threshold
pub mod Laws
pub mod Server
use domainturva.Prelude.{
  ℤ, pos, ltb_ℤ, eqb_ℤ, wrap64, ◌+ℤ◌, String, Bool, true, false, List, [], ◌∷◌, Result, ok, err,
  length, ℕ, suc, ◌+◌, ◌*◌, ◌/◌, ◌%◌, ◌^◌, negsuc, neg_ℤ, ◌≡◌, refl, if◌then◌else◌,
}
use domainturva.Time.{Time, Duration, zero_time, is_zero_time, sub_time, after, seconds, second_ns}
use domainturva.Checker.Days.{nearest}
use domainturva.Storage.{SiteState, Storage}
use domainturva.Config.{Site, Config}

-- The loop of `staleThreshold`.
unfoldable pub max_interval : Duration → List Site → Duration
max_interval m [] = m
max_interval m (site ∷ sites) =
    max_interval (if ltb_ℤ m site.interval then site.interval else m) sites

-- `2 * max` in an `int64`.
unfoldable pub stale_threshold : List Site → Duration
unfolding max_interval wrap64 ◌+ℤ◌
stale_threshold sites =
    let m = max_interval (pos 0) sites in
    let m' = if eqb_ℤ m (pos 0) then seconds 60 else m in wrap64 (m' +ℤ m')

module _ {S : Type 0} (store : Storage S) (s : S) where
  -- One round of the loop of `healthState`.
  unfoldable pub later_check : Time → Site → Time
  later_check latest site = elim (store.get_site_state site.name s) [
    | err _ ↦ latest
    | ok (st, found) ↦
        if found then if after st.last_check_at latest then st.last_check_at else latest else latest
  ]

  unfoldable pub latest_check : Time → List Site → Time
  unfolding later_check
  latest_check latest [] = latest
  latest_check latest (site ∷ sites) = latest_check (later_check latest site) sites

-- Whether `handleHealthz` finds the checks stale.
unfoldable pub is_stale : (now started latest : Time) → Duration → Bool
unfolding sub_time
is_stale now started latest threshold =
    if is_zero_time latest
    then ltb_ℤ threshold (sub_time now started)
    else ltb_ℤ threshold (sub_time now latest)

-- `int64(d.Seconds())`, by way of a `float64`: the whole seconds plus the rest.
seconds_of : ℕ → ℕ
unfolding nearest
seconds_of n =
    let part = nearest (n % second_ns) second_ns in
    let sum = nearest (n / second_ns * 2 ^ part.scale + part.significand) (2 ^ part.scale) in
    sum.significand / 2 ^ sum.scale

unfoldable pub whole_seconds : Duration → ℤ
unfolding seconds_of
whole_seconds (pos n) = pos (seconds_of n)
whole_seconds (negsuc n) = neg_ℤ (pos (seconds_of (suc n)))

-- The last seconds of a long run are rounded up before they are cut off.
whole_seconds_tests :
    (whole_seconds (seconds 90) ≡ pos 90)
    × (whole_seconds (pos 1_999_999_999) ≡ pos 1)
    × (whole_seconds (pos (20_000_000 * second_ns + 999_999_999)) ≡ pos 20_000_001)
unfolding whole_seconds
whole_seconds_tests = (refl, refl, refl)

pub record HealthResponse : Type 0 where
  pub code : ℕ
  pub status : String
  pub version : String
  pub uptime_seconds : ℤ
  pub sites : ℕ
  pub latest_check_at : Time
  pub stale_after : Duration
  pub stale : Bool

-- The answer; `started` is when the server was made.
unfoldable pub handle_healthz :
    {S : Type 0}
    → Storage S
    → (version : String) → Config
    → (now started : Time) → S
    → HealthResponse
unfolding is_stale latest_check stale_threshold
handle_healthz store version c now started s =
    let latest = latest_check store s zero_time c.sites in
    let threshold = stale_threshold c.sites in
    let stale = is_stale now started latest threshold in
    record {
      code = if stale then 503 else 200;
      status = if stale then "stale" else "ok";
      version = version;
      uptime_seconds = whole_seconds (sub_time now started);
      sites = length c.sites;
      latest_check_at = latest;
      stale_after = threshold;
      stale = stale;
    }
