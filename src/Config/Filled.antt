-- ===== src/Config/Filled.antt =====
-- What `applyDefaults` leaves.
use domainturva.Prelude.{
  ℤ, pos, eqb_ℤ_iff, String, ◌==◌, eq_iff, ==-eq-false, false, ◌≡◌, ◌≢◌, refl, List, [], ◌∷◌, map,
  All, is_empty, if◌then◌else◌, arith,
}
use domainturva.Time.{Duration}
use domainturva.Config.{Site, Config, or_default, site_defaults, apply_defaults}
use domainturva.Config.Defaults

or_default_ne : (d x : ℤ) → d ≢ pos 0 → or_default d x ≢ pos 0
or_default_ne d x h = ground (arith, eqb_ℤ_iff x (pos 0))

or_default_idem : (d x : ℤ) → or_default d (or_default d x) ≡ or_default d x
or_default_idem d x = ground arith

or_default_kept : (d x : ℤ) → x ≢ pos 0 → or_default d x ≡ x
or_default_kept d x h = ground (arith, eqb_ℤ_iff x (pos 0))

list_kept : (l d : List ℤ) → is_empty l ≡ false → (if is_empty l then d else l) ≡ l
list_kept l d h = rw h refl

path_kept : (p d : String) → p ≢ "" → (if p == "" then d else p) ≡ p
path_kept p d h = rw (==-eq-false p "" h) refl

path_ne : (p d : String) → d ≢ "" → (if p == "" then d else p) ≢ ""
path_ne p d h = ground (arith, eq_iff p "")

default_path_ne : Defaults.storage_path ≢ ""
default_path_ne h = ground (arith, eq_iff Defaults.storage_path "")

-- Neither the intervals, the timeout and the retries of a site are zero, nor is its list of
-- statuses empty.
abbrev pub IsFilledSite : Site → Type 0
IsFilledSite s =
    (s.interval ≢ pos 0)
    × (s.timeout ≢ pos 0)
    × (s.retries ≢ pos 0)
    × (is_empty s.expect_status ≡ false)

abbrev pub IsFilled : Config → Type 0
IsFilled c =
    (c.check_interval ≢ pos 0)
    × (c.ssl_check_interval ≢ pos 0)
    × (c.domain_check_interval ≢ pos 0)
    × (c.storage_path ≢ "")
    × All IsFilledSite c.sites

site_defaults-IsFilledSite :
    (d : Duration) (s : Site) → d ≢ pos 0 → IsFilledSite (site_defaults d s)
unfolding site_defaults
site_defaults-IsFilledSite d s h = (
  or_default_ne d s.interval h,
  or_default_ne _ s.timeout (λ e. ground arith),
  or_default_ne _ s.retries (λ e. ground arith),
  ground arith,
)

map-IsFilledSite :
    (d : Duration) (sites : List Site) → d ≢ pos 0 → All IsFilledSite (map (site_defaults d) sites)
map-IsFilledSite d [] h = tt
map-IsFilledSite d (s ∷ sites) h = (site_defaults-IsFilledSite d s h, map-IsFilledSite d sites h)

site_defaults_filled : (d : Duration) (s : Site) → IsFilledSite s → site_defaults d s ≡ s
unfolding site_defaults
site_defaults_filled d s (i, t, r, e) = cc (
  or_default_kept d s.interval i,
  or_default_kept Defaults.site_timeout s.timeout t,
  or_default_kept Defaults.site_retries s.retries r,
  list_kept s.expect_status (Defaults.expect_status ∷ []) e,
)

map_filled :
    (d : Duration) (sites : List Site)
    → All IsFilledSite sites
    → map (site_defaults d) sites ≡ sites
map_filled d [] h = refl
map_filled d (s ∷ sites) (p, h) = cc (site_defaults_filled d s p, map_filled d sites h)

apply_defaults-IsFilled : (c : Config) → IsFilled (apply_defaults c)
unfolding apply_defaults
apply_defaults-IsFilled c =
    let ne = or_default_ne Defaults.check_interval c.check_interval (λ e. ground arith) in
    (
      ne,
      or_default_ne _ c.ssl_check_interval (λ e. ground arith),
      or_default_ne _ c.domain_check_interval (λ e. ground arith),
      path_ne c.storage_path _ default_path_ne,
      map-IsFilledSite _ c.sites ne,
    )

apply_defaults_filled : (c : Config) → IsFilled c → apply_defaults c ≡ c
unfolding apply_defaults
apply_defaults_filled c (a, b, d, e, f) =
    let i = or_default_kept Defaults.check_interval c.check_interval a in
    let sites : map (site_defaults (or_default Defaults.check_interval c.check_interval)) c.sites
        ≡ c.sites =
      rw i (map_filled c.check_interval c.sites f) in
    cc (
      i,
      or_default_kept Defaults.ssl_check_interval c.ssl_check_interval b,
      or_default_kept Defaults.domain_check_interval c.domain_check_interval d,
      path_kept c.storage_path Defaults.storage_path e,
      sites,
    )

-- applyDefaults leaves no zero interval, timeout or number of retries, no empty list of statuses
-- and no empty path, and it changes nothing in a configuration that has none: once it has run, it
-- changes nothing more.
pub apply_defaults_lem :
    (c d : Config)
    → IsFilled (apply_defaults c)
      × (IsFilled d → apply_defaults d ≡ d)
      × (apply_defaults (apply_defaults c) ≡ apply_defaults c)
apply_defaults_lem c d =
    let filled = apply_defaults-IsFilled c in
    (filled, apply_defaults_filled d, apply_defaults_filled (apply_defaults c) filled)
