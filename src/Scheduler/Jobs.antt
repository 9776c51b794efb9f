-- ===== src/Scheduler/Jobs.antt =====
-- The jobs that `Run` starts, and when they start.
use domainturva.Prelude.{
  ℕ, pos, ◌≤ℤ◌, ◌<ℤ◌, ◌≡◌, ◌↔◌, ◌⊎◌, Bool, true, ◌&&◌, List, [], ◌∷◌, Any, iff_trans, iff_or,
  iff_and, iff_refl, and_true_iff, Any-append_iff, Any-single_iff, Any-if_iff, if◌then◌else◌, arith,
}
use domainturva.Time.{Duration}
use domainturva.Config.{Site, Config}
use domainturva.Checker.{check_http, check_ssl, check_domain}
use domainturva.Scheduler.{Job, site_jobs, jobs, initial_jitter_cap, jitter_duration, first_delay}

-- The first check of a job with a positive interval waits less than the interval and less than 5
-- seconds, whatever the random number; with another interval it does not wait.
pub first_delay_lem :
    (random : ℕ) (interval : Duration)
    → (pos 0 <ℤ interval
        → (pos 0 ≤ℤ first_delay random interval)
          × (first_delay random interval <ℤ interval)
          × (first_delay random interval <ℤ initial_jitter_cap))
      × (interval ≤ℤ pos 0 → first_delay random interval ≡ pos 0)
unfolding first_delay jitter_duration
first_delay_lem random interval = ground arith

module _ (c : Config) (has_ssl has_domain : Bool) where
  -- The jobs of one site: always HTTP; SSL and domain where the site asks and a runner is there.
  abbrev pub IsJobOf : Job → Site → Type 0
  IsJobOf j site =
      (j ≡ record { site = site; typ = check_http; interval = site.interval })
      ⊎ ((((site.check_ssl ≡ true) × (has_ssl ≡ true))
            × (j ≡ record { site = site; typ = check_ssl; interval = c.ssl_check_interval }))
          ⊎ (((site.check_domain ≡ true) × (has_domain ≡ true))
              × (j ≡ record {
                site = site;
                typ = check_domain;
                interval = c.domain_check_interval;
              })))

  site_jobs_iff :
      (site : Site) (j : Job)
      → Any (λ x. j ≡ x) (site_jobs c has_ssl has_domain site) ↔ IsJobOf j site
  unfolding site_jobs
  site_jobs_iff site j =
      let P = λ (x : Job). j ≡ x in
      let http : Job = record { site = site; typ = check_http; interval = site.interval } in
      let ssl : Job = record { site = site; typ = check_ssl; interval = c.ssl_check_interval } in
      let domain : Job = record {
        site = site;
        typ = check_domain;
        interval = c.domain_check_interval;
      } in
      let asks_ssl = site.check_ssl && has_ssl in
      let asks_domain = site.check_domain && has_domain in
      iff_trans (Any-append_iff P (http ∷ []) _) (
        iff_or (Any-single_iff P http) (
          iff_trans
            (Any-append_iff P (if asks_ssl then ssl ∷ [] else [])
              (if asks_domain then domain ∷ [] else []))
            (iff_or
              (iff_trans (Any-if_iff P asks_ssl ssl)
                (iff_and (and_true_iff site.check_ssl has_ssl) iff_refl))
              (iff_trans (Any-if_iff P asks_domain domain)
                (iff_and (and_true_iff site.check_domain has_domain) iff_refl)))))

  -- Run starts a job exactly where it is the HTTP job of a site, or the SSL or domain job of a
  -- site that asks for it, with a runner that is there.
  pub jobs-IsJobOf :
      (sites : List Site) (j : Job)
      → Any (λ x. j ≡ x) (jobs c has_ssl has_domain sites) ↔ Any (IsJobOf j) sites
  unfolding jobs
  jobs-IsJobOf [] j = iff_refl
  jobs-IsJobOf (site ∷ sites) j =
      iff_trans
        (Any-append_iff (λ (x : Job). j ≡ x) (site_jobs c has_ssl has_domain site)
          (jobs c has_ssl has_domain sites))
        (iff_or (site_jobs_iff site j) (jobs-IsJobOf sites j))
