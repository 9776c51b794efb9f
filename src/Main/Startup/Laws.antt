-- ===== src/Main/Startup/Laws.antt =====
-- What `runCmd` starts, and when it exits instead.
use domainturva.Prelude.{
  ℕ, String, eq_iff, ◌≤ℤ◌, ◌≡◌, ◌≢◌, refl, sym, ◌∙◌, ap, ◌↔◌, ◌⊎◌, inl, inr, true, List, map, Any,
  All-Any, Result, ok, err, arith,
}
use domainturva.Time.{Time, seconds}
use domainturva.Storage.{AlertRecord}
use domainturva.Checker.{check_http, check_ssl, check_domain}
use domainturva.Config.{Site, Config, notifiers_for}
use domainturva.Config.Validity.{validate-IsValid}
use domainturva.Config.Load.{World, Loaded, loaded, load_failed, LoadError, load}
use domainturva.Config.Load.Laws.{IsLoaded, load-IsLoaded}
use domainturva.Notifier.{Alert}
use domainturva.Notifier.Backend.{name}
use domainturva.Notifier.Dispatcher.{dispatch}
use domainturva.Scheduler.{Job}
use domainturva.Scheduler.Jobs.{IsJobOf, jobs-IsJobOf}
use domainturva.Main.Routes.{dispatch-IsValid}
use domainturva.Main.Flags.{CommonFlags, Parsed, parsed, exits, parse_common}
use domainturva.Main.Startup.{
  Monitor, Startup, running, exited, assemble, after_open, start_loaded, start_parsed, run_cmd,
}

http_not_ssl : ◌≢◌ {A = String} check_ssl check_http
http_not_ssl h = ground (arith, eq_iff check_ssl check_http)

http_not_domain : ◌≢◌ {A = String} check_domain check_http
http_not_domain h = ground (arith, eq_iff check_domain check_http)

-- The HTTP job of a valid site waits at least a second between two checks.
job-interval :
    (c : Config) (j : Job) (site : Site)
    → seconds 1 ≤ℤ site.interval
    → IsJobOf c true true j site
    → j.typ ≡ check_http
    → seconds 1 ≤ℤ j.interval
job-interval c j site h (inl e) t = rw e h
job-interval c j site h (inr (inl (_, e))) t = absurd (http_not_ssl (sym (ap (λ x. x.typ) e) ∙ t))
job-interval c j site h (inr (inr (_, e))) t =
    absurd (http_not_domain (sym (ap (λ x. x.typ) e) ∙ t))

module _ {S : Type 0} (w : World) (open_store : String → Result S) (now : Time)
    (args : List String) where
  -- A program that runs, on a valid configuration: its jobs, how often they check, and whom its alerts
  -- reach.
  pub record IsStarted (m : Monitor S) : Type 0 where
    pub flags : CommonFlags
    pub rest : List String
    pub was_parsed : parse_common args ≡ parsed flags rest
    pub was_loaded : IsLoaded w flags.config_path m.config
    pub was_opened : open_store m.config.storage_path ≡ ok m.store
    pub ssl_days : m.engine.ssl_warn_days ≡ m.config.ssl_warn_days
    pub domain_days : m.engine.domain_warn_days ≡ m.config.domain_warn_days
    pub has_jobs :
        (j : Job) → Any (λ x. j ≡ x) m.jobs ↔ Any (IsJobOf m.config true true j) m.config.sites
    pub http_interval :
        (j : Job) → Any (λ x. j ≡ x) m.jobs → j.typ ≡ check_http → seconds 1 ≤ℤ j.interval
    pub reaches :
        (type : String) (a : Alert) (extra : AlertRecord)
        → map
            (λ x. name x.notifier)
            (dispatch m.notifiers a (notifiers_for m.config.routing type) extra)
          ≡ notifiers_for m.config.routing type

  -- A program that exits: its flags say so, or the configuration or the store is not there.
  abbrev pub IsRefused : ℕ → Type 0
  IsRefused status =
      (parse_common args ≡ exits status)
      ⊎ ((status ≡ 1)
          × ((flags : CommonFlags) × (rest : List String) × (parse_common args ≡ parsed flags rest)
              × (((e : LoadError) × (load w flags.config_path ≡ load_failed e))
                  ⊎ ((c : Config) × (message : String) × (load w flags.config_path ≡ loaded c)
                      × (open_store c.storage_path ≡ err message)))))

  started :
      (flags : CommonFlags) (rest : List String) (c : Config) (s : S)
      → parse_common args ≡ parsed flags rest
      → load w flags.config_path ≡ loaded c
      → open_store c.storage_path ≡ ok s
      → IsStarted (assemble now c s)
  unfolding assemble
  started flags rest c s was_parsed was_loaded was_opened =
      let l = (load-IsLoaded w flags.config_path c).0 was_loaded in
      let jobs_iff = jobs-IsJobOf c true true c.sites in
      record {
        flags = flags;
        rest = rest;
        was_parsed = was_parsed;
        was_loaded = l;
        was_opened = was_opened;
        ssl_days = refl;
        domain_days = refl;
        has_jobs = jobs_iff;
        http_interval = λ j m t.
            let (site, (named, (u, was_url, v)), is_job) =
              All-Any _ _ c.sites l.is_valid.1.0.1 ((jobs_iff j).0 m) in
            job-interval c j site v.1.1.0 is_job t;
        reaches = λ type a extra.
            dispatch-IsValid w.net c type a extra ((validate-IsValid w.net c).1 l.is_valid);
      }

  abbrev Outcome : Startup S → Type 0
  Outcome r =
      ((m : Monitor S) × (r ≡ running m) × IsStarted m)
      ⊎ ((status : ℕ) × (r ≡ exited status) × IsRefused status)

  opened :
      (flags : CommonFlags) (rest : List String) (c : Config) (o : Result S)
      → parse_common args ≡ parsed flags rest
      → load w flags.config_path ≡ loaded c
      → open_store c.storage_path ≡ o
      → Outcome (after_open (load w) open_store now c o)
  opened flags rest c (err message) p l o =
      inr (1, refl, inr (refl, (flags, rest, p, inr (c, message, l, o))))
  opened flags rest c (ok s) p l o = inl (assemble now c s, refl, started flags rest c s p l o)

  was_loaded_or_not :
      (flags : CommonFlags) (rest : List String) (l : Loaded)
      → parse_common args ≡ parsed flags rest
      → load w flags.config_path ≡ l
      → Outcome (start_loaded (load w) open_store now l)
  was_loaded_or_not flags rest (load_failed e) p l =
      inr (1, refl, inr (refl, (flags, rest, p, inl (e, l))))
  was_loaded_or_not flags rest (loaded c) p l =
      opened flags rest c (open_store c.storage_path) p l refl

  was_parsed_or_not :
      (p : Parsed) → parse_common args ≡ p → Outcome (start_parsed (load w) open_store now p)
  was_parsed_or_not (exits status) p = inr (status, refl, inl p)
  was_parsed_or_not (parsed flags rest) p =
      was_loaded_or_not flags rest (load w flags.config_path) p refl

  -- `run` either exits or starts. It exits with the status of its flags where those do not parse
  -- or ask for help, and with status 1 where the configuration that they choose does not load or
  -- its store does not open. It starts on a valid configuration: it has exactly the jobs that the
  -- sites ask for, no site is checked over HTTP with an interval of less than a second, the
  -- thresholds are those of the configuration, and an alert of any type starts one goroutine for
  -- each recipient of its route.
  pub run_cmd-IsStarted :
      ((m : Monitor S) × (run_cmd (load w) open_store now args ≡ running m) × IsStarted m)
      ⊎ ((status : ℕ) × (run_cmd (load w) open_store now args ≡ exited status) × IsRefused status)
  unfolding run_cmd
  run_cmd-IsStarted = was_parsed_or_not (parse_common args) refl
