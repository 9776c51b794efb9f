-- ===== src/Examples/Settings.antt =====
-- internal/config, internal/health and the jobs of internal/scheduler at work.
use domainturva.Prelude.{
  pos, ◌≡◌, ◌↔◌, refl, inl, true, false, ◌≤ℤ◌, ◌<ℤ◌, ◌+ℤ◌, [], ◌∷◌, All, Any, none, some, arith,
}
use domainturva.Time.{seconds}
use domainturva.Storage.Memory.{new_memory, get_site_state, memory}
use domainturva.Storage.Memory.Laws.{memory-Lawful}
use domainturva.Config.{Config, apply_defaults}
use domainturva.Config.Validate.{
  Net, short_interval, duplicate_site, unknown_notifier, check_site, check_notifier, validate,
}
use domainturva.Config.Validity.{IsValid, validate-IsValid}
use domainturva.Config.Filled.{IsFilled, apply_defaults_lem}
use domainturva.Health.{handle_healthz}
use domainturva.Health.Threshold.{HasInterval, IsLongest}
use domainturva.Health.Laws.{IsFresh, handle_healthz-IsFresh}
use domainturva.Scheduler.{Job, jobs, first_delay, initial_jitter_cap}
use domainturva.Scheduler.Jobs.{IsJobOf, jobs-IsJobOf, first_delay_lem}
use domainturva.Examples.Values.{site, config, routing, noon}

abbrev pub net : Net
net = record {
  parse_url = λ s. some (record { scheme = "https"; host = "a.example" });
  split_host_port_error = λ s. none;
}

validate_tests :
    (validate net config ≡ none)
    × (validate net (record config { sites = record site { interval = seconds 0 } ∷ [] })
        ≡ some (short_interval "a"))
    × (validate net (record config { sites = site ∷ site ∷ [] }) ≡ some (duplicate_site 1 "a"))
    × (validate net (record config { routing = record routing { default = "dev" ∷ [] } })
        ≡ some (unknown_notifier "default" "dev"))
unfolding validate check_site check_notifier
validate_tests = (refl, refl, refl, refl)

validate-IsValid_example : (validate net config ≡ none) ↔ IsValid net config
validate-IsValid_example = validate-IsValid net config

abbrev bare : Config
bare = record config {
  check_interval = pos 0;
  storage_path = "";
  sites = record site { interval = pos 0; expect_status = []; retries = pos 0 } ∷ [];
}

apply_defaults_tests : apply_defaults bare ≡ config
unfolding apply_defaults
apply_defaults_tests = refl

apply_defaults_lem_example :
    IsFilled (apply_defaults bare)
    × (IsFilled config → apply_defaults config ≡ config)
    × (apply_defaults (apply_defaults bare) ≡ apply_defaults bare)
apply_defaults_lem_example = apply_defaults_lem bare config

health_tests :
    ((handle_healthz memory "dev" config (noon +ℤ seconds 120) noon new_memory).code ≡ 200)
    × ((handle_healthz memory "dev" config (noon +ℤ seconds 121) noon new_memory).code ≡ 503)
unfolding handle_healthz ◌+ℤ◌ new_memory get_site_state
health_tests = (refl, refl)

config_intervals : All HasInterval config.sites
config_intervals = ((omega arith, omega arith), tt)

config-IsLongest : IsLongest config.sites (seconds 60)
config-IsLongest = ((omega arith, tt), inl refl)

handle_healthz-IsFresh_example :
    ((handle_healthz memory "dev" config noon noon new_memory).code ≡ 200)
    ↔ IsFresh memory memory-Lawful config.sites noon noon (seconds 60 +ℤ seconds 60) new_memory
handle_healthz-IsFresh_example =
    handle_healthz-IsFresh memory memory-Lawful "dev" config noon noon new_memory (seconds 60)
      config_intervals config-IsLongest

abbrev ssl_job : Job
ssl_job = record { site = site; typ = "ssl"; interval = seconds 43200 }

jobs-IsJobOf_example :
    Any (λ j. ssl_job ≡ j) (jobs config true false config.sites)
    ↔ Any (IsJobOf config true false ssl_job) config.sites
jobs-IsJobOf_example = jobs-IsJobOf config true false config.sites ssl_job

first_delay_lem_example :
    (pos 0 <ℤ seconds 60
      → (pos 0 ≤ℤ first_delay 7_000_000_001 (seconds 60))
        × (first_delay 7_000_000_001 (seconds 60) <ℤ seconds 60)
        × (first_delay 7_000_000_001 (seconds 60) <ℤ initial_jitter_cap))
    × (seconds 60 ≤ℤ pos 0 → first_delay 7_000_000_001 (seconds 60) ≡ pos 0)
first_delay_lem_example = first_delay_lem 7_000_000_001 (seconds 60)
