-- ===== src/Main/Startup.antt =====
-- `runCmd` of cmd/domainturva/main.go: what it puts together before the scheduler and the health server
-- run, and what ends them. Loading, the store and the clock are arguments.
pub mod Laws
use domainturva.Prelude.{
  ℕ, String, Bool, true, false, ◌||◌, Option, none, some, List, Dict, Result, ok, err,
  if◌then◌else◌,
}
use domainturva.Time.{Time}
use domainturva.Config.{Config}
use domainturva.Config.Load.{Loaded, loaded, load_failed}
use domainturva.Notifier.Backend.{Backend}
use domainturva.Alerting.Expiry.{Engine}
use domainturva.Scheduler.{Job, jobs}
use domainturva.Health.Server.{Server, new, enabled, Ending, run}
use domainturva.Main.{build_notifiers}
use domainturva.Main.Flags.{Parsed, parsed, exits, parse_common}

-- The parts of the running program.
pub record Monitor (S : Type 0) : Type 0 where
  pub config : Config
  pub store : S
  pub engine : Engine
  pub notifiers : Dict Backend
  pub jobs : List Job
  pub server : Server

pub data Startup (S : Type 0) : Type 0 where
  running : Monitor S → Startup S
  exited : (status : ℕ) → Startup S

-- The three runners are there, so `Run` starts the jobs of all of them.
unfoldable pub assemble : {S : Type 0} → (now : Time) → Config → S → Monitor S
unfolding build_notifiers jobs new
assemble now c s = record {
  config = c;
  store = s;
  engine = record { ssl_warn_days = c.ssl_warn_days; domain_warn_days = c.domain_warn_days };
  notifiers = build_notifiers c.notifiers;
  jobs = jobs c true true c.sites;
  server = new c now;
}

module _ {S : Type 0} (load : String → Loaded) (open_store : String → Result S) (now : Time) where
  abbrev pub after_open : Config → Result S → Startup S
  after_open c (err message) = exited 1
  after_open c (ok s) = running (assemble now c s)

  abbrev pub start_loaded : Loaded → Startup S
  start_loaded (load_failed e) = exited 1
  start_loaded (loaded c) = after_open c (open_store c.storage_path)

  abbrev pub start_parsed : Parsed → Startup S
  start_parsed (exits status) = exited status
  start_parsed (parsed flags rest) = start_loaded (load flags.config_path)

  unfoldable pub run_cmd : List String → Startup S
  run_cmd args = start_parsed (parse_common args)

-- The context ends by a signal, or where the health server fails.
unfoldable pub is_cancelled : (signal : Bool) → Server → Ending → Bool
unfolding run
is_cancelled signal server ending =
    signal
    || (if enabled server then elim (run server ending) [ none ↦ false | some e ↦ true ] else false)
