-- ===== src/Examples/Runs.antt =====
-- internal/scheduler at work: several results in a row.
use domainturva.Prelude.{
  String, ◌≡◌, ◌≢◌, refl, ◌+ℤ◌, List, [], ◌∷◌, arith, insert, eq_iff, lookup, none, some,
}
use domainturva.Time.{seconds}
use domainturva.Storage.Memory.{new_memory, get_site_state, upsert_site_state, memory}
use domainturva.Storage.Memory.Laws.{memory-Lawful}
use domainturva.Storage.{Storage}
use domainturva.Storage.States.{KeepsStates}
use domainturva.Storage.Sqlite.{Database, empty_database}
use domainturva.Storage.Sqlite.States.{Faults, sqlite, sqlite-KeepsStates}
use domainturva.Notifier.{type_down, type_recovered}
use domainturva.Alerting.Http.{down_alert, recovered_alert}
use domainturva.Scheduler.{settle}
use domainturva.Scheduler.Flaps.{flaps}
use domainturva.Scheduler.Settle.{IsKeyed, phase_at, Observes, settle-Observes}
use domainturva.Scheduler.Traces.{Step, result, run, Alternates, run-Alternates}
use domainturva.Examples.Values.{format, engine, noon, up_result, down_result}

named : ◌≢◌ {A = String} "a" ""
named h = ground (arith, eq_iff "a" "")

new_memory-IsKeyed : IsKeyed memory-Lawful.state_of new_memory
unfolding new_memory memory-Lawful lookup
new_memory-IsKeyed n st h = absurd (ground arith)

-- A store whose log can be neither written nor searched.
abbrev faults : Faults
faults = record {
  get_site_state = λ n db. none;
  upsert_site_state = λ st db. none;
  record_alert = λ a db. some "locked";
  find_recent_alerts = λ n type since db. some "locked";
  get_domain_cache = λ n db. none;
  upsert_domain_cache = λ d db. none;
}

abbrev store : Storage Database
store = sqlite faults

unfoldable store-KeepsStates : KeepsStates store
unfolding sqlite-KeepsStates
store-KeepsStates = sqlite-KeepsStates faults (λ st db. refl)

empty_database-IsKeyed : IsKeyed store-KeepsStates.state_of empty_database
unfolding store-KeepsStates sqlite-KeepsStates lookup
empty_database-IsKeyed n st h = absurd (ground arith)

abbrev steps : List Step
steps =
    result up_result noon
    ∷ result down_result (noon +ℤ seconds 60)
    ∷ result down_result (noon +ℤ seconds 120)
    ∷ result up_result (noon +ℤ seconds 180)
    ∷ []

run_tests : flaps "a" (run format memory engine steps new_memory) ≡ type_down ∷ type_recovered ∷ []
unfolding run new_memory settle get_site_state upsert_site_state insert down_alert recovered_alert
run_tests = refl

run-Alternates_example :
    Alternates
      (phase_at store-KeepsStates.state_of empty_database "a")
      (flaps "a" (run format store engine steps empty_database))
run-Alternates_example =
    run-Alternates format store store-KeepsStates engine steps empty_database "a" named
      empty_database-IsKeyed

settle-Observes_example :
    let (s', das) = settle format memory engine down_result noon new_memory in
    IsKeyed memory-Lawful.state_of s'
    × Observes
        (phase_at memory-Lawful.state_of new_memory "a")
        down_result
        "a"
        (phase_at memory-Lawful.state_of s' "a")
        (flaps "a" das)
settle-Observes_example =
    settle-Observes format memory memory-Lawful engine new_memory new_memory-IsKeyed down_result
      noon "a" named
