-- ===== src/Examples/Commands.antt =====
-- The loading of the configuration, and cmd/domainturva/main.go, at work.
use domainturva.Prelude.{
  ℕ, String, Result, true, false, pos, ◌==◌, ◌≡◌, ◌↔◌, ◌⊎◌, refl, Bytes, ascii, List, [], ◌∷◌,
  Option, none, some, ok, err, if◌then◌else◌, eqb, length, is_empty,
}
use domainturva.Config.Environment.{
  expanded, undefined, expand_env, span_name, expand_from, match_name, reference_at, replace,
}
use domainturva.Config.Environment.Pieces.{Piece, text, IsReading}
use domainturva.Config.Environment.Laws.{undefined_names, substituted, expand_env_lem}
use domainturva.Config.{apply_defaults}
use domainturva.Config.Validate.{validate, check_site, check_notifier}
use domainturva.Config.Load.{World, loaded, load, scalar, other_kind, unmarshal_int_list}
use domainturva.Config.Load.Laws.{IsLoaded, load-IsLoaded}
use domainturva.Main.Flags.{parsed, exits, parse_common, split_value}
use domainturva.Main.Commands.{Checkers, command, run, check, check_cmd}
use domainturva.Main.Commands.Laws.{IsChecked, check_cmd-IsChecked}
use domainturva.Main.Startup.{assemble, Monitor, running, exited, run_cmd, is_cancelled}
use domainturva.Main.Startup.Laws.{IsStarted, IsRefused, run_cmd-IsStarted}
use domainturva.Health.Server.{new, enabled, listen_failed}
use domainturva.Examples.Values.{config, up_result, noon}
use domainturva.Examples.Settings.{net}

-- `HOME` and other names of four characters are defined.
abbrev env : Bytes → Option Bytes
env name = if eqb (length name) 4 then some (ascii "/root") else none

expand_env_tests :
    (expand_env env (ascii "p: ${HOME}/db $$ ${1X} ${")
      ≡ expanded (ascii "p: /root/db $$ ${1X} ${"))
    × (expand_env env (ascii "${A}${HOME}${B_2}") ≡ undefined (ascii "A" ∷ ascii "B_2" ∷ []))
unfolding expand_env expand_from reference_at match_name span_name replace
expand_env_tests = (refl, refl)

expand_env_lem_example :
    ((ps : List Piece) × (text ps ≡ ascii "${HOME}") × IsReading ps)
    × ((ps : List Piece)
        → text ps ≡ ascii "${HOME}"
        → IsReading ps
        → expand_env env (ascii "${HOME}") ≡ (
            if is_empty (undefined_names env ps)
            then expanded (substituted env ps)
            else undefined (undefined_names env ps)))
expand_env_lem_example = expand_env_lem env (ascii "${HOME}")

int_list_tests :
    (unmarshal_int_list (record { kind = scalar; int = ok (pos 200); ints = err "" })
      ≡ ok (pos 200 ∷ []))
    × (unmarshal_int_list (record { kind = other_kind; int = err ""; ints = err "" })
        ≡ err "expect_status: expected int or list of ints")
unfolding unmarshal_int_list
int_list_tests = (refl, refl)

abbrev world : World
world = record {
  read_file = λ path. if path == "./config.yaml" then ok (ascii "${HOME}") else err "no such file";
  lookup_env = env;
  unmarshal = λ s. ok config;
  net = net;
}

load-IsLoaded_example :
    (load world "./config.yaml" ≡ loaded config) ↔ IsLoaded world "./config.yaml" config
load-IsLoaded_example = load-IsLoaded world "./config.yaml" config

parse_tests :
    (parse_common ("--config" ∷ "a.yaml" ∷ "-log-level=debug" ∷ "site" ∷ "-x" ∷ [])
      ≡ parsed
          (record { config_path = "a.yaml"; log_format = "json"; log_level = "debug" })
          ("site" ∷ "-x" ∷ []))
    × (parse_common ("-h" ∷ []) ≡ exits 0)
    × (parse_common ("--config" ∷ []) ≡ exits 2)
    × (parse_common ("--port" ∷ "1" ∷ []) ≡ exits 2)
unfolding parse_common split_value
parse_tests = (refl, refl, refl, refl)

command_tests :
    (command [] ≡ run [])
    × (command ("check" ∷ "a" ∷ []) ≡ check ("a" ∷ []))
    × (command ("--log-level" ∷ "debug" ∷ []) ≡ run ("--log-level" ∷ "debug" ∷ []))
unfolding command
command_tests = (refl, refl, refl)

abbrev checkers : Checkers
checkers = record { http = λ s. up_result; ssl = λ s. up_result; domain = λ s. up_result }

check_cmd-IsChecked_example :
    ((check_cmd (load world) checkers ("a" ∷ [])).status ≡ 0)
    ↔ ((parse_common ("a" ∷ []) ≡ exits 0) ⊎ IsChecked world checkers ("a" ∷ []))
check_cmd-IsChecked_example = check_cmd-IsChecked world checkers ("a" ∷ [])

-- A store that opens under the default path only.
abbrev open_store : String → Result ℕ
open_store path = if path == "./domainturva.db" then ok 7 else err "no such directory"

run_cmd_tests :
    (run_cmd (load world) open_store noon ("--config" ∷ "x" ∷ []) ≡ exited 1)
    × (run_cmd (load world) open_store noon ("--port" ∷ []) ≡ exited 2)
    × (is_cancelled false
          (new (record config { health_listen = ":80" }) noon)
          (listen_failed "in use")
        ≡ true)
unfolding run_cmd is_cancelled load parse_common split_value new enabled
run_cmd_tests = (refl, refl, refl)

started_test : run_cmd (load world) open_store noon [] ≡ running (assemble noon config 7)
unfolding run_cmd parse_common load expand_env expand_from reference_at match_name span_name replace
    apply_defaults validate check_site check_notifier
started_test = refl

run_cmd-IsStarted_example :
    ((m : Monitor ℕ) × (run_cmd (load world) open_store noon [] ≡ running m)
      × IsStarted world open_store noon [] m)
    ⊎ ((status : ℕ) × (run_cmd (load world) open_store noon [] ≡ exited status)
        × IsRefused world open_store noon [] status)
run_cmd-IsStarted_example = run_cmd-IsStarted world open_store noon []
