-- ===== src/Main/Commands.antt =====
-- The subcommands of cmd/domainturva/main.go: which one the arguments choose, and with which status each
-- ends. The results of the checks and the loading of the configuration are arguments.
pub mod Laws
use domainturva.Prelude.{
  ℕ, String, ◌==◌, ◌||◌, Bool, true, false, Option, none, some, List, [], ◌∷◌, ◌++◌, if◌then◌else◌,
  ◌<>◌,
}
use domainturva.Checker.{CheckResult, status_up}
use domainturva.Config.{Site, Config}
use domainturva.Config.Load.{Loaded, loaded, load_failed}
use domainturva.Main.Flags.{CommonFlags, Parsed, parsed, exits, parse_common}

pub data Command : Type 0 where
  run check validate : List String → Command
  version usage : Command

-- `main`, on `os.Args[1:]`.
unfoldable pub command : List String → Command
command [] = run []
command (word ∷ args) =
    if word == "run"
    then run args
    else if word == "check"
    then check args
    else if word == "validate"
    then validate args
    else if word == "version"
    then version
    else if word == "-h" || (word == "--help" || word == "help")
    then usage
    else run (word ∷ args)

-- The loop of `checkCmd` over the sites: the first of the name.
unfoldable pub find_site : String → List Site → Option Site
find_site name [] = none
find_site name (site ∷ sites) = if site.name == name then some site else find_site name sites

-- The status of a command, and the results that it prints.
pub record Exit : Type 0 where
  pub status : ℕ
  pub printed : List CheckResult

abbrev pub exit : ℕ → Exit
exit status = record { status = status; printed = [] }

-- The checkers, as functions of the site.
pub record Checkers : Type 0 where
  pub http : Site → CheckResult
  pub ssl : Site → CheckResult
  pub domain : Site → CheckResult

-- The checks of one site.
unfoldable pub check_once : Checkers → Site → Exit
check_once checkers site =
    let r = checkers.http site in
    record {
      status = if r.status == status_up then 0 else 1;
      printed =
          r
          ∷ ((if site.check_ssl then checkers.ssl site ∷ [] else [])
              ++ (if site.check_domain then checkers.domain site ∷ [] else []));
    }

abbrev pub after_find : Checkers → Option Site → Exit
after_find checkers none = exit 1
after_find checkers (some site) = check_once checkers site

abbrev pub after_load : Loaded → (Config → Exit) → Exit
after_load (load_failed e) rest = exit 1
after_load (loaded c) rest = rest c

abbrev pub after_parse : Parsed → (CommonFlags → List String → Exit) → Exit
after_parse (exits status) rest = exit status
after_parse (parsed c args) rest = rest c args

module _ (load : String → Loaded) where
  unfoldable pub validate_cmd : List String → Exit
  validate_cmd args =
      after_parse (parse_common args) λ flags _. after_load (load flags.config_path) λ c. exit 0

  -- `site_name` is the first argument that is left.
  abbrev pub check_named : Checkers → CommonFlags → List String → Exit
  check_named checkers flags [] = exit 2
  check_named checkers flags (site_name ∷ rest) =
      after_load (load flags.config_path) λ c. after_find checkers (find_site site_name c.sites)

  unfoldable pub check_cmd : Checkers → List String → Exit
  check_cmd checkers args =
      after_parse (parse_common args) λ flags rest. check_named checkers flags rest

-- `versionString`; the Go version is there where the build information is.
unfoldable pub version_string : String → Option String → String
version_string built none = built
version_string built (some go_version) = built <> " (go " <> go_version <> ")"
