-- ===== src/Main/Flags.antt =====
-- `parseCommon` of cmd/domainturva/main.go, with what `flag.FlagSet.Parse` does for flags that all take
-- a text, and the level that `mkLogger` chooses.
use Prim.Native.Char.{code}
use domainturva.Prelude.{
  ℕ, String, ◌==◌, Bool, true, ◌||◌, Option, none, some, List, [], ◌∷◌, eqb, if◌then◌else◌,
}

pub record CommonFlags : Type 0 where
  pub config_path : String
  pub log_format : String
  pub log_level : String

abbrev pub default_flags : CommonFlags
default_flags = record { config_path = "./config.yaml"; log_format = "json"; log_level = "info" }

-- The flags with the arguments that are left, or the status with which `flag.ExitOnError` ends the program: 0
-- for a request for help, and 2 for an error.
pub data Parsed : Type 0 where
  parsed : CommonFlags → List String → Parsed
  exits : ℕ → Parsed

-- How `parseOne` reads one argument.
pub data Token : Type 0 where
  operand terminator bad_syntax : Token
  flag : (name : String) → (value : Option String) → Token

-- The name before the first `=`, and the value after it.
unfoldable pub split_value : String → String × Option String
split_value String.[] = ("", none)
split_value (String.◌∷◌ c s) =
    let (name, value) = split_value s in
    if eqb (code c) b'=' then ("", some s) else (String.◌∷◌ c name, value)

abbrev starts_badly : String → Bool
starts_badly String.[] = true
starts_badly (String.◌∷◌ c s) = eqb (code c) b'-' || eqb (code c) b'='

-- What follows the dashes.
flag_token : String → Token
unfolding split_value
flag_token s =
    if starts_badly s then bad_syntax else let (name, value) = split_value s in flag name value

after_dash : String → Token
unfolding flag_token
after_dash String.[] = operand
after_dash (String.◌∷◌ c s) =
    if eqb (code c) b'-'
    then if s == "" then terminator else flag_token s
    else flag_token (String.◌∷◌ c s)

unfoldable pub token : String → Token
unfolding after_dash
token String.[] = operand
token (String.◌∷◌ c s) = if eqb (code c) b'-' then after_dash s else operand

-- `none` is a name that was not defined.
unfoldable pub set_flag : String → String → CommonFlags → Option CommonFlags
set_flag name value c =
    if name == "config"
    then some (record c { config_path = value })
    else if name == "log-format"
    then some (record c { log_format = value })
    else if name == "log-level"
    then some (record c { log_level = value })
    else none

abbrev is_help : String → Bool
is_help name = name == "help" || name == "h"

-- A flag that has its value.
abbrev set_then : String → Option CommonFlags → (CommonFlags → Parsed) → Parsed
set_then name none rest = if is_help name then exits 0 else exits 2
set_then name (some c) rest = rest c

-- One argument; `later` goes on with the arguments behind it, where a name waits for its value.
abbrev read_token :
    String → List String → CommonFlags → Token → (Option String → CommonFlags → Parsed) → Parsed
read_token arg args c operand later = parsed c (arg ∷ args)
read_token arg args c terminator later = parsed c args
read_token arg args c bad_syntax later = exits 2
read_token arg args c (flag name (some value)) later =
    set_then name (set_flag name value c) (λ c'. later none c')
read_token arg args c (flag name none) later =
    set_then name (set_flag name "" c) (λ _. later (some name) c)

-- The loop of `Parse`. A flag at the end that waits for its value is an error.
unfoldable pub parse_from : Option String → List String → CommonFlags → Parsed
unfolding token set_flag
parse_from none [] c = parsed c []
parse_from (some name) [] c = exits 2
parse_from (some name) (value ∷ args) c =
    set_then name (set_flag name value c) (λ c'. parse_from none args c')
parse_from none (arg ∷ args) c =
    read_token arg args c (token arg) (λ waiting c'. parse_from waiting args c')

unfoldable pub parse_common : List String → Parsed
unfolding parse_from
parse_common args = parse_from none args default_flags

pub data Level : Type 0 where
  debug info warn error : Level

-- The `switch` of `mkLogger`.
unfoldable pub logger_level : CommonFlags → Level
logger_level c =
    if c.log_level == "debug"
    then debug
    else if c.log_level == "info"
    then info
    else if c.log_level == "warn"
    then warn
    else if c.log_level == "error"
    then error
    else info

-- Whether it makes a text handler, and not one for JSON.
unfoldable pub logs_text : CommonFlags → Bool
logs_text c = c.log_format == "text"
