-- ===== src/Config/Load.antt =====
-- `Load` of internal/config/config.go, and `IntList.UnmarshalYAML`. Reading the file, the environment
-- and the YAML decoder are parameters.
pub mod Laws
use domainturva.Prelude.{
  ℤ, String, Bytes, Option, none, some, List, [], ◌∷◌, Result, ok, err, ◌>>=◌,
}
use domainturva.Config.{Config, apply_defaults}
use domainturva.Config.Environment.{Expanded, expanded, undefined, expand_env}
use domainturva.Config.Validate.{Net, ConfigError, validate}

pub data Kind : Type 0 where
  scalar sequence other_kind : Kind

-- What the methods of a `*yaml.Node` give.
pub record Node : Type 0 where
  pub kind : Kind
  pub int : Result ℤ
  pub ints : Result (List ℤ)

unmarshal_kind : Kind → Node → Result (List ℤ)
unmarshal_kind scalar node = node.int >>= λ v. ok (v ∷ [])
unmarshal_kind sequence node = node.ints
unmarshal_kind other_kind node = err "expect_status: expected int or list of ints"

unfoldable pub unmarshal_int_list : Node → Result (List ℤ)
unfolding unmarshal_kind
unmarshal_int_list node = unmarshal_kind node.kind node

pub data LoadError : Type 0 where
  read_config parse_yaml : String → LoadError
  undefined_vars : List Bytes → LoadError
  invalid : ConfigError → LoadError

pub data Loaded : Type 0 where
  loaded : Config → Loaded
  load_failed : LoadError → Loaded

-- What `Load` finds outside of the program.
pub record World : Type 0 where
  pub read_file : String → Result Bytes
  pub lookup_env : Bytes → Option Bytes
  pub unmarshal : Bytes → Result Config
  pub net : Net

-- `c.Validate()` and the returns after it.
abbrev pub validated : Config → Option ConfigError → Loaded
validated c none = loaded c
validated c (some e) = load_failed (invalid e)

abbrev pub after_decode : World → Result Config → Loaded
after_decode w (err e) = load_failed (parse_yaml e)
after_decode w (ok c) = let c' = apply_defaults c in validated c' (validate w.net c')

abbrev pub after_expand : World → Expanded → Loaded
after_expand w (undefined names) = load_failed (undefined_vars names)
after_expand w (expanded text) = after_decode w (w.unmarshal text)

abbrev pub after_read : World → Result Bytes → Loaded
after_read w (err e) = load_failed (read_config e)
after_read w (ok raw) = after_expand w (expand_env w.lookup_env raw)

unfoldable pub load : World → String → Loaded
load w path = after_read w (w.read_file path)
