-- ===== src/Config.antt =====
-- internal/config/config.go: the configuration, its defaults and its routing. Validation is in
-- Config/Validate.
pub mod Defaults
pub mod Validate
pub mod Filled
pub mod Names
pub mod Valid
pub mod Validity
pub mod Environment
pub mod Load
use domainturva.Prelude.{
  ℤ, pos, eqb_ℤ, String, ◌==◌, Bool, Option, none, some, List, [], ◌∷◌, map, is_empty, Dict, lookup,
  insert, if◌then◌else◌,
}
use domainturva.Time.{Duration}

pub record Site : Type 0 where
  pub name : String
  pub url : String
  pub expect_status : List ℤ
  pub expect_body_contains : String
  pub check_ssl : Bool
  pub check_domain : Bool
  pub interval : Duration
  pub timeout : Duration
  pub retries : ℤ

pub record Notifier : Type 0 where
  pub name : String
  pub type : String
  pub webhook : String
  pub host : String
  pub port : ℤ
  pub username : String
  pub password : String
  pub from : String
  pub to : List String

-- `PerType` is a Go map; a loop over it takes the order of this list.
pub record Routing : Type 0 where
  pub default : List String
  pub per_type : Dict (List String)

pub record Config : Type 0 where
  pub check_interval : Duration
  pub ssl_check_interval : Duration
  pub domain_check_interval : Duration
  pub sites : List Site
  pub ssl_warn_days : List ℤ
  pub domain_warn_days : List ℤ
  pub notifiers : List Notifier
  pub routing : Routing
  pub storage_path : String
  pub health_listen : String

-- The loop of `Routing.UnmarshalYAML` over the decoded map.
unfoldable pub unmarshal_routing : Routing → Dict (List String) → Routing
unfolding insert
unmarshal_routing r [] = r
unmarshal_routing r ((k, v) ∷ raw) =
    unmarshal_routing
      (if k == "default"
        then record r { default = v }
        else record r { per_type = insert k v r.per_type })
      raw

unfoldable pub notifiers_for : Routing → String → List String
unfolding lookup
notifiers_for r alert_type = elim (lookup alert_type r.per_type) [ some v ↦ v | none ↦ r.default ]

abbrev pub notifier_slack : String
notifier_slack = "slack"

abbrev pub notifier_smtp : String
notifier_smtp = "smtp"

abbrev pub or_default : ℤ → ℤ → ℤ
or_default default x = if eqb_ℤ x (pos 0) then default else x

-- One round of the loop over `c.Sites`.
unfoldable pub site_defaults : Duration → Site → Site
site_defaults check_interval s = record s {
  interval = or_default check_interval s.interval;
  timeout = or_default Defaults.site_timeout s.timeout;
  expect_status = if is_empty s.expect_status then Defaults.expect_status ∷ [] else s.expect_status;
  retries = or_default Defaults.site_retries s.retries;
}

unfoldable pub apply_defaults : Config → Config
unfolding site_defaults
apply_defaults c =
    let check_interval = or_default Defaults.check_interval c.check_interval in
    record c {
      check_interval = check_interval;
      ssl_check_interval = or_default Defaults.ssl_check_interval c.ssl_check_interval;
      domain_check_interval = or_default Defaults.domain_check_interval c.domain_check_interval;
      storage_path = if c.storage_path == "" then Defaults.storage_path else c.storage_path;
      sites = map (site_defaults check_interval) c.sites;
    }
