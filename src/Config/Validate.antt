-- ===== src/Config/Validate.antt =====
-- `Config.Validate` of internal/config/config.go. An error is a value with the arguments of its
-- message. `url.Parse` and `net.SplitHostPort` are parameters.
use domainturva.Prelude.{
  ℕ, ◌+◌, ℤ, pos, eqb_ℤ, ltb_ℤ, leb_ℤ, String, ◌==◌, Bool, ◌&&◌, ◌||◌, not, Option, none, some,
  List, [], ◌∷◌, any, is_empty, Dict, if◌then◌else◌,
}
use domainturva.Time.{seconds}
use domainturva.Config.{Site, Notifier, Config, notifier_slack, notifier_smtp}

-- The fields of `*url.URL` that are read.
pub record Url : Type 0 where
  pub scheme : String
  pub host : String

-- `none` is an error of `url.Parse`; the error of `net.SplitHostPort` is its text.
pub record Net : Type 0 where
  pub parse_url : String → Option Url
  pub split_host_port_error : String → Option String

pub data ConfigError : Type 0 where
  no_sites no_routes ssl_warn_days_not_positive domain_warn_days_not_positive : ConfigError
  site_name_required notifier_name_required : ℕ → ConfigError
  duplicate_site duplicate_notifier : ℕ → String → ConfigError
  invalid_url unknown_type unknown_notifier : String → String → ConfigError
  bad_scheme short_interval short_timeout negative_retries ssl_without_https : String → ConfigError
  slack_incomplete smtp_incomplete bad_listen : String → ConfigError

-- A loop that ends early with an error, or goes on with the names seen.
pub data Names : Type 0 where
  seen : List String → Names
  stop : ConfigError → Names

-- `seen[name]` of a `map[string]bool` in which only `true` is stored.
abbrev pub has_name : List String → String → Bool
has_name names name = any (λ n. n == name) names

-- `if err := …; err != nil { return err }`
infixr 5 ◌orelse◌
abbrev pub ◌orelse◌ : Option ConfigError → Option ConfigError → Option ConfigError
some e orelse later = some e
none orelse later = later

module _ (net : Net) where
  -- The checks of a site that follow `url.Parse`.
  unfoldable pub check_url : Site → Url → Option ConfigError
  check_url s u =
      if u.scheme == "" || u.host == ""
      then some (invalid_url s.name s.url)
      else if not (u.scheme == "http") && not (u.scheme == "https")
      then some (bad_scheme s.name)
      else if ltb_ℤ s.interval (seconds 1)
      then some (short_interval s.name)
      else if ltb_ℤ s.timeout (seconds 1)
      then some (short_timeout s.name)
      else if ltb_ℤ s.retries (pos 0)
      then some (negative_retries s.name)
      else if s.check_ssl && not (u.scheme == "https")
      then some (ssl_without_https s.name)
      else none

  unfoldable pub check_site : ℕ → List String → Site → Option ConfigError
  unfolding check_url
  check_site i names s =
      if s.name == ""
      then some (site_name_required i)
      else if has_name names s.name
      then some (duplicate_site i s.name)
      else elim (net.parse_url s.url) [
        | none ↦ some (invalid_url s.name s.url)
        | some u ↦ check_url s u
      ]

  -- The loop over `c.Sites` from index `i`.
  unfoldable pub check_sites : ℕ → List String → List Site → Option ConfigError
  check_sites i names [] = none
  check_sites i names (s ∷ sites) =
      let later = check_sites (i + 1) (s.name ∷ names) sites in check_site i names s orelse later

-- The `switch n.Type`.
unfoldable pub check_type : Notifier → Option ConfigError
check_type n =
    if n.type == notifier_slack
    then if n.webhook == "" then some (slack_incomplete n.name) else none
    else if n.type == notifier_smtp
    then if n.host == "" || (eqb_ℤ n.port (pos 0) || (n.from == "" || is_empty n.to))
      then some (smtp_incomplete n.name)
      else none
    else some (unknown_type n.name n.type)

unfoldable pub check_notifier : ℕ → List String → Notifier → Option ConfigError
unfolding check_type
check_notifier i names n =
    if n.name == ""
    then some (notifier_name_required i)
    else if has_name names n.name
    then some (duplicate_notifier i n.name)
    else check_type n

-- The loop over `c.Notifiers` from index `i`.
unfoldable pub check_notifiers : ℕ → List String → List Notifier → Names
check_notifiers i names [] = seen names
check_notifiers i names (n ∷ notifiers) =
    let later = check_notifiers (i + 1) (n.name ∷ names) notifiers in
    elim (check_notifier i names n) [ some e ↦ stop e | none ↦ later ]

-- The closure `check`.
unfoldable pub check_group : List String → String → List String → Option ConfigError
check_group names group [] = none
check_group names group (n ∷ ns) =
    let later = check_group names group ns in
    if not (has_name names n) then some (unknown_notifier group n) else later

unfoldable pub check_groups : List String → Dict (List String) → Option ConfigError
unfolding check_group
check_groups names [] = none
check_groups names ((k, ns) ∷ groups) =
    let later = check_groups names groups in check_group names k ns orelse later

unfoldable pub check_days : ConfigError → List ℤ → Option ConfigError
check_days e [] = none
check_days e (d ∷ ds) = let later = check_days e ds in if leb_ℤ d (pos 0) then some e else later

module _ (net : Net) where
  -- The part of `Validate` below the loop over the notifiers.
  unfoldable pub check_rest : List String → Config → Option ConfigError
  unfolding check_group check_groups check_days
  check_rest names c =
      check_group names "default" c.routing.default
      orelse check_groups names c.routing.per_type
      orelse (if is_empty c.routing.default
            && (is_empty c.routing.per_type && not (is_empty c.notifiers))
          then some no_routes
          else none)
      orelse check_days ssl_warn_days_not_positive c.ssl_warn_days
      orelse check_days domain_warn_days_not_positive c.domain_warn_days
      orelse (if c.health_listen == ""
          then none
          else elim (net.split_host_port_error c.health_listen) [
            | some e ↦ some (bad_listen e)
            | none ↦ none
          ])

  unfoldable pub validate : Config → Option ConfigError
  unfolding check_sites check_notifiers check_rest
  validate c =
      if is_empty c.sites
      then some no_sites
      else check_sites net 0 [] c.sites orelse elim (check_notifiers 0 [] c.notifiers) [
        | stop e ↦ some e
        | seen names ↦ check_rest names c
      ]
