-- ===== src/Notifier.antt =====
-- internal/notifier/notifier.go: the structured alert, and the words for its type and severity.
pub mod Backend
pub mod Dispatcher
pub mod Smtp
pub mod Slack
use domainturva.Prelude.{ℤ, String, List}
use domainturva.Time.{Time}

abbrev pub severity_info : String
severity_info = "info"

abbrev pub severity_warning : String
severity_warning = "warning"

abbrev pub severity_critical : String
severity_critical = "critical"

abbrev pub type_down : String
type_down = "down"

abbrev pub type_recovered : String
type_recovered = "recovered"

abbrev pub type_ssl_expiring : String
type_ssl_expiring = "ssl_expiring"

abbrev pub type_domain_expiring : String
type_domain_expiring = "domain_expiring"

abbrev pub type_ssl_untrusted : String
type_ssl_untrusted = "ssl_untrusted"

abbrev pub type_degraded_monitor : String
type_degraded_monitor = "degraded_monitoring"

-- The values that the program puts into `Details`, a `map[string]any`.
pub data Value : Type 0 where
  text : String → Value
  int : ℤ → Value

pub record Alert : Type 0 where
  pub site_name : String
  pub type : String
  pub severity : String
  pub title : String
  pub message : String
  pub details : List (String × Value)
  pub at : Time
