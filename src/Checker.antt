-- ===== src/Checker.antt =====
-- internal/checker/types.go: the result type that all checkers produce. `CheckType` and `Status`
-- are Go strings.
pub mod Days
pub mod Http
pub mod Ssl
pub mod Domain
use domainturva.Prelude.{ℤ, pos, String, Bool, false}
use domainturva.Time.{Time, zero_time}

abbrev pub check_http : String
check_http = "http"

abbrev pub check_ssl : String
check_ssl = "ssl"

abbrev pub check_domain : String
check_domain = "domain"

abbrev pub status_up : String
status_up = "up"

abbrev pub status_down : String
status_down = "down"

abbrev pub status_unknown : String
status_unknown = "unknown"

pub record CheckResult : Type 0 where
  pub site_name : String
  pub type : String
  pub status : String
  pub at : Time
  pub status_code : ℤ
  pub response_ms : ℤ
  pub tls_handshake_ms : ℤ
  pub cert_not_after : Time
  pub cert_serial : String
  pub cert_issuer : String
  pub cert_self_signed : Bool
  pub cert_untrusted : Bool
  pub days_until_cert_expiry : ℤ
  pub domain_expiry : Time
  pub days_until_domain_expiry : ℤ
  pub domain_lookup_ok : Bool
  pub error : String

-- `CheckResult{}`
abbrev pub zero_result : CheckResult
zero_result = record {
  site_name = "";
  type = "";
  status = "";
  at = zero_time;
  status_code = pos 0;
  response_ms = pos 0;
  tls_handshake_ms = pos 0;
  cert_not_after = zero_time;
  cert_serial = "";
  cert_issuer = "";
  cert_self_signed = false;
  cert_untrusted = false;
  days_until_cert_expiry = pos 0;
  domain_expiry = zero_time;
  days_until_domain_expiry = pos 0;
  domain_lookup_ok = false;
  error = "";
}
