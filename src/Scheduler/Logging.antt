-- ===== src/Scheduler/Logging.antt =====
-- `logResult` of internal/scheduler/scheduler.go: the level and the attributes of the line that it logs.
use domainturva.Prelude.{ℤ, pos, eqb_ℤ, String, ◌==◌, not, List, [], ◌∷◌, ◌++◌, if◌then◌else◌}
use domainturva.Storage.{SiteState}
use domainturva.Notifier.{Value, text, int}
use domainturva.Checker.{CheckResult, status_up}

pub data Level : Type 0 where
  debug info : Level

pub record Line : Type 0 where
  pub level : Level
  pub message : String
  pub attrs : List (String × Value)

abbrev if_not_zero : ℤ → List (String × Value) → List (String × Value)
if_not_zero n attrs = if not (eqb_ℤ n (pos 0)) then attrs else []

unfoldable pub result_line : CheckResult → SiteState → Line
result_line r st =
    let attrs =
      ("site", text r.site_name)
      ∷ ("type", text r.type)
      ∷ ("status", text r.status)
      ∷ ("state", text st.status)
      ∷ (if_not_zero r.status_code (("code", int r.status_code) ∷ ("ms", int r.response_ms) ∷ [])
          ++ (if_not_zero r.days_until_cert_expiry
                (("cert_days", int r.days_until_cert_expiry) ∷ [])
              ++ (if_not_zero r.days_until_domain_expiry
                    (("domain_days", int r.days_until_domain_expiry) ∷ [])
                  ++ (if not (r.error == "") then ("err", text r.error) ∷ [] else [])))) in
    if r.status == status_up
    then record { level = debug; message = "check ok"; attrs = attrs }
    else record { level = info; message = "check result"; attrs = attrs }
