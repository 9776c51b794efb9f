-- ===== src/Config/Defaults.antt =====
-- The variable `defaults` of internal/config/config.go.
use domainturva.Prelude.{ℤ, pos, String}
use domainturva.Time.{Duration, seconds, hours}

abbrev pub check_interval : Duration
check_interval = seconds 60

abbrev pub ssl_check_interval : Duration
ssl_check_interval = hours 12

abbrev pub domain_check_interval : Duration
domain_check_interval = hours 24

abbrev pub site_timeout : Duration
site_timeout = seconds 10

abbrev pub site_retries : ℤ
site_retries = pos 2

abbrev pub expect_status : ℤ
expect_status = pos 200

abbrev pub storage_path : String
storage_path = "./domainturva.db"
