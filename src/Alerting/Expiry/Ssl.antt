-- ===== src/Alerting/Expiry/Ssl.antt =====
-- `decideSSL`: which alert it raises, and what in the alert log keeps it from it.
use domainturva.Prelude.{
  ℤ, pos, ◌-ℤ◌, eqb_ℤ, eqb_ℤ_iff, ◌≡◌, ◌≢◌, ◌⊎◌, inl, inr, true, false, ◌||◌, List, [], ◌∷◌, Any,
  Result, ok, arith,
}
use domainturva.Time.{Time, TimeFormat, zero_time, is_zero_time, days}
use domainturva.Storage.{AlertRecord, Storage}
use domainturva.Storage.Lawful.{Lawful}
use domainturva.Notifier.{type_ssl_expiring, type_ssl_untrusted}
use domainturva.Checker.{CheckResult}
use domainturva.Alerting.Band.{current_threshold_band}
use domainturva.Alerting.Http.{AlertWithMeta}
use domainturva.Alerting.Expiry.{Engine, untrusted_alert, ssl_expiring_alert, decide_ssl}
use domainturva.Alerting.Expiry.Search.{
  IsRecent, IsSent, false_of_not, true_of_not, search_empty, search-IsSent,
}

-- The alert is raised exactly where the log has no record that satisfies `P`.
abbrev pub RaisedUnless :
    (AlertRecord → Type 0) → List AlertRecord → AlertWithMeta → Result (List AlertWithMeta) → Type 0
RaisedUnless P log a result =
    (Any P log × (result ≡ ok [])) ⊎ ((¬ Any P log) × (result ≡ ok (a ∷ [])))

pub is_zero_time-false : (t : Time) → t ≢ zero_time → is_zero_time t ≡ false
is_zero_time-false t h = ground (arith, eqb_ℤ_iff t zero_time)

pub eqb_ℤ-false : (a b : ℤ) → a ≢ b → eqb_ℤ a b ≡ false
eqb_ℤ-false a b h = ground (arith, eqb_ℤ_iff a b)

module _ (fmt : TimeFormat) {S : Type 0} (store : Storage S) (law : Lawful store) (e : Engine)
    (s : S) (r : CheckResult) (now : Time) where
  -- Over a lawful store, a certificate that is not trusted is reported unless the log has a report
  -- for the site of the last 7 days, whether that was sent or not.
  pub decide_ssl-untrusted :
      (r.cert_untrusted || r.cert_self_signed) ≡ true
      → RaisedUnless
          (IsRecent r.site_name type_ssl_untrusted (now -ℤ days 7))
          (law.log s)
          (untrusted_alert fmt r now)
          (decide_ssl fmt store e s r now)
  unfolding decide_ssl
  decide_ssl-untrusted h =
      let (found, eq, finds) =
        search_empty store law r.site_name type_ssl_untrusted (now -ℤ days 7) s in
      rw (h, eq)
        (elim finds [
          | inl (seen, b) ↦ inl (seen, rw (false_of_not _ b))
          | inr (none_seen, b) ↦ inr (none_seen, rw (true_of_not _ b))
        ])

  -- Over a lawful store, a trusted and dated certificate that has reached a warning threshold is
  -- reported unless the log has an alert for the site of the last 90 days that was sent for the
  -- same threshold and serial number.
  pub decide_ssl-expiring :
      (r.cert_untrusted || r.cert_self_signed) ≡ false
      → r.cert_not_after ≢ zero_time
      → let threshold = current_threshold_band r.days_until_cert_expiry e.ssl_warn_days in
        threshold ≢ pos 0
        → RaisedUnless
            (IsSent r.site_name type_ssl_expiring (now -ℤ days 90) threshold r.cert_serial)
            (law.log s)
            (ssl_expiring_alert fmt r threshold now)
            (decide_ssl fmt store e s r now)
  unfolding decide_ssl
  decide_ssl-expiring trusted dated crossed =
      let threshold = current_threshold_band r.days_until_cert_expiry e.ssl_warn_days in
      let (found, eq, finds) =
        search-IsSent store law r.site_name type_ssl_expiring (now -ℤ days 90) s threshold
          r.cert_serial in
      rw (trusted, is_zero_time-false _ dated, eqb_ℤ-false _ _ crossed, eq)
        (elim finds [
          | inl (seen, b) ↦ inl (seen, rw b)
          | inr (none_seen, b) ↦ inr (none_seen, rw b)
        ])
