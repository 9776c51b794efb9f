-- ===== src/Alerting/Succeeds.antt =====
-- Over a lawful store the SSL and domain decisions always succeed.
use domainturva.Prelude.{
  ℤ, pos, eqb_ℤ, eqb_ℤ_iff, ◌≡◌, ◌≢◌, sym, ◌∙◌, true, false, ◌||◌, List, [], ◌∷◌, Result, ok, inl,
  inr, Bool-cases, false≢true,
}
use domainturva.Time.{Time, TimeFormat, is_zero_time}
use domainturva.Storage.{AlertRecord, Storage}
use domainturva.Storage.Lawful.{Lawful}
use domainturva.Checker.{CheckResult}
use domainturva.Alerting.Band.{current_threshold_band}
use domainturva.Alerting.Http.{AlertWithMeta}
use domainturva.Alerting.Expiry.{Engine, decide_ssl, decide_domain}
use domainturva.Alerting.Expiry.Ssl.{RaisedUnless, decide_ssl-untrusted, decide_ssl-expiring}
use domainturva.Alerting.Expiry.Domain.{decide_domain-lookup_failed, decide_domain-expiring}

-- A decision that succeeds.
abbrev pub Succeeds : Result (List AlertWithMeta) → Type 0
Succeeds d = (alerts : List AlertWithMeta) × (d ≡ ok alerts)

RaisedUnless-Succeeds :
    (P : AlertRecord → Type 0) (log : List AlertRecord) (a : AlertWithMeta)
    (d : Result (List AlertWithMeta))
    → RaisedUnless P log a d
    → Succeeds d
RaisedUnless-Succeeds P log a d (inl (_, e)) = ([], e)
RaisedUnless-Succeeds P log a d (inr (_, e)) = (a ∷ [], e)

ne_of_false : (a b : ℤ) → eqb_ℤ a b ≡ false → a ≢ b
ne_of_false a b h e = false≢true (sym h ∙ (eqb_ℤ_iff a b).1 e)

module _ (fmt : TimeFormat) {S : Type 0} (store : Storage S) (law : Lawful store) (e : Engine)
    (s : S) (r : CheckResult) (now : Time) where
  decide_ssl-undated :
      (r.cert_untrusted || r.cert_self_signed) ≡ false
      → is_zero_time r.cert_not_after ≡ true
      → decide_ssl fmt store e s r now ≡ ok []
  unfolding decide_ssl
  decide_ssl-undated trusted undated = rw (trusted, undated)

  decide_ssl-uncrossed :
      (r.cert_untrusted || r.cert_self_signed) ≡ false
      → is_zero_time r.cert_not_after ≡ false
      → eqb_ℤ (current_threshold_band r.days_until_cert_expiry e.ssl_warn_days) (pos 0) ≡ true
      → decide_ssl fmt store e s r now ≡ ok []
  unfolding decide_ssl
  decide_ssl-uncrossed trusted dated uncrossed = rw (trusted, dated, uncrossed)

  pub decide_ssl-Succeeds : Succeeds (decide_ssl fmt store e s r now)
  decide_ssl-Succeeds =
      let band = current_threshold_band r.days_until_cert_expiry e.ssl_warn_days in
      elim (Bool-cases (r.cert_untrusted || r.cert_self_signed)) [
        | inl untrusted ↦
            RaisedUnless-Succeeds _ _ _ _ (decide_ssl-untrusted fmt store law e s r now untrusted)
        | inr trusted ↦ elim (Bool-cases (is_zero_time r.cert_not_after)) [
          | inl undated ↦ ([], decide_ssl-undated trusted undated)
          | inr dated ↦ elim (Bool-cases (eqb_ℤ band (pos 0))) [
            | inl uncrossed ↦ ([], decide_ssl-uncrossed trusted dated uncrossed)
            | inr crossed ↦ RaisedUnless-Succeeds _ _ _ _ (
                decide_ssl-expiring fmt store law e s r now trusted (ne_of_false _ _ dated)
                  (ne_of_false _ _ crossed))
          ]
        ]
      ]

  decide_domain-undated :
      r.domain_lookup_ok ≡ true
      → is_zero_time r.domain_expiry ≡ true
      → decide_domain fmt store e s r now ≡ ok []
  unfolding decide_domain
  decide_domain-undated looked_up undated = rw (looked_up, undated)

  decide_domain-uncrossed :
      r.domain_lookup_ok ≡ true
      → is_zero_time r.domain_expiry ≡ false
      → eqb_ℤ (current_threshold_band r.days_until_domain_expiry e.domain_warn_days) (pos 0) ≡ true
      → decide_domain fmt store e s r now ≡ ok []
  unfolding decide_domain
  decide_domain-uncrossed looked_up dated uncrossed = rw (looked_up, dated, uncrossed)

  pub decide_domain-Succeeds : Succeeds (decide_domain fmt store e s r now)
  decide_domain-Succeeds =
      let band = current_threshold_band r.days_until_domain_expiry e.domain_warn_days in
      elim (Bool-cases r.domain_lookup_ok) [
        | inr failed ↦ elim (decide_domain-lookup_failed fmt store law e s r now failed) [
          | inl (_, raised) ↦ RaisedUnless-Succeeds _ _ _ _ raised
          | inr (_, nothing) ↦ ([], nothing)
        ]
        | inl looked_up ↦ elim (Bool-cases (is_zero_time r.domain_expiry)) [
          | inl undated ↦ ([], decide_domain-undated looked_up undated)
          | inr dated ↦ elim (Bool-cases (eqb_ℤ band (pos 0))) [
            | inl uncrossed ↦ ([], decide_domain-uncrossed looked_up dated uncrossed)
            | inr crossed ↦ RaisedUnless-Succeeds _ _ _ _ (
                decide_domain-expiring fmt store law e s r now looked_up (ne_of_false _ _ dated)
                  (ne_of_false _ _ crossed))
          ]
        ]
      ]
