-- ===== src/Alerting/Steps.antt =====
-- `Engine.Process` on each type of result, over a lawful store.
use domainturva.Prelude.{◌==◌, ◌≡◌, ap, false, true, List, [], ok}
use domainturva.Time.{Time, TimeFormat}
use domainturva.Storage.{SiteState, Storage}
use domainturva.Storage.Lawful.{Lawful}
use domainturva.Storage.Memory.{comma_ok, zero_site_state}
use domainturva.Checker.{CheckResult, check_http, check_ssl, check_domain}
use domainturva.Alerting.{baseline, process}
use domainturva.Alerting.Http.{AlertWithMeta, decide_http}
use domainturva.Alerting.Expiry.{Engine, decide_ssl, decide_domain}

module _ (fmt : TimeFormat) {S : Type 0} (store : Storage S) (law : Lawful store) (e : Engine)
    (s : S) (r : CheckResult) (now : Time) where
  -- The state that `Process` starts from.
  abbrev pub previous : SiteState
  previous = baseline r now (comma_ok zero_site_state (law.state_of s r.site_name)).0

  pub process-http :
      r.type ≡ check_http
      → process fmt store e s r now
        ≡ ok (record {
          new_state = (decide_http previous r now).0;
          alerts = (decide_http previous r now).1;
        })
  unfolding process
  process-http t =
      let http : (r.type == check_http) ≡ true = ap (λ x. x == check_http) t in
      rw (law.get_state r.site_name s, http)

  pub process-ssl :
      {alerts : List AlertWithMeta}
      → r.type ≡ check_ssl
      → decide_ssl fmt store e s r now ≡ ok alerts
      → process fmt store e s r now
        ≡ ok (record { new_state = record previous { last_check_at = now }; alerts = alerts })
  unfolding process
  process-ssl t d =
      let http : (r.type == check_http) ≡ false = ap (λ x. x == check_http) t in
      let ssl : (r.type == check_ssl) ≡ true = ap (λ x. x == check_ssl) t in
      rw (law.get_state r.site_name s, http, ssl, d)

  pub process-domain :
      {alerts : List AlertWithMeta}
      → r.type ≡ check_domain
      → decide_domain fmt store e s r now ≡ ok alerts
      → process fmt store e s r now
        ≡ ok (record { new_state = record previous { last_check_at = now }; alerts = alerts })
  unfolding process
  process-domain t d =
      let http : (r.type == check_http) ≡ false = ap (λ x. x == check_http) t in
      let ssl : (r.type == check_ssl) ≡ false = ap (λ x. x == check_ssl) t in
      let domain : (r.type == check_domain) ≡ true = ap (λ x. x == check_domain) t in
      rw (law.get_state r.site_name s, http, ssl, domain, d)

  -- A result of any other type changes nothing but the baseline.
  pub process-other :
      (r.type == check_http) ≡ false
      → (r.type == check_ssl) ≡ false
      → (r.type == check_domain) ≡ false
      → process fmt store e s r now ≡ ok (record { new_state = previous; alerts = [] })
  unfolding process
  process-other http ssl domain = rw (law.get_state r.site_name s, http, ssl, domain)
