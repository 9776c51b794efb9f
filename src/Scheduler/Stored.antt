-- ===== src/Scheduler/Stored.antt =====
-- The log of the SQLite store from a check to the next.
use domainturva.Prelude.{
  ℕ, ℤ, pos, ◌+ℤ◌, ◌-ℤ◌, ◌<◌, leb_ℤ, eqb_ℤ_iff, eq_iff, max_int64, String, ◌≡◌, refl, ap, ◌∙◌, Bool,
  true, false, ◌&&◌, ◌||◌, Option-cases, none, some, List, [], ◌∷◌, ◌++◌, any, any-append,
  any-filter, filter, map, inl, inr, Dict, ◌⊎◌, arith,
}
use domainturva.Time.{Time, TimeFormat, days}
use domainturva.Storage.{AlertRecord}
use domainturva.Storage.Sqlite.{
  AlertRow, Database, format_ts, alert_row, scan_alert, is_selected, insert_by_sent_at,
  order_by_sent_at, record_alert, find_recent_alerts,
}
use domainturva.Storage.Sqlite.Order.{IsStorable, second_of, parse_ts-format_ts}
use domainturva.Storage.Sqlite.Search.{second_at, selected_later, not_below_of_second}
use domainturva.Storage.Sqlite.States.{Faults, sqlite}
use domainturva.Notifier.{Alert, type_ssl_expiring, type_domain_expiring}
use domainturva.Notifier.Backend.{Backend, name}
use domainturva.Notifier.Dispatcher.{Send, Attempts, outcome, alert_record, send_one}
use domainturva.Checker.{CheckResult}
use domainturva.Config.{Routing}
use domainturva.Alerting.Expiry.{Engine, is_duplicate}
use domainturva.Scheduler.{process_result}
use domainturva.Scheduler.Raised.{IsFor}
use domainturva.Scheduler.Once.{IsSslWarning, IsDomainWarning}
use domainturva.Scheduler.Silent.{IsSeen, ssl_silent, domain_silent}

any-map :
    (p : AlertRecord → Bool) (rows : List AlertRow)
    → any p (map scan_alert rows) ≡ any (λ row. p (scan_alert row)) rows
any-map p [] = refl
any-map p (row ∷ rows) = ap (λ b. p (scan_alert row) || b) (any-map p rows)

any-insert_by_sent_at :
    (p : AlertRow → Bool) (a : AlertRow) (bs : List AlertRow)
    → any p (insert_by_sent_at a bs) ≡ (p a || any p bs)
unfolding insert_by_sent_at
any-insert_by_sent_at p a [] = refl
any-insert_by_sent_at p a (b ∷ bs) = ground (arith, any-insert_by_sent_at p a bs)

any-order_by_sent_at :
    (p : AlertRow → Bool) (bs : List AlertRow) → any p (order_by_sent_at bs) ≡ any p bs
unfolding order_by_sent_at
any-order_by_sent_at p [] = refl
any-order_by_sent_at p (b ∷ bs) =
    ground (arith, any-insert_by_sent_at p b (order_by_sent_at bs), any-order_by_sent_at p bs)

-- A row that a search selects is found, wherever it stands in the log.
found_in :
    (q : AlertRow → Bool) (p : AlertRecord → Bool) (before more : List AlertRow) (row : AlertRow)
    → q row ≡ true
    → p (scan_alert row) ≡ true
    → any p (map scan_alert (order_by_sent_at (filter q ((before ++ (row ∷ [])) ++ more)))) ≡ true
found_in q p before more row selected wanted =
    let log = (before ++ (row ∷ [])) ++ more in
    let both = λ (x : AlertRow). q x && p (scan_alert x) in
    let here : both row ≡ true = rw (selected, wanted) in
    any-map p (order_by_sent_at (filter q log))
    ∙ any-order_by_sent_at (λ x. p (scan_alert x)) (filter q log)
    ∙ any-filter (λ x. p (scan_alert x)) q log
    ∙ any-append both (before ++ (row ∷ [])) more
    ∙ ground (arith, any-append both before (row ∷ []), here)

record_alert-row :
    (a : AlertRecord) (db : Database)
    → leb_ℤ max_int64 db.last_id ≡ false
    → (record_alert none a db).0.alert_log
      ≡ db.alert_log ++ (alert_row (db.last_id +ℤ pos 1) a ∷ [])
unfolding record_alert
record_alert-row a db room = rw room refl

module _ (f : Faults) (payload_json : Alert → String) (env : Attempts) (x : Send) (t : Time)
    (db : Database) where
  -- The row that a goroutine writes that has sent its alert.
  abbrev sent_row : AlertRow
  sent_row =
      alert_row (db.last_id +ℤ pos 1)
        (alert_record payload_json (name x.notifier) x.alert x.extra (outcome env).0 t)

  send_one-row :
      leb_ℤ max_int64 db.last_id ≡ false
      → ((a : AlertRecord) → f.record_alert a db ≡ none)
      → (send_one payload_json (some (sqlite f)) env x t db).alert_log
        ≡ db.alert_log ++ (sent_row ∷ [])
  unfolding send_one
  send_one-row room fine =
      let a = alert_record payload_json (name x.notifier) x.alert x.extra (outcome env).0 t in
      ap (λ fault. (record_alert fault a db).0.alert_log) (fine a) ∙ record_alert-row a db room

  -- A search of its site and type from an earlier second selects it.
  sent_row-selected :
      (since : Time)
      → IsStorable t
      → IsStorable since
      → second_of since < second_of t
      → is_selected x.alert.site_name x.alert.type (format_ts since) sent_row ≡ true
  unfolding alert_row alert_record
  sent_row-selected since ht hs lt =
      let later : second_of since < second_at sent_row = rw (parse_ts-format_ts t ht) lt in
      selected_later x.alert.site_name x.alert.type since sent_row refl refl
        (not_below_of_second sent_row since (t, ht, refl) hs later)

  -- It says what was sent.
  sent_row-is_duplicate :
      (outcome env).0 ≡ "sent"
      → is_duplicate x.extra.threshold x.extra.cert_serial (scan_alert sent_row) ≡ true
  unfolding alert_row alert_record scan_alert
  sent_row-is_duplicate sent = rw sent (
      ground (
        arith,
        eqb_ℤ_iff x.extra.threshold x.extra.threshold,
        eq_iff x.extra.cert_serial x.extra.cert_serial,
      ))

module _ (fmt : TimeFormat) (f : Faults) (e : Engine) (payload_json : Alert → String) where
  -- An expiry warning, with the type of its alert, the days for which it is not repeated, and its key.
  abbrev pub IsWarning : CheckResult → ℤ → String → ℕ → String → Type 0
  IsWarning r threshold type window key =
      (IsSslWarning e r threshold
        × (type ≡ type_ssl_expiring)
        × (window ≡ 90)
        × (key ≡ r.cert_serial))
      ⊎ (IsDomainWarning e r threshold
          × (type ≡ type_domain_expiring)
          × (window ≡ 365)
          × (key ≡ fmt.rfc3339_utc r.domain_expiry))

  -- A search that fails says nothing.
  IsSeen_of_found :
      (r : CheckResult) (threshold : ℤ) (type key : String) (since now : Time) (db : Database)
      → any (is_duplicate threshold key) (
          map scan_alert (
            order_by_sent_at
              (filter (is_selected r.site_name type (format_ts since)) db.alert_log)))
        ≡ true
      → IsSeen fmt (sqlite f) e r threshold now db type since key
  unfolding find_recent_alerts
  IsSeen_of_found r threshold type key since now db h =
      elim (Option-cases (f.find_recent_alerts r.site_name type since db)) [
        | inl fine ↦ rw fine h
        | inr (message, failed) ↦ rw failed tt
      ]

  seen :
      (r : CheckResult) (threshold : ℤ) (type key : String) (since now t : Time) (x : Send)
      (env : Attempts) (db₁ db₂ : Database) (more : List AlertRow)
      → IsFor r.site_name type threshold key x.alert x.extra.threshold x.extra.cert_serial
      → (outcome env).0 ≡ "sent"
      → IsStorable t
      → leb_ℤ max_int64 db₁.last_id ≡ false
      → ((a : AlertRecord) → f.record_alert a db₁ ≡ none)
      → db₂.alert_log ≡ (send_one payload_json (some (sqlite f)) env x t db₁).alert_log ++ more
      → IsStorable since
      → second_of since < second_of t
      → IsSeen fmt (sqlite f) e r threshold now db₂ type since key
  seen r threshold type key since now t x env db₁ db₂ more (site, of_type, th, k) sent storable room
        fine later hs lt =
      let row = sent_row f payload_json env x t db₁ in
      let log = later ∙ ap (λ l. l ++ more) (send_one-row f payload_json env x t db₁ room fine) in
      let selected : is_selected r.site_name type (format_ts since) row ≡ true =
        rw (← site, ← of_type)
          (sent_row-selected f payload_json env x t db₁ since storable hs lt) in
      let wanted : is_duplicate threshold key (scan_alert row) ≡ true =
        rw (← th, ← k) (sent_row-is_duplicate f payload_json env x t db₁ sent) in
      IsSeen_of_found r threshold type key since now db₂ (
        rw log (
          found_in (is_selected r.site_name type (format_ts since)) (is_duplicate threshold key)
            db₁.alert_log more row selected wanted))

  -- Over the SQLite store, once a goroutine has sent the expiry alert of a certificate or of a
  -- domain and its record was written, a later result for the same site, threshold and key (the
  -- serial number, or the expiry time) starts no goroutine if the alert was sent in a later second
  -- than the start of the search (90 days back for a certificate, 365 for a domain) and both times
  -- are storable (the zero time, or one of the years 1 to 9999), whatever else was written to the
  -- log after it, and even if reads or other writes of the store fail.
  pub stored_sent_once :
      (routing : Routing) (notifiers : Dict Backend) (r : CheckResult) (threshold : ℤ)
      (type key : String) (window : ℕ) (now t : Time) (x : Send) (env : Attempts)
      (db₁ db₂ : Database) (more : List AlertRow)
      → IsFor r.site_name type threshold key x.alert x.extra.threshold x.extra.cert_serial
      → (outcome env).0 ≡ "sent"
      → IsStorable t
      → leb_ℤ max_int64 db₁.last_id ≡ false
      → ((a : AlertRecord) → f.record_alert a db₁ ≡ none)
      → db₂.alert_log ≡ (send_one payload_json (some (sqlite f)) env x t db₁).alert_log ++ more
      → IsStorable (now -ℤ days window)
      → second_of (now -ℤ days window) < second_of t
      → IsWarning r threshold type window key
      → (process_result fmt (sqlite f) e routing notifiers r now db₂).1 ≡ []
  stored_sent_once routing notifiers r threshold type key window now t x env db₁ db₂ more is_for
        sent storable room fine later hs lt warning =
      let known =
        seen r threshold type key (now -ℤ days window) now t x env db₁ db₂ more is_for sent storable
          room fine later hs lt in
      elim warning [
        | inl (w, of_type, days_90, serial) ↦
            ssl_silent fmt (sqlite f) e r threshold now db₂ routing notifiers w
              (rw (of_type, days_90, serial) at known)
        | inr (w, of_type, days_365, expiry) ↦
            domain_silent fmt (sqlite f) e r threshold now db₂ routing notifiers w
              (rw (of_type, days_365, expiry) at known)
      ]
