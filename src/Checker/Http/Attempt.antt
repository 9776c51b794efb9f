-- ===== src/Checker/Http/Attempt.antt =====
-- When one attempt of internal/checker/http.go finds the site up.
use domainturva.Prelude.{
  pos, eqb_ℤ, eqb_ℤ_iff, String, ◌==◌, eq_iff, ==-eq-true, ◌≡◌, ◌≢◌, ◌↔◌, refl, sym, ap, subst, ◌∙◌,
  ◌⊎◌, inl, inr, true, false, not, ◌&&◌, Bool-cases, false≢true, Option, none, some, Option-cases,
  Result, ok, err, Result-cases, Any, any, any-Any, Any-any, Any-map, if◌then◌else◌, arith,
  ne_of_==-eq-false,
}
use domainturva.Time.{is_zero_time, sub_time}
use domainturva.Config.{Site}
use domainturva.Checker.{CheckResult, check_http, zero_result, status_up, status_down}
use domainturva.Checker.Http.{
  Response, Exchange, Printing, judge, attempt, milliseconds, error_result,
}

module _ (fmt : Printing) (s : Site) where
  -- The body is not looked at, or was read and has the text.
  abbrev pub HasBody : Response → Type 0
  HasBody resp =
      (s.expect_body_contains ≡ "")
      ⊎ ((body : String) × (resp.body ≡ ok body)
          × (fmt.contains body s.expect_body_contains ≡ true))

  abbrev pub IsExpected : Response → Type 0
  IsExpected resp = Any (λ want. resp.status_code ≡ want) s.expect_status × HasBody resp

  down_not_up : ◌≢◌ {A = String} status_down status_up
  down_not_up h = ground (arith, eq_iff status_down status_up)

  some_not_none : {e : String} → ◌≡◌ {A = Option String} (some e) none → ⊥
  some_not_none h = ground arith

  err_not_ok : {e : String} {resp : Response} → ◌≡◌ {A = Result Response} (err e) (ok resp) → ⊥
  err_not_ok h = ground arith

  wanted_iff :
      (resp : Response)
      → (any (λ want. eqb_ℤ resp.status_code want) s.expect_status ≡ true)
        ↔ Any (λ want. resp.status_code ≡ want) s.expect_status
  wanted_iff resp = (
    λ h.
        Any-map _ _ (λ w. (eqb_ℤ_iff resp.status_code w).0) s.expect_status
          (any-Any (λ want. eqb_ℤ resp.status_code want) s.expect_status h),
    λ h.
        Any-any (λ want. eqb_ℤ resp.status_code want) s.expect_status
          (Any-map _ _ (λ w. (eqb_ℤ_iff resp.status_code w).1) s.expect_status h),
  )

  unread_body :
      (resp : Response) (message : String)
      → s.expect_body_contains ≢ ""
      → resp.body ≡ err message
      → HasBody resp
      → ⊥
  unread_body resp message ne unread (inl e) = ne e
  unread_body resp message ne unread (inr (body, got, has)) = ground arith

  other_body :
      (resp : Response) (body : String)
      → s.expect_body_contains ≢ ""
      → resp.body ≡ ok body
      → fmt.contains body s.expect_body_contains ≡ false
      → HasBody resp
      → ⊥
  other_body resp body ne got lacks (inl e) = ne e
  other_body resp body ne got lacks (inr (body', got', has)) =
      let same : body ≡ body' = ground arith in
      false≢true (sym lacks ∙ ap (λ b. fmt.contains b s.expect_body_contains) same ∙ has)

  judge_iff :
      (r : CheckResult) (resp : Response)
      → ((judge fmt s r resp).status ≡ status_up) ↔ IsExpected resp
  unfolding judge
  judge_iff r resp =
      let (f, g) = wanted_iff resp in
      elim (Bool-cases (any (λ want. eqb_ℤ resp.status_code want) s.expect_status)) [
        | inr unwanted ↦
            rw unwanted
              (λ e. absurd (down_not_up e), λ h. absurd (false≢true (sym unwanted ∙ g h.0)))
        | inl wanted ↦ elim (Bool-cases (s.expect_body_contains == "")) [
          | inl plain ↦ rw (wanted, plain) (λ e. (f wanted, inl (==-eq-true _ _ plain)), λ h. refl)
          | inr asked ↦
              let ne = ne_of_==-eq-false _ _ asked in
              elim (Result-cases resp.body) [
                | inl (message, unread) ↦ (
                  λ e. absurd (down_not_up (rw (wanted, asked, unread) at e)),
                  λ h. absurd (unread_body resp message ne unread h.1),
                )
                | inr (body, got) ↦ elim (Bool-cases (fmt.contains body s.expect_body_contains)) [
                  | inl has ↦
                      rw (wanted, asked, got, has)
                        (λ e. (f wanted, inr (body, refl, has)), λ h. refl)
                  | inr lacks ↦ (
                    λ e. absurd (down_not_up (rw (wanted, asked, got, lacks) at e)),
                    λ h. absurd (other_body resp body ne got lacks h.1),
                  )
                ]
              ]
        ]
      ]

  ok_inj : {a b : Response} → ◌≡◌ {A = Result Response} (ok a) (ok b) → a ≡ b
  ok_inj h = ground arith

  -- The result before its status is known.
  abbrev timed : Exchange → Response → CheckResult
  timed x resp = record zero_result {
    site_name = s.name;
    type = check_http;
    at = x.start;
    status_code = resp.status_code;
    response_ms = milliseconds (sub_time x.finish x.start);
    tls_handshake_ms =
        if not (is_zero_time x.tls_start) && not (is_zero_time x.tls_end)
        then milliseconds (sub_time x.tls_end x.tls_start)
        else pos 0;
  }

  attempt_answered :
      (x : Exchange) (resp : Response)
      → x.request_error ≡ none
      → x.reply ≡ ok resp
      → attempt fmt s x ≡ judge fmt s (timed x resp) resp
  unfolding attempt
  attempt_answered x resp good answered = rw (good, answered) refl

  -- What an attempt needs to find the site up.
  abbrev pub IsHealthy : Exchange → Type 0
  IsHealthy x =
      (x.request_error ≡ none) × ((resp : Response) × (x.reply ≡ ok resp) × IsExpected resp)

  -- An attempt of the HTTP check finds the site up exactly when the request could be made and was
  -- answered, the answer's status is one of the expected ones, and the body is not looked at or
  -- was read and has the expected text.
  pub attempt-IsHealthy : (x : Exchange) → ((attempt fmt s x).status ≡ status_up) ↔ IsHealthy x
  unfolding attempt error_result
  attempt-IsHealthy x = elim (Option-cases x.request_error) [
    | inr (e, bad) ↦
        (λ h. absurd (down_not_up (rw bad at h)), λ h. absurd (some_not_none (sym bad ∙ h.0)))
    | inl good ↦ elim (Result-cases x.reply) [
      | inl (e, failed) ↦ (
        λ h. absurd (down_not_up (rw (good, failed) at h)),
        λ h. absurd (err_not_ok (sym failed ∙ h.1.1)),
      )
      | inr (resp, answered) ↦
          let eq = attempt_answered x resp good answered in
          let (f, g) = judge_iff (timed x resp) resp in
          (
            λ h. (good, (resp, answered, f (sym (ap (λ r. r.status) eq) ∙ h))),
            λ (_, (resp', answered', expected)).
                let same : resp' ≡ resp = ok_inj (sym answered' ∙ answered) in
                ap (λ r. r.status) eq ∙ g (subst IsExpected same expected),
          )
    ]
  ]
