-- ===== src/Checker/Http.antt =====
-- internal/checker/http.go. What the network, the clock and the shutdown do in each round of the
-- retry loop is a value of `Round`; `Response` is what `http.Client.Do` returns.
pub mod Attempt
pub mod Laws
use domainturva.Prelude.{
  ℕ, zero, suc, ◌+◌, ℤ, pos, ◌+ℤ◌, ◌-ℤ◌, pos_part, eqb_ℤ, quot, wrap64, String, ◌==◌, ◌<>◌, decimal,
  Bool, true, false, ◌&&◌, not, Option, none, some, List, [], ◌∷◌, any, is_empty, Result, ok, err,
  if◌then◌else◌,
}
use domainturva.Time.{Time, Duration, is_zero_time, sub_time, after, seconds, second_ns}
use domainturva.Config.{Site}
use domainturva.Checker.{CheckResult, check_http, status_up, status_down, zero_result}

-- `body` is what `io.ReadAll` makes of the first MiB of the body.
pub record Response : Type 0 where
  pub status_code : ℤ
  pub body : Result String

-- One attempt: the error of `http.NewRequestWithContext`, the clock before the request, what
-- `Client.Do` returns, the clock after it, the times of the TLS handshake, and the clock when an
-- error is reported.
pub record Exchange : Type 0 where
  pub request_error : Option String
  pub start : Time
  pub reply : Result Response
  pub finish : Time
  pub tls_start : Time
  pub tls_end : Time
  pub error_at : Time

-- One round of the loop: the clock before the pause, the error of the context where the pause was
-- cut short, the clock when that error is reported, and the attempt.
pub record Round : Type 0 where
  pub before_pause : Time
  pub cancelled : Option String
  pub cancelled_at : Time
  pub exchange : Exchange

abbrev pub retry_backoff : Duration
retry_backoff = seconds 2

-- 100 milliseconds.
abbrev pub deadline_margin : Duration
deadline_margin = pos 100_000_000

-- `d.Milliseconds()`
abbrev pub milliseconds : Duration → ℤ
milliseconds d = quot d 1_000_000

unfoldable pub error_result : Site → String → Time → CheckResult
error_result s e now = record zero_result {
  site_name = s.name;
  type = check_http;
  status = status_down;
  at = now;
  error = e;
}

-- How the messages print a list of integers and a quoted text, and `strings.Contains`.
pub record Printing : Type 0 where
  pub int_list : List ℤ → String
  pub quoted : String → String
  pub contains : String → String → Bool

module _ (fmt : Printing) where
  -- The checks on the status code and the body.
  unfoldable pub judge : Site → CheckResult → Response → CheckResult
  judge s r resp =
      if not (any (λ want. eqb_ℤ resp.status_code want) s.expect_status)
      then record r {
        status = status_down;
        error =
            "unexpected status "
            <> decimal resp.status_code
            <> " (want "
            <> fmt.int_list s.expect_status
            <> ")";
      }
      else if s.expect_body_contains == ""
      then record r { status = status_up }
      else elim resp.body [
        | err e ↦ record r { status = status_down; error = "read body: " <> e }
        | ok body ↦
            if fmt.contains body s.expect_body_contains
            then record r { status = status_up }
            else record r {
              status = status_down;
              error = "body did not contain " <> fmt.quoted s.expect_body_contains;
            }
      ]

  unfoldable pub attempt : Site → Exchange → CheckResult
  unfolding error_result judge sub_time
  attempt s x = elim x.request_error [
    | some e ↦ error_result s e x.error_at
    | none ↦ elim x.reply [
      | err e ↦ error_result s e x.error_at
      | ok resp ↦
          judge s
            (record zero_result {
              site_name = s.name;
              type = check_http;
              at = x.start;
              status_code = resp.status_code;
              response_ms = milliseconds (sub_time x.finish x.start);
              tls_handshake_ms =
                  if not (is_zero_time x.tls_start) && not (is_zero_time x.tls_end)
                  then milliseconds (sub_time x.tls_end x.tls_start)
                  else pos 0;
            })
            resp
    ]
  ]

  -- The loop with `n` rounds left, from round `i`; `rounds` is what happens in each.
  unfoldable pub check_from :
      Site → (ℕ → Round) → (deadline : Time) → (n i : ℕ) → CheckResult → CheckResult
  unfolding attempt
  check_from s rounds deadline zero i last = last
  check_from s rounds deadline (suc n) zero last =
      let r = attempt s (rounds zero).exchange in
      let rest = check_from s rounds deadline n 1 r in if r.status == status_up then r else rest
  check_from s rounds deadline (suc n) (suc i) last =
      let x = rounds (suc i) in
      let r = attempt s x.exchange in
      let rest = check_from s rounds deadline n (suc (suc i)) r in
      if after (x.before_pause +ℤ retry_backoff) deadline then last else elim x.cancelled [
        | some e ↦ error_result s e x.cancelled_at
        | none ↦ if r.status == status_up then r else rest
      ]

  -- `Check`; `began` is the clock at the start.
  unfoldable pub check : Site → Time → (ℕ → Round) → CheckResult
  unfolding check_from
  check s began rounds =
      let deadline = began +ℤ wrap64 (s.interval -ℤ deadline_margin) in
      check_from s rounds deadline (pos_part (wrap64 (s.retries +ℤ pos 1))) 0 zero_result
