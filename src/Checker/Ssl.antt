-- ===== src/Checker/Ssl.antt =====
-- internal/checker/ssl.go. What the network and the certificate library return is a value of
-- `Handshake`; `url.Parse` is a parameter.
pub mod Laws
use domainturva.Prelude.{
  ℤ, String, ◌==◌, ◌<>◌, Bool, true, false, ◌&&◌, Option, none, some, List, [], ◌∷◌, Result, ok,
  err, if◌then◌else◌,
}
use domainturva.Time.{Time, TimeFormat, before, sub_time}
use domainturva.Config.{Site}
use domainturva.Checker.{CheckResult, check_ssl, status_up, status_down, zero_result}
use domainturva.Checker.Days.{days_left}

-- The fields and methods of `x509.Certificate` that are read.
pub record Certificate : Type 0 where
  pub not_after : Time
  pub serial : String
  pub issuer_common_name : String
  pub issuer : String
  pub subject : String

-- The error of `leaf.Verify`, and whether `errors.As` finds an `x509.UnknownAuthorityError` in it.
pub record VerifyError : Type 0 where
  pub text : String
  pub unknown_authority : Bool

-- The clock at the start; the error of `url.Parse`; the certificates of the peer, or the error of
-- `DialContext`; the clock of `time.Until`; the error of `Verify`; the clock of the last test.
pub record Handshake : Type 0 where
  pub start : Time
  pub url_error : Option String
  pub peer : Result (List Certificate)
  pub until : Time
  pub verify : Option VerifyError
  pub finish : Time

unfoldable pub is_self_signed : Certificate → Bool
is_self_signed c = c.issuer == c.subject

module _ (fmt : TimeFormat) where
  -- From the leaf certificate on: `r` has what precedes.
  unfoldable pub judge_leaf : CheckResult → Handshake → Certificate → CheckResult
  unfolding is_self_signed days_left sub_time
  judge_leaf r0 x leaf =
      let r1 : CheckResult = record r0 {
        cert_not_after = leaf.not_after;
        cert_serial = leaf.serial;
        cert_issuer = leaf.issuer_common_name;
        days_until_cert_expiry = days_left (sub_time leaf.not_after x.until);
        status = status_up;
      } in
      let r2 : CheckResult = elim x.verify [
        | none ↦ r1
        | some e ↦ record r1 {
          cert_untrusted = true;
          cert_self_signed = e.unknown_authority && is_self_signed leaf;
          error = "cert verify: " <> e.text;
        }
      ] in
      if before leaf.not_after x.finish
      then record r2 {
        status = status_down;
        error = "cert expired on " <> fmt.rfc3339 leaf.not_after;
      }
      else r2

  unfoldable pub check : Site → Handshake → CheckResult
  unfolding judge_leaf
  check s x =
      let r = record zero_result { site_name = s.name; type = check_ssl; at = x.start } in
      elim x.url_error [
        | some e ↦ record r { status = status_down; error = "parse url: " <> e }
        | none ↦ elim x.peer [
          | err e ↦ record r { status = status_down; error = "tls dial: " <> e }
          | ok certificates ↦ elim certificates [
            | [] ↦ record r { status = status_down; error = "no peer certificates" }
            | leaf ∷ rest ↦ judge_leaf r x leaf
          ]
        ]
      ]
