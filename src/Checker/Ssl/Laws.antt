-- ===== src/Checker/Ssl/Laws.antt =====
-- What an SSL check reports, and what the alerting engine makes of it.
use domainturva.Prelude.{
  ℤ, String, eq_iff, ◌≡◌, ◌≢◌, ◌↔◌, refl, sym, ap, subst, ◌∙◌, true, false, ◌||◌, ◌&&◌, Option,
  none, some, List, [], ◌∷◌, ok, err, Result, arith, ◌⊎◌, inl, inr, Bool-cases, ◌≤ℤ◌, Option-cases,
}
use domainturva.Time.{Time, TimeFormat, zero_time, sub_time, before}
use domainturva.Storage.{Storage}
use domainturva.Config.{Site}
use domainturva.Checker.{CheckResult, zero_result, check_ssl, status_up, status_down}
use domainturva.Checker.Days.{days_left}
use domainturva.Checker.Ssl.{Certificate, VerifyError, Handshake, is_self_signed, judge_leaf, check}
use domainturva.Alerting.Expiry.{Engine, decide_ssl}

-- A leaf certificate came back.
abbrev pub HasLeaf : Handshake → Certificate → Type 0
HasLeaf x leaf = (x.url_error ≡ none) × ((rest : List Certificate) × (x.peer ≡ ok (leaf ∷ rest)))

-- No certificate came back: the URL is none, there was no connection, or the peer sent none.
abbrev pub HasNoLeaf : Handshake → Type 0
HasNoLeaf x =
    ((e : String) × (x.url_error ≡ some e))
    ⊎ ((x.url_error ≡ none) × (((e : String) × (x.peer ≡ err e)) ⊎ (x.peer ≡ ok [])))

-- A check without a certificate: it is down, and dates nothing.
abbrev pub IsBlank : CheckResult → Type 0
IsBlank r =
    (r.status ≡ status_down)
    × (r.cert_not_after ≡ zero_time)
    × ((r.cert_untrusted || r.cert_self_signed) ≡ false)

-- What the result says of the leaf.
abbrev pub Describes : CheckResult → Handshake → Certificate → Type 0
Describes r x leaf =
    (r.cert_not_after ≡ leaf.not_after)
    × (r.cert_serial ≡ leaf.serial)
    × (r.cert_issuer ≡ leaf.issuer_common_name)
    × (r.days_until_cert_expiry ≡ days_left (sub_time leaf.not_after x.until))
    × ((r.status ≡ status_up) ↔ (x.finish ≤ℤ leaf.not_after))
    × ((r.cert_untrusted ≡ false) ↔ (x.verify ≡ none))
    × ((r.cert_self_signed ≡ true) ↔ (
        (e : VerifyError) × (x.verify ≡ some e)
        × (e.unknown_authority ≡ true)
        × (leaf.issuer ≡ leaf.subject)))

not_before : (a b : ℤ) → before a b ≡ false → b ≤ℤ a
not_before a b h = ground arith

not_after : (a b : ℤ) → before a b ≡ true → (b ≤ℤ a) → ⊥
not_after a b h k = ground arith

down_not_up : ◌≢◌ {A = String} status_down status_up
down_not_up h = ground (arith, eq_iff status_down status_up)

self_signed_iff :
    (e : VerifyError) (leaf : Certificate)
    → ((e.unknown_authority && is_self_signed leaf) ≡ true)
      ↔ ((e.unknown_authority ≡ true) × (leaf.issuer ≡ leaf.subject))
unfolding is_self_signed
self_signed_iff e leaf = ground (arith, eq_iff leaf.issuer leaf.subject)

module _ (fmt : TimeFormat) (r : CheckResult) (x : Handshake) (leaf : Certificate) where
  -- What a certificate that was verified is called.
  trusted_iff :
      (r.cert_untrusted || r.cert_self_signed) ≡ false
      → ((r.cert_untrusted ≡ false) ↔ (◌≡◌ {A = Option VerifyError} none none))
        × ((r.cert_self_signed ≡ true) ↔ (
            (e : VerifyError) × (◌≡◌ {A = Option VerifyError} none (some e))
            × (e.unknown_authority ≡ true)
            × (leaf.issuer ≡ leaf.subject)))
  trusted_iff plain = (
    (λ h. refl, λ h. ground arith),
    (λ h. absurd (ground arith), λ h. absurd (ground (arith, h.1))),
  )

  -- What one that was not is called.
  untrusted_iff :
      (e : VerifyError)
      → ((true ≡ false) ↔ (◌≡◌ {A = Option VerifyError} (some e) none))
        × (((e.unknown_authority && is_self_signed leaf) ≡ true) ↔ (
            (e' : VerifyError) × (◌≡◌ {A = Option VerifyError} (some e) (some e'))
            × (e'.unknown_authority ≡ true)
            × (leaf.issuer ≡ leaf.subject)))
  untrusted_iff e =
      let (f, g) = self_signed_iff e leaf in
      (
        (λ h. absurd (ground arith), λ h. absurd (ground arith)),
        (
          λ h. (e, refl, (f h).0, (f h).1),
          λ h.
              let same : h.0 ≡ e = ground (arith, h.1) in
              g (ap (λ y. y.unknown_authority) (sym same) ∙ h.2, h.3),
        ),
      )

  judge_leaf-Describes :
      (r.cert_untrusted || r.cert_self_signed) ≡ false → Describes (judge_leaf fmt r x leaf) x leaf
  unfolding judge_leaf
  judge_leaf-Describes plain = elim (Option-cases x.verify) [
    | inl good ↦
        let (f, g) = trusted_iff plain in
        elim (Bool-cases (before leaf.not_after x.finish)) [
          | inl t ↦
              rw (good, t)
                (
                  refl,
                  refl,
                  refl,
                  refl,
                  (
                    λ e. absurd (down_not_up e),
                    λ le. absurd (not_after leaf.not_after x.finish t le),
                  ),
                  f,
                  g,
                )
          | inr b ↦
              rw (good, b)
                (
                  refl,
                  refl,
                  refl,
                  refl,
                  (λ e. not_before leaf.not_after x.finish b, λ le. refl),
                  f,
                  g,
                )
        ]
    | inr (e, bad) ↦
        let (f, g) = untrusted_iff e in
        elim (Bool-cases (before leaf.not_after x.finish)) [
          | inl t ↦
              rw (bad, t)
                (
                  refl,
                  refl,
                  refl,
                  refl,
                  (
                    λ e. absurd (down_not_up e),
                    λ le. absurd (not_after leaf.not_after x.finish t le),
                  ),
                  f,
                  g,
                )
          | inr b ↦
              rw (bad, b)
                (
                  refl,
                  refl,
                  refl,
                  refl,
                  (λ e. not_before leaf.not_after x.finish b, λ le. refl),
                  f,
                  g,
                )
        ]
  ]

peer_cases :
    (o : Result (List Certificate))
    → ((message : String) × (o ≡ err message))
      ⊎ ((o ≡ ok []) ⊎ ((leaf : Certificate) × (rest : List Certificate) × (o ≡ ok (leaf ∷ rest))))
peer_cases (err message) = inl (message, refl)
peer_cases (ok []) = inr (inl refl)
peer_cases (ok (leaf ∷ rest)) = inr (inr (leaf, rest, refl))

abbrev started : Site → Handshake → CheckResult
started s x = record zero_result { site_name = s.name; type = check_ssl; at = x.start }

check_leaf :
    (fmt : TimeFormat) (s : Site) (x : Handshake) (leaf : Certificate) (rest : List Certificate)
    → x.url_error ≡ none
    → x.peer ≡ ok (leaf ∷ rest)
    → check fmt s x ≡ judge_leaf fmt (started s x) x leaf
unfolding check
check_leaf fmt s x leaf rest parsed given = rw (parsed, given) refl

-- An SSL check either describes the leaf certificate that came back: its end, serial number and
-- issuer, the days to its end, up exactly where it has not expired, untrusted exactly where it was
-- not verified, and self-signed exactly where it was not for an unknown authority and names itself
-- as its issuer; or no certificate came back, since the URL could not be parsed, the connection
-- failed or the peer sent none, the check is down, and the engine raises no alert for it.
pub check-Describes :
    (fmt : TimeFormat) {S : Type 0} (store : Storage S) (e : Engine) (s : S) (now : Time)
    (site : Site) (x : Handshake)
    → ((leaf : Certificate) × HasLeaf x leaf × Describes (check fmt site x) x leaf)
      ⊎ (HasNoLeaf x
          × IsBlank (check fmt site x)
          × (decide_ssl fmt store e s (check fmt site x) now ≡ ok []))
unfolding check decide_ssl
check-Describes fmt store e s now site x = elim (Option-cases x.url_error) [
  | inr (message, bad) ↦ rw bad (inr (inl (message, refl), (refl, refl, refl), refl))
  | inl parsed ↦ elim (peer_cases x.peer) [
    | inl (message, failed) ↦
        rw (parsed, failed) (inr (inr (refl, inl (message, refl)), (refl, refl, refl), refl))
    | inr (inl none_given) ↦
        rw (parsed, none_given) (inr (inr (refl, inr refl), (refl, refl, refl), refl))
    | inr (inr (leaf, rest, given)) ↦ inl (
      leaf,
      (parsed, (rest, given)),
      subst (λ r. Describes r x leaf) (sym (check_leaf fmt site x leaf rest parsed given))
          (judge_leaf-Describes fmt (started site x) x leaf refl),
    )
  ]
]
