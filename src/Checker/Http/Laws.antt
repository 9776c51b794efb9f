-- ===== src/Checker/Http/Laws.antt =====
-- `Check` of internal/checker/http.go: which attempts decide the result.
use domainturva.Prelude.{
  ℕ, max_int64, ◌-ℤ◌, zero, suc, ◌+◌, ◌≤◌, ◌<◌, ℤ, pos, ◌+ℤ◌, ◌≤ℤ◌, ◌<ℤ◌, pos_part, wrap64, String,
  ◌==◌, ==-eq-true, ne_of_==-eq-false, ◌≡◌, ◌≢◌, eq_iff, ◌↔◌, refl, sym, ap, ◌∙◌, subst, ◌⊎◌, inl,
  inr, true, false, none, Bool-cases, Option-cases, arith,
}
use native.Mathlib.Nat.{eq-or-lt_of_le}
use domainturva.Time.{Time, after}
use domainturva.Config.{Site}
use domainturva.Checker.{CheckResult, status_up, status_down, zero_result}
use domainturva.Checker.Http.{
  Round, Printing, attempt, check_from, check, retry_backoff, deadline_margin,
}

module _ (fmt : Printing) (s : Site) (rounds : ℕ → Round) (deadline : Time) where
  -- The attempt of round `i` finds the site up.
  abbrev pub IsUp : ℕ → Type 0
  IsUp i = (attempt fmt s (rounds i).exchange).status ≡ status_up

  -- The pause before round `i` neither passes the deadline nor is cut short.
  abbrev pub IsReached : ℕ → Type 0
  IsReached zero = Unit
  IsReached (suc i) =
      ((rounds (suc i)).before_pause +ℤ retry_backoff ≤ℤ deadline)
      × ((rounds (suc i)).cancelled ≡ none)

  -- A round that is run finds the site up, and no round before it did.
  abbrev FirstUp : ℕ → ℕ → Type 0
  FirstUp zero i = ⊥
  FirstUp (suc n) i = (IsReached i × IsUp i) ⊎ (IsReached i × ((IsUp i → ⊥) × FirstUp n (suc i)))

  reached : (n i : ℕ) → FirstUp (suc n) i → IsReached i
  reached n i (inl (r, u)) = r
  reached n i (inr (r, h)) = r

  not_late : (a b : ℤ) → a ≤ℤ b → after a b ≡ true → ⊥
  not_late a b h late = ground arith

  not_after : (a b : ℤ) → after a b ≡ false → a ≤ℤ b
  not_after a b h = ground arith

  down_not_up : ◌≢◌ {A = String} status_down status_up
  down_not_up h = ground (arith, eq_iff status_down status_up)

  check_from_iff :
      (n i : ℕ) (last : CheckResult)
      → last.status ≢ status_up
      → ((check_from fmt s rounds deadline n i last).status ≡ status_up) ↔ FirstUp n i
  unfolding check_from
  check_from_iff zero i last down = (down, λ h. absurd h)
  check_from_iff (suc n) zero last down =
      elim (Bool-cases ((attempt fmt s (rounds zero).exchange).status == status_up)) [
        | inl t ↦ rw t (λ h. inl (tt, h), λ h. ==-eq-true _ _ t)
        | inr f ↦
            let ne = ne_of_==-eq-false _ _ f in
            let (g, k) = check_from_iff n 1 (attempt fmt s (rounds zero).exchange) ne in
            rw f (
              λ h. inr (tt, (ne, g h)),
              λ h. elim h [ inl (r, u) ↦ absurd (ne u) | inr (r, (x, later)) ↦ k later ],
            )
      ]
  check_from_iff (suc n) (suc i) last down =
      let x = rounds (suc i) in
      let r = attempt fmt s x.exchange in
      elim (Bool-cases (after (x.before_pause +ℤ retry_backoff) deadline)) [
        | inl late ↦ rw late (
          λ h. absurd (down h),
          λ h.
              absurd
                (not_late (x.before_pause +ℤ retry_backoff) deadline (reached n (suc i) h).0 late),
        )
        | inr early ↦ elim (Option-cases x.cancelled) [
          | inr (e, cut) ↦
              let stop : FirstUp (suc n) (suc i) → ⊥ =
                λ h. let on = (reached n (suc i) h).1 in ground arith in
              (λ h. absurd (down_not_up (rw (early, cut) at h)), λ h. absurd (stop h))
          | inl on ↦ elim (Bool-cases (r.status == status_up)) [
            | inl t ↦
                rw (early, on, t)
                  (
                    λ h.
                        inl ((not_after (x.before_pause +ℤ retry_backoff) deadline early, refl), h),
                    λ h. ==-eq-true _ _ t,
                  )
            | inr f ↦
                let ne = ne_of_==-eq-false _ _ f in
                let (g, k) = check_from_iff n (suc (suc i)) r ne in
                rw (early, on, f)
                  (
                    λ h. inr (
                      (not_after (x.before_pause +ℤ retry_backoff) deadline early, refl),
                      (ne, g h),
                    ),
                    λ h. elim h [ inl (r, u) ↦ absurd (ne u) | inr (r, (x, later)) ↦ k later ],
                  )
          ]
        ]
      ]

  FirstUp-some :
      (n i : ℕ)
      → FirstUp n i
      → (k : ℕ) × (i ≤ k) × (k < i + n) × IsUp k × ((j : ℕ) → i ≤ j → j ≤ k → IsReached j)
  FirstUp-some zero i h = absurd h
  FirstUp-some (suc n) i (inl (r, u)) =
      (i, omega arith, omega arith, u, λ j low high. subst IsReached (omega arith) r)
  FirstUp-some (suc n) i (inr (r, (down, h))) =
      let (k, low, high, up, reached) = FirstUp-some n (suc i) h in
      (
        k,
        omega arith,
        omega arith,
        up,
        λ j from to. elim (eq-or-lt_of_le from) [
          | inl e ↦ subst IsReached e r
          | inr lt ↦ reached j (omega arith) to
        ],
      )

  FirstUp-of_some :
      (n i k : ℕ)
      → i ≤ k
      → k < i + n
      → IsUp k
      → ((j : ℕ) → i ≤ j → j ≤ k → IsReached j)
      → FirstUp n i
  FirstUp-of_some zero i k low high up reached = absurd (omega arith)
  FirstUp-of_some (suc n) i k low high up reached =
      elim (Bool-cases ((attempt fmt s (rounds i).exchange).status == status_up)) [
        | inl t ↦ inl (reached i (omega arith) low, ==-eq-true _ _ t)
        | inr f ↦
            let ne = ne_of_==-eq-false _ _ f in
            elim (eq-or-lt_of_le low) [
              | inl e ↦ absurd (ne (subst IsUp (sym e) up))
              | inr lt ↦ inr (
                reached i (omega arith) low,
                (
                  ne,
                  FirstUp-of_some n (suc i) k (omega arith) (omega arith) up
                      (λ j from to. reached j (omega arith) to),
                ),
              )
            ]
      ]

zero_result-down : zero_result.status ≢ status_up
zero_result-down h = ground (arith, eq_iff "" status_up)

count_lem : (n : ℕ) → pos n <ℤ max_int64 → pos_part (wrap64 (pos n +ℤ pos 1)) ≡ suc n
unfolding wrap64 ◌+ℤ◌
count_lem n h = ground arith

-- For a number of retries that is at least 0 and less than the largest int64, the HTTP check finds
-- the site up exactly when one of the attempts 0, …, retries finds it up and the pauses before it
-- and before the attempts ahead of it neither pass the deadline (100 milliseconds before the
-- interval ends) nor are cut short.
pub check-IsUp :
    (fmt : Printing) (s : Site) (began : Time) (rounds : ℕ → Round) (retries : ℕ)
    → s.retries ≡ pos retries
    → pos retries <ℤ max_int64
    → let deadline = began +ℤ wrap64 (s.interval -ℤ deadline_margin) in
      ((check fmt s began rounds).status ≡ status_up) ↔ (
        (k : ℕ) × (k ≤ retries)
        × IsUp fmt s rounds deadline k
        × ((j : ℕ) → j ≤ k → IsReached fmt s rounds deadline j))
unfolding check
check-IsUp fmt s began rounds retries e fits =
    let deadline = began +ℤ wrap64 (s.interval -ℤ deadline_margin) in
    let n = pos_part (wrap64 (s.retries +ℤ pos 1)) in
    let count : n ≡ suc retries =
      ap (λ x. pos_part (wrap64 (x +ℤ pos 1))) e ∙ count_lem retries fits in
    let (f, g) = check_from_iff fmt s rounds deadline n 0 zero_result zero_result-down in
    (
      λ h.
          let (k, low, high, up, reached) = FirstUp-some fmt s rounds deadline n 0 (f h) in
          (k, omega arith, up, λ j to. reached j (omega arith) to),
      λ (k, le, up, reached). g (
          FirstUp-of_some fmt s rounds deadline n 0 k (omega arith) (omega arith) up
            (λ j from to. reached j to)),
    )
