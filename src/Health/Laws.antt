-- ===== src/Health/Laws.antt =====
-- When `/healthz` calls the checks stale, over a lawful store.
use domainturva.Prelude.{
  String, All-Any, ℕ, ◌^◌, pos, ltb_ℤ, max_int64, ◌+ℤ◌, eq_of_parts, subst, ◌≤ℤ◌, ◌<ℤ◌, Bool, true,
  false, ◌≡◌, ◌∙◌, ◌↔◌, refl, sym, ap, ◌⊎◌, inl, inr, Option, none, some, Option-cases, iff_trans,
  Any-map, ◌≢◌, Bool-cases, List, [], ◌∷◌, All, Any, if◌then◌else◌, arith,
}
use domainturva.Time.{Time, Duration, zero_time, is_zero_time, sub_time, after, seconds}
use domainturva.Storage.{SiteState, Storage}
use domainturva.Storage.Lawful.{Lawful}
use domainturva.Config.{Site, Config}
use domainturva.Health.{later_check, latest_check, is_stale, handle_healthz}
use domainturva.Health.Threshold.{HasInterval, IsLongest, longest-range, stale_threshold_lem}

module _ {S : Type 0} (store : Storage S) (law : Lawful store) (s : S) where
  -- The check of a site is stored, at this time.
  abbrev pub IsChecked : Site → Time → Type 0
  IsChecked site t =
      (st : SiteState) × (law.state_of s site.name ≡ some st) × (st.last_check_at ≡ t)

  -- `m` is the latest of `m0` and the stored checks.
  abbrev IsLatest : Time → List Site → Time → Type 0
  IsLatest m0 sites m =
      (m0 ≤ℤ m)
      × (All (λ x. (t : Time) → IsChecked x t → t ≤ℤ m) sites
          × ((m ≡ m0) ⊎ Any (λ x. IsChecked x m) sites))

  later : Option SiteState → Time → Time
  later none latest = latest
  later (some st) latest = if after st.last_check_at latest then st.last_check_at else latest

  later_check_lem :
      (latest : Time) (site : Site)
      → later_check store s latest site ≡ later (law.state_of s site.name) latest
  unfolding later_check later
  later_check_lem latest site = elim (Option-cases (law.state_of s site.name)) [
    | inl missing ↦ rw (law.get_state site.name s, missing, later_check) refl
    | inr (st, found) ↦ rw (law.get_state site.name s, found, later_check) refl
  ]

  -- The latest of `latest` and the check of one site.
  abbrev IsLater : Time → Site → Time → Type 0
  IsLater latest site x =
      (latest ≤ℤ x) × (((t : Time) → IsChecked site t → t ≤ℤ x) × ((x ≡ latest) ⊎ IsChecked site x))

  same_check :
      (site : Site) (x : Time) (st : SiteState) (t : Time)
      → law.state_of s site.name ≡ some st
      → IsChecked site t
      → st.last_check_at ≤ℤ x
      → t ≤ℤ x
  same_check site x st t e (st', found, at) h =
      let same : st ≡ st' = ground arith in
      subst (λ u. u ≤ℤ x) (ap (λ y. y.last_check_at) same ∙ at) h

  later-IsLater :
      (site : Site) (o : Option SiteState) (latest : Time)
      → law.state_of s site.name ≡ o
      → IsLater latest site (later o latest)
  unfolding later
  later-IsLater site none latest e =
      (omega arith, (λ t (st, found, at). absurd (ground arith), inl refl))
  later-IsLater site (some st) latest e = elim (Bool-cases (after st.last_check_at latest)) [
    | inl t ↦
        rw t (ground arith, (λ u c. same_check site _ st u e c (omega arith), inr (st, e, refl)))
    | inr f ↦ rw f (omega arith, (λ u c. same_check site _ st u e c (ground arith), inl refl))
  ]

  IsLatest-step :
      (latest l x : Time) (site : Site) (sites : List Site)
      → IsLater latest site l
      → IsLatest l sites x
      → IsLatest latest (site ∷ sites) x
  IsLatest-step latest l x site sites (low, (up, which)) (low', (ups, which')) = (
    ground arith,
    (
      (λ t c. let h = up t c in ground arith, ups),
      elim which' [
        | inr k ↦ inr (inr k)
        | inl e ↦ elim which [
          | inl e' ↦ inl (e ∙ e')
          | inr c ↦ inr (inl (subst (IsChecked site) (sym e) c))
        ]
      ],
    ),
  )

  latest_check_lem :
      (latest : Time) (sites : List Site)
      → IsLatest latest sites (latest_check store s latest sites)
  unfolding latest_check
  latest_check_lem latest [] = (omega arith, (tt, inl refl))
  latest_check_lem latest (site ∷ sites) =
      let l = later_check store s latest site in
      IsLatest-step latest l _ site sites
        (subst (IsLater latest site) (sym (later_check_lem latest site))
          (later-IsLater site (law.state_of s site.name) latest refl))
        (latest_check_lem (later_check store s latest site) sites)

-- When the checks are fresh, with `limit` for twice the longest interval: some site has a stored
-- check that is later than the zero time and at most `limit` old, or no site has one and the server
-- has run for at most `limit`.
module _ {S : Type 0} (store : Storage S) (law : Lawful store) (sites : List Site)
    (now started : Time) (limit : Duration) (s : S) where
  abbrev pub HasRecent : Type 0
  HasRecent =
      Any (λ x. (t : Time) × IsChecked store law s x t × (zero_time <ℤ t) × (now ≤ℤ t +ℤ limit))
        sites

  abbrev pub IsStarting : Type 0
  IsStarting =
      All (λ x. (t : Time) → IsChecked store law s x t → t ≤ℤ zero_time) sites
      × (now ≤ℤ started +ℤ limit)

  abbrev pub IsFresh : Type 0
  IsFresh = HasRecent ⊎ IsStarting

  age_iff :
      (u : Time)
      → pos 0 ≤ℤ limit
      → limit <ℤ max_int64
      → (ltb_ℤ limit (sub_time now u) ≡ false) ↔ (now ≤ℤ u +ℤ limit)
  unfolding sub_time ◌+ℤ◌
  age_iff u h k = ground arith

  grow : (t l : Time) → t ≤ℤ l → now ≤ℤ t +ℤ limit → now ≤ℤ l +ℤ limit
  unfolding ◌+ℤ◌
  grow t l h k = ground arith

  zero_iff : (l : Time) → (is_zero_time l ≡ true) ↔ (l ≡ zero_time)
  zero_iff l = ground (arith, eq_of_parts l zero_time)

  -- No check is later than the zero time.
  never_iff :
      (l : Time)
      → IsLatest store law s zero_time sites l
      → l ≡ zero_time
      → IsFresh ↔ (now ≤ℤ started +ℤ limit)
  never_iff l (low, (up, which)) z =
      let none_late : All (λ x. (t : Time) → IsChecked store law s x t → t ≤ℤ zero_time) sites =
        subst (λ m. All (λ x. (t : Time) → IsChecked store law s x t → t ≤ℤ m) sites) z up in
      (
        λ fresh. elim fresh [
          | inl recent ↦
              let (x, bound, (t, c, late, young)) = All-Any _ _ sites none_late recent in
              let le = bound t c in absurd (ground arith)
          | inr (never, young) ↦ young
        ],
        λ young. inr (none_late, young),
      )

  -- Some check is.
  some_iff :
      (l : Time)
      → IsLatest store law s zero_time sites l
      → l ≢ zero_time
      → IsFresh ↔ (now ≤ℤ l +ℤ limit)
  some_iff l (low, (up, which)) nz = elim which [
    | inl z ↦ absurd (nz z)
    | inr at ↦
        let late : zero_time <ℤ l = ground (arith, eq_of_parts l zero_time) in
        (
          λ fresh. elim fresh [
            | inl recent ↦
                let (x, bound, (t, c, after_zero, young)) = All-Any _ _ sites up recent in
                grow t l (bound t c) young
            | inr (never, young) ↦
                let (x, bound, c) = All-Any _ (λ x. IsChecked store law s x l) sites never at in
                let le = bound l c in absurd (ground arith)
          ],
          λ young. inl (Any-map _ _ (λ x c. (l, c, late, young)) sites at),
        )
  ]

  stale_iff :
      (l : Time)
      → IsLatest store law s zero_time sites l
      → pos 0 ≤ℤ limit
      → limit <ℤ max_int64
      → (is_stale now started l limit ≡ false) ↔ IsFresh
  unfolding is_stale
  stale_iff l latest h k = elim (Bool-cases (is_zero_time l)) [
    | inl z ↦
        let (f, g) = never_iff l latest ((zero_iff l).0 z) in
        rw z (iff_trans (age_iff started h k) (g, f))
    | inr nz ↦
        let (f, g) = some_iff l latest (λ z. let zero = (zero_iff l).1 z in ground arith) in
        rw nz (iff_trans (age_iff l h k) (g, f))
  ]

code_iff : (b : Bool) → (◌≡◌ {A = ℕ} (if b then 503 else 200) 200) ↔ (b ≡ false)
code_iff b = ground arith

limit-range :
    (m : Duration) → seconds 1 ≤ℤ m → m ≤ℤ pos (2 ^ 61) → (pos 0 ≤ℤ m +ℤ m) × (m +ℤ m <ℤ max_int64)
unfolding ◌+ℤ◌
limit-range m low high = ground arith

-- Over a lawful store, for sites with intervals from 1 second to 2 ^ 61 nanoseconds of which m is
-- the longest, /healthz answers 200 exactly when some site has a stored check that is later than
-- the zero time and at most 2 * m old, or no site has one and the server has run for at most 2 *
-- m. The stored check may be of any kind and from before the start of the server, which then has
-- no grace.
pub handle_healthz-IsFresh :
    {S : Type 0} (store : Storage S) (law : Lawful store) (version : String) (c : Config)
    (now started : Time) (s : S) (m : Duration)
    → All HasInterval c.sites
    → IsLongest c.sites m
    → ((handle_healthz store version c now started s).code ≡ 200)
      ↔ IsFresh store law c.sites now started (m +ℤ m) s
unfolding handle_healthz
handle_healthz-IsFresh store law version c now started s m h longest =
    let (low, high) = longest-range c.sites m h longest in
    let (from, to) = limit-range m low high in
    rw (stale_threshold_lem c.sites m h longest) (
      iff_trans (code_iff _) (
        stale_iff store law c.sites now started (m +ℤ m) s _
          (latest_check_lem store law s zero_time c.sites) from to))
