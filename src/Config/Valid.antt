-- ===== src/Config/Valid.antt =====
-- What a valid configuration is, without the order of the checks, and the checks of one site and of
-- one notifier against it.
use domainturva.Prelude.{
  ℕ, ℤ, pos, eqb_ℤ, ltb_ℤ, ◌≤ℤ◌, String, ◌==◌, Bool, ◌&&◌, ◌||◌, not, true, false, ◌≡◌, ◌≢◌, ◌↔◌,
  refl, sym, subst, ◌⊎◌, inl, inr, Option, none, some, List, is_empty, arith, eq_iff, Bool-cases,
  ==-eq-true, eqb_ℤ_iff, iff_trans, iff_and, guarded, guard_last, ==_false_iff, or_false_iff,
}
use domainturva.Time.{seconds}
use domainturva.Config.{Site, Notifier, notifier_slack, notifier_smtp}
use domainturva.Config.Names.{IsNew, IsNew-iff}
use domainturva.Config.Validate.{
  Url, Net, ConfigError, check_url, check_site, check_type, check_notifier,
}

abbrev pub IsValidUrl : Site → Url → Type 0
IsValidUrl s u =
    ((u.scheme ≢ "") × (u.host ≢ ""))
    × (((u.scheme ≡ "http") ⊎ (u.scheme ≡ "https"))
        × ((seconds 1 ≤ℤ s.interval)
            × ((seconds 1 ≤ℤ s.timeout)
                × ((pos 0 ≤ℤ s.retries) × (s.check_ssl ≡ true → u.scheme ≡ "https")))))

abbrev pub IsValidSite : Net → Site → Type 0
IsValidSite net s = (s.name ≢ "") × ((u : Url) × (net.parse_url s.url ≡ some u) × IsValidUrl s u)

-- Slack needs its webhook; SMTP its host, port, sender and a recipient.
abbrev pub IsComplete : Notifier → Type 0
IsComplete n =
    ((n.type ≡ notifier_slack) × (n.webhook ≢ ""))
    ⊎ ((n.type ≡ notifier_smtp)
        × (n.host ≢ "")
        × (n.port ≢ pos 0)
        × (n.from ≢ "")
        × (is_empty n.to ≡ false))

abbrev pub IsValidNotifier : Notifier → Type 0
IsValidNotifier n = (n.name ≢ "") × IsComplete n

slack_not_smtp : ◌≢◌ {A = String} notifier_slack notifier_smtp
slack_not_smtp h = ground (arith, eq_iff notifier_slack notifier_smtp)

scheme_iff :
    (s : String)
    → ((not (s == "http") && not (s == "https")) ≡ false) ↔ ((s ≡ "http") ⊎ (s ≡ "https"))
scheme_iff s = ground (arith, eq_iff s "http", eq_iff s "https")

at_least_iff : (a b : ℤ) → (ltb_ℤ a b ≡ false) ↔ (b ≤ℤ a)
at_least_iff a b = ground arith

ssl_iff : (b : Bool) (s : String) → ((b && not (s == "https")) ≡ false) ↔ (b ≡ true → s ≡ "https")
ssl_iff b s = ground (arith, eq_iff s "https")

check_url_iff : (net : Net) (s : Site) (u : Url) → (check_url net s u ≡ none) ↔ IsValidUrl s u
unfolding check_url
check_url_iff net s u =
    guarded _
      (iff_trans (or_false_iff (u.scheme == "") (u.host == ""))
        (iff_and (==_false_iff u.scheme "") (==_false_iff u.host "")))
      (guarded _ (scheme_iff u.scheme) (
        guarded _ (at_least_iff s.interval (seconds 1)) (
          guarded _ (at_least_iff s.timeout (seconds 1)) (
            guarded _ (at_least_iff s.retries (pos 0))
              (guard_last _ (ssl_iff s.check_ssl u.scheme))))))

some_inj : {A : Type 0} {a b : A} → ◌≡◌ {A = Option A} (some a) (some b) → a ≡ b
some_inj h = ground arith

parsed_iff :
    (net : Net) (s : Site) (o : Option Url) (e : ConfigError)
    → ((elim o [ none ↦ some e | some u ↦ check_url net s u ]) ≡ none)
      ↔ ((u : Url) × (o ≡ some u) × IsValidUrl s u)
parsed_iff net s none e = (λ h. ground arith, λ (u, h, v). ground arith)
parsed_iff net s (some u) e =
    let (f, g) = check_url_iff net s u in
    (λ h. (u, refl, f h), λ (u', h, v). g (subst (IsValidUrl s) (sym (some_inj h)) v))

-- A site's checks, given the names before it.
pub check_site_iff :
    (net : Net) (i : ℕ) (names : List String) (s : Site)
    → (check_site net i names s ≡ none) ↔ (
        (s.name ≢ "")
        × (IsNew names s.name × ((u : Url) × (net.parse_url s.url ≡ some u) × IsValidUrl s u)))
unfolding check_site
check_site_iff net i names s =
    guarded _ (==_false_iff s.name "")
      (guarded _ (IsNew-iff names s.name) (parsed_iff net s (net.parse_url s.url) _))

slack_iff : (n : Notifier) → n.type ≡ notifier_slack → ((n.webhook == "") ≡ false) ↔ IsComplete n
slack_iff n slack = ground (arith, eq_iff n.webhook "", eq_iff n.type notifier_smtp, slack_not_smtp)

smtp_iff :
    (n : Notifier)
    → n.type ≡ notifier_smtp
    → ((n.host == "" || (eqb_ℤ n.port (pos 0) || (n.from == "" || is_empty n.to))) ≡ false)
      ↔ IsComplete n
smtp_iff n smtp =
    ground (arith, eq_iff n.host "", eq_iff n.from "", eqb_ℤ_iff n.port (pos 0), slack_not_smtp)

type_iff : (n : Notifier) → (check_type n ≡ none) ↔ IsComplete n
unfolding check_type
type_iff n = elim (Bool-cases (n.type == notifier_slack)) [
  | inl slack ↦ rw slack (guard_last _ (slack_iff n (==-eq-true _ _ slack)))
  | inr not_slack ↦ rw not_slack (elim (Bool-cases (n.type == notifier_smtp)) [
    | inl smtp ↦ rw smtp (guard_last _ (smtp_iff n (==-eq-true _ _ smtp)))
    | inr not_smtp ↦ rw not_smtp (
      λ h. ground arith,
      λ h. ground (arith, eq_iff n.type notifier_slack, eq_iff n.type notifier_smtp),
    )
  ])
]

pub check_notifier_iff :
    (i : ℕ) (names : List String) (n : Notifier)
    → (check_notifier i names n ≡ none) ↔ ((n.name ≢ "") × (IsNew names n.name × IsComplete n))
unfolding check_notifier
check_notifier_iff i names n =
    guarded _ (==_false_iff n.name "") (guarded _ (IsNew-iff names n.name) (type_iff n))
