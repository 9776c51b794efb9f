-- ===== src/Checker/Domain.antt =====
-- internal/checker/domain.go. What the registries and the clocks say is a value of `Lookups`; the
-- parsers of URLs, of WHOIS answers and of times are parameters. The state is that of the store, in
-- which the results are cached.
pub mod Conditions
pub mod Laws
pub mod Degraded
pub mod Answers
use Prim.Native.Char.{code}
use Prim.Native.String
use Prim.Native.String.{slice, len}
use domainturva.Prelude.{
  ℕ, ◌+◌, ℤ, pos, ltb_ℤ, leb, eqb, String, ◌==◌, ◌<>◌, Bool, true, false, ◌&&◌, not, ◌>>=◌, Option,
  none, some, List, [], ◌∷◌, Result, ok, err, if◌then◌else◌,
}
use text.Mathlib.Text.{starts_with}
use domainturva.Time.{Time, Duration, zero_time, is_zero_time, sub_time, hours}
use domainturva.Storage.{DomainCache, Storage}
use domainturva.Storage.Memory.{zero_domain_cache}
use domainturva.Config.{Site}
use domainturva.Checker.{CheckResult, check_domain, status_up, status_down, zero_result}
use domainturva.Checker.Days.{days_left}

-- `cache_ttl` is the field `CacheTTL` that `NewDomainChecker` sets.
abbrev pub cache_ttl : Duration
cache_ttl = hours 6

-- An event of an `rdap.Domain`.
pub record DomainEvent : Type 0 where
  pub action : String
  pub date : String

-- `resp.Object`: an `*rdap.Domain` with its events, or something else.
pub data RdapObject : Type 0 where
  domain : List DomainEvent → RdapObject
  other : RdapObject

-- The clock at the start and in `time.Until`, and the answers of the registries to a question.
pub record Lookups : Type 0 where
  pub now : Time
  pub until : Time
  pub rdap : String → Result RdapObject
  pub whois : String → Result String

-- `hostname` is `u.Hostname()` after `url.Parse`; `expiration_date` is `Domain.ExpirationDate` after
-- `whoisparser.Parse`, `none` where `Domain` is nil; `parse_time` is `time.Parse`; `quoted` is `%q`.
pub record Parsers : Type 0 where
  pub hostname : String → Result String
  pub expiration_date : String → Result (Option String)
  pub parse_time : String → String → Option Time
  pub quoted : String → String

-- `strings.TrimPrefix(host, "www.")`
unfoldable pub trim_www : String → String
trim_www host = if starts_with host "www." then slice host 4 (len host) else host

-- `strings.EqualFold` with a text of Latin letters that has neither `k` nor `s`, the two that
-- other characters fold to.
code_points : String → List ℕ
code_points String.[] = []
code_points (String.◌∷◌ c rest) = code c ∷ code_points rest

lower : ℕ → ℕ
lower c = if leb 65 c && leb c 90 then c + 32 else c

same_folded : List ℕ → List ℕ → Bool
same_folded [] [] = true
same_folded (a ∷ xs) (b ∷ ys) = eqb (lower a) (lower b) && same_folded xs ys
same_folded _ _ = false

unfoldable pub equal_fold : String → String → Bool
unfolding code_points lower same_folded
equal_fold s t = same_folded (code_points s) (code_points t)

-- The layouts `time.RFC3339` and those of WHOIS answers.
abbrev pub rfc3339_layout : String
rfc3339_layout = "2006-01-02T15:04:05Z07:00"

abbrev pub whois_layouts : List String
whois_layouts = rfc3339_layout ∷ "2006-01-02T15:04:05Z" ∷ "2006-01-02 15:04:05" ∷ "2006-01-02" ∷ []

module _ (p : Parsers) where
  unfoldable pub registrable_domain : String → Result String
  unfolding trim_www
  registrable_domain raw_url = do
    host ← p.hostname raw_url
    if host == "" then err ("no hostname in url " <> p.quoted raw_url) else ok (trim_www host)

  -- The loop over `d.Events`.
  unfoldable pub expiration_event : List DomainEvent → Result Time
  unfolding equal_fold
  expiration_event [] = err "rdap: no expiration event"
  expiration_event (ev ∷ events) =
      let later = expiration_event events in
      if equal_fold ev.action "expiration"
      then elim (p.parse_time rfc3339_layout ev.date) [ some t ↦ ok t | none ↦ later ]
      else later

  unfoldable pub lookup_rdap : Lookups → String → Result Time
  unfolding expiration_event
  lookup_rdap x query = do
    object ← x.rdap query
    elim object [
      | domain events ↦ expiration_event events
      | other ↦ err "rdap: unexpected response type"
    ]

  -- The loop over the layouts.
  unfoldable pub parse_layouts : String → List String → Result Time
  parse_layouts date [] = err ("whois: unparseable expiration " <> p.quoted date)
  parse_layouts date (layout ∷ layouts) =
      let later = parse_layouts date layouts in
      elim (p.parse_time layout date) [ some t ↦ ok t | none ↦ later ]

  unfoldable pub lookup_whois : Lookups → String → Result Time
  unfolding parse_layouts
  lookup_whois x query = do
    raw ← x.whois query
    parsed ← p.expiration_date raw
    elim parsed [
      | none ↦ err "whois: no expiration date"
      | some date ↦
          if date == "" then err "whois: no expiration date" else parse_layouts date whois_layouts
    ]

  -- RDAP first, WHOIS where it fails; with the source.
  unfoldable pub lookup : Lookups → String → Result (Time × String)
  unfolding lookup_rdap lookup_whois
  lookup x query = elim (lookup_rdap x query) [
    | ok t ↦ ok (t, "rdap")
    | err _ ↦ elim (lookup_whois x query) [
      | ok t ↦ ok (t, "whois")
      | err e ↦ err ("rdap and whois both failed: " <> e)
    ]
  ]

  module _ {S : Type 0} (store : Storage S) where
    -- `cached, ok, _ := …`: the error of the read is dropped, and with it comes the zero value.
    unfoldable pub read_cache : String → S → DomainCache × Bool
    read_cache name s = elim (store.get_domain_cache name s) [
      | ok got ↦ got
      | err _ ↦ (zero_domain_cache, false)
    ]

    -- A cached expiry that is used without a lookup.
    unfoldable pub is_fresh : Time → DomainCache × Bool → Bool
    unfolding sub_time
    is_fresh now got =
        got.1
        && (ltb_ℤ (sub_time now got.0.last_lookup_at) cache_ttl
            && not (is_zero_time got.0.expires_at))

    -- A result with an expiry time.
    unfoldable pub known_result : CheckResult → Time → Time → CheckResult
    unfolding days_left sub_time
    known_result r expiry until = record r {
      status = status_up;
      domain_expiry = expiry;
      days_until_domain_expiry = days_left (sub_time expiry until);
      domain_lookup_ok = true;
    }

    -- The part of `Check` from `c.lookup` on.
    unfoldable pub look_up_again :
        Site → Lookups → String → CheckResult → DomainCache → S → CheckResult × S
    unfolding lookup known_result
    look_up_again site x query r cached s = elim (lookup x query) [
      | err e ↦ (
        record r { status = status_up; domain_lookup_ok = false; error = e },
        (store.upsert_domain_cache
            (record cached { site_name = site.name; last_lookup_at = x.now; error = e }) s).0,
      )
      | ok found ↦ (
        known_result r found.0 x.until,
        (store.upsert_domain_cache
            (record {
              site_name = site.name;
              expires_at = found.0;
              last_lookup_at = x.now;
              last_ok_at = x.now;
              source = found.1;
              error = "";
            })
            s).0,
      )
    ]

    unfoldable pub check : Site → Lookups → S → CheckResult × S
    unfolding registrable_domain read_cache is_fresh known_result look_up_again
    check site x s =
        let r = record zero_result { site_name = site.name; type = check_domain; at = x.now } in
        elim (registrable_domain site.url) [
          | err e ↦ (record r { status = status_down; error = e }, s)
          | ok query ↦
              let got = read_cache site.name s in
              if is_fresh x.now got
              then (known_result r got.0.expires_at x.until, s)
              else look_up_again site x query r got.0 s
        ]
