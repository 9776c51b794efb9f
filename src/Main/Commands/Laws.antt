-- ===== src/Main/Commands/Laws.antt =====
-- When `check` ends with status 0, and which site it has then checked.
use domainturva.Prelude.{
  String, ◌==◌, eq_iff, ==-eq-true, ==-eq-false, ◌≡◌, refl, sym, ◌∙◌, ap, ◌↔◌, ◌⊎◌, inl, inr, true,
  false, Option, none, some, List, [], ◌∷◌, Any, All-Any, Bool-cases, arith,
}
use domainturva.Checker.{status_up}
use domainturva.Config.{Site, Config}
use domainturva.Config.Names.{IsDistinct}
use domainturva.Config.Load.{World, Loaded, loaded, load_failed, load}
use domainturva.Config.Load.Laws.{IsLoaded, load-IsLoaded}
use domainturva.Main.Flags.{CommonFlags, Parsed, parsed, exits, parse_common}
use domainturva.Main.Commands.{
  Exit, Checkers, find_site, check_once, after_find, check_named, after_load, after_parse,
  check_cmd,
}

abbrev site_name : Site → String
site_name s = s.name

find_site-Any :
    (name : String) (sites : List Site) (site : Site)
    → find_site name sites ≡ some site
    → Any (λ s. s ≡ site) sites × (site.name ≡ name)
unfolding find_site
find_site-Any name [] site h = cc
find_site-Any name (s ∷ sites) site h = elim (Bool-cases (s.name == name)) [
  | inl t ↦
      let same : s ≡ site = cc (rw t at h) in (inl same, ap site_name (sym same) ∙ ==-eq-true _ _ t)
  | inr f ↦ let (m, n) = find_site-Any name sites site (rw f at h) in (inr m, n)
]

find_site_of_Any :
    (name : String) (sites : List Site) (site : Site)
    → IsDistinct site_name sites
    → Any (λ s. s ≡ site) sites
    → site.name ≡ name
    → find_site name sites ≡ some site
unfolding find_site
find_site_of_Any name [] site d h n = absurd h
find_site_of_Any name (s ∷ sites) site (new, d) (inl same) n =
    let t : (s.name == name) ≡ true = (eq_iff s.name name).1 (ap site_name same ∙ n) in
    rw t (ap some same)
find_site_of_Any name (s ∷ sites) site (new, d) (inr h) n =
    let (x, ne, same) = All-Any _ _ sites new h in
    let f : (s.name == name) ≡ false =
      ==-eq-false s.name name (λ e. ne (e ∙ sym n ∙ ap site_name (sym same))) in
    rw f (find_site_of_Any name sites site d h n)

-- The check of a site that was asked for by name, in a configuration that loads.
pub record IsChecked (w : World) (checkers : Checkers) (args : List String) : Type 0 where
  pub flags : CommonFlags
  pub name : String
  pub rest : List String
  pub config : Config
  pub site : Site
  pub was_parsed : parse_common args ≡ parsed flags (name ∷ rest)
  pub was_loaded : IsLoaded w flags.config_path config
  pub is_listed : Any (λ s. s ≡ site) config.sites
  pub is_named : site.name ≡ name
  pub is_up : (checkers.http site).status ≡ status_up

check_once_iff :
    (checkers : Checkers) (site : Site)
    → ((check_once checkers site).status ≡ 0) ↔ ((checkers.http site).status ≡ status_up)
unfolding check_once
check_once_iff checkers site = ground (arith, eq_iff (checkers.http site).status status_up)

after_find-eq :
    (checkers : Checkers) (o : Option Site)
    → (after_find checkers o).status ≡ 0
    → (site : Site) × (o ≡ some site) × ((checkers.http site).status ≡ status_up)
after_find-eq checkers none h = absurd (omega arith)
after_find-eq checkers (some site) h = (site, refl, (check_once_iff checkers site).0 h)

after_load-eq :
    (l : Loaded) (rest : Config → Exit)
    → (after_load l rest).status ≡ 0
    → (c : Config) × (l ≡ loaded c) × ((rest c).status ≡ 0)
after_load-eq (load_failed e) rest h = absurd (omega arith)
after_load-eq (loaded c) rest h = (c, refl, h)

check_named-eq :
    (l : String → Loaded) (checkers : Checkers) (flags : CommonFlags) (args : List String)
    → (check_named l checkers flags args).status ≡ 0
    → (name : String) × (rest : List String) × (c : Config) × (site : Site) × (args ≡ name ∷ rest)
      × (l flags.config_path ≡ loaded c)
      × (find_site name c.sites ≡ some site)
      × ((checkers.http site).status ≡ status_up)
check_named-eq l checkers flags [] h = absurd (omega arith)
check_named-eq l checkers flags (name ∷ rest) h =
    let (c, was_loaded, h') = after_load-eq (l flags.config_path) _ h in
    let (site, found, up) = after_find-eq checkers (find_site name c.sites) h' in
    (name, rest, c, site, refl, was_loaded, found, up)

after_parse-eq :
    (p : Parsed) (rest : CommonFlags → List String → Exit)
    → (after_parse p rest).status ≡ 0
    → (p ≡ exits 0)
      ⊎ ((flags : CommonFlags) × (args : List String) × (p ≡ parsed flags args)
          × ((rest flags args).status ≡ 0))
after_parse-eq (exits status) rest h = inl (ap exits h)
after_parse-eq (parsed flags args) rest h = inr (flags, args, refl, h)

-- `check` ends with status 0 exactly where its flags ask for help, or where they parse and leave a
-- name, the configuration that they choose loads and lists a site of that name, and the HTTP check
-- of that site is up.
pub check_cmd-IsChecked :
    (w : World) (checkers : Checkers) (args : List String)
    → ((check_cmd (load w) checkers args).status ≡ 0)
      ↔ ((parse_common args ≡ exits 0) ⊎ IsChecked w checkers args)
unfolding check_cmd
check_cmd-IsChecked w checkers args = (
  λ h. elim (after_parse-eq (parse_common args) _ h) [
    | inl help ↦ inl help
    | inr (flags, rest, was_parsed, h') ↦
        let (name, rest', c, site, e, was_loaded, found, up) =
          check_named-eq (load w) checkers flags rest h' in
        let (listed, named) = find_site-Any name c.sites site found in
        inr (record {
          flags = flags;
          name = name;
          rest = rest';
          config = c;
          site = site;
          was_parsed = was_parsed ∙ ap (parsed flags) e;
          was_loaded = (load-IsLoaded w flags.config_path c).0 was_loaded;
          is_listed = listed;
          is_named = named;
          is_up = up;
        })
  ],
  λ h. elim h [
    | inl help ↦ rw help
    | inr k ↦
        let distinct = k.was_loaded.is_valid.1.0.0 in
        rw
          (
            k.was_parsed,
            (load-IsLoaded w k.flags.config_path k.config).1 k.was_loaded,
            find_site_of_Any k.name k.config.sites k.site distinct k.is_listed k.is_named,
          )
          ((check_once_iff checkers k.site).1 k.is_up)
  ],
)
