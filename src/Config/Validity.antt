-- ===== src/Config/Validity.antt =====
-- `Validate` against what a valid configuration is.
use domainturva.Prelude.{
  ℕ, ◌+◌, ℤ, pos, leb_ℤ, ◌<ℤ◌, String, ◌==◌, Bool, ◌&&◌, true, false, not, ◌≡◌, ◌↔◌, refl, sym, ap,
  ◌∙◌, ◌⊎◌, inl, inr, Option, none, some, Option-cases, List, [], ◌∷◌, All, Any, is_empty, Dict,
  if◌then◌else◌, arith, eq_iff, iff_trans, guarded, guard_last,
}
use domainturva.Config.{Site, Notifier, Config}
use domainturva.Config.Names.{
  IsNew, IsDistinct, AreNew, AreNew-iff, AreNew-nil, all_names, known_iff,
}
use domainturva.Config.Validate.{
  Net, ConfigError, Names, seen, stop, bad_listen, has_name, ◌orelse◌, check_site, check_sites,
  check_notifier, check_notifiers, check_group, check_groups, check_days, check_rest, validate,
}
use domainturva.Config.Valid.{IsValidSite, IsValidNotifier, check_site_iff, check_notifier_iff}

abbrev site_name : Site → String
site_name s = s.name

abbrev notifier_name : Notifier → String
notifier_name n = n.name

-- The entries of a list that follow the names seen.
abbrev AreValid : {A : Type 0} → (A → String) → (A → Type 0) → List String → List A → Type 0
AreValid name P names xs = AreNew name names xs × (IsDistinct name xs × All P xs)

AreValid-iff :
    {A : Type 0} (name : A → String) (P : A → Type 0) (names : List String) (x : A) (xs : List A)
    → ((IsNew names (name x) × P x) × AreValid name P (name x ∷ names) xs)
      ↔ AreValid name P names (x ∷ xs)
AreValid-iff name P names x xs =
    let (f, g) = AreNew-iff name names x xs in
    (
      λ ((new, p), (news, (distinct, ps))).
          (((new, (f news).1), ((((f news).0, distinct), (p, ps))))),
      λ ((new, news), ((first, distinct), (p, ps))). ((new, p), (g (first, news), (distinct, ps))),
    )

orelse_iff :
    {P Q : Type 0} (o later : Option ConfigError)
    → (o ≡ none) ↔ P
    → (later ≡ none) ↔ Q
    → ((o orelse later) ≡ none) ↔ (P × Q)
orelse_iff none later (f, g) (h, k) = (λ e. (f refl, h e), λ (p, q). k q)
orelse_iff (some x) later (f, g) (h, k) = (λ e. ground arith, λ (p, q). g p)

swap_iff : {A B C : Type 0} → (A × (B × C)) ↔ (B × (A × C))
swap_iff = (λ (a, (b, c)). (b, (a, c)), λ (b, (a, c)). (a, (b, c)))

check_sites_iff :
    (net : Net) (i : ℕ) (names : List String) (sites : List Site)
    → (check_sites net i names sites ≡ none) ↔ AreValid site_name (IsValidSite net) names sites
unfolding check_sites
check_sites_iff net i names [] = (λ h. (tt, (tt, tt)), λ h. refl)
check_sites_iff net i names (s ∷ sites) =
    iff_trans
      (orelse_iff (check_site net i names s) _ (iff_trans (check_site_iff net i names s) swap_iff)
        (check_sites_iff net (i + 1) (s.name ∷ names) sites))
      (AreValid-iff site_name (IsValidSite net) names s sites)

-- The loop over the notifiers ends with all names, or with an error.
abbrev Checked : List String → List Notifier → Names → Type 0
Checked names notifiers r =
    ((r ≡ seen (all_names notifier_name names notifiers))
      × AreValid notifier_name IsValidNotifier names notifiers)
    ⊎ ((e : ConfigError) × (r ≡ stop e)
        × (AreValid notifier_name IsValidNotifier names notifiers → ⊥))

check_notifiers_lem :
    (i : ℕ) (names : List String) (notifiers : List Notifier)
    → Checked names notifiers (check_notifiers i names notifiers)
unfolding check_notifiers
check_notifiers_lem i names [] = inl (refl, (tt, (tt, tt)))
check_notifiers_lem i names (n ∷ notifiers) =
    let (f, g) = iff_trans (check_notifier_iff i names n) swap_iff in
    let (h, k) = AreValid-iff notifier_name IsValidNotifier names n notifiers in
    elim (Option-cases (check_notifier i names n)) [
      | inl good ↦ elim (check_notifiers_lem (i + 1) (n.name ∷ names) notifiers) [
        | inl (e, v) ↦ rw (good, check_notifiers) (inl (e, h (f good, v)))
        | inr (e, stopped, bad) ↦ rw (good, check_notifiers) (inr (e, stopped, λ v. bad (k v).1))
      ]
      | inr (e, failed) ↦
          rw (failed, check_notifiers) (inr (e, refl, λ v. let none' = g (k v).0 in ground arith))
    ]

-- A recipient of a route is a notifier.
abbrev pub IsKnown : List Notifier → String → Type 0
IsKnown notifiers x = Any (λ n. n.name ≡ x) notifiers

abbrev finally : List Notifier → List String
finally = all_names notifier_name []

not-not_iff : (b : Bool) → (not b ≡ false) ↔ (b ≡ true)
not-not_iff b = ground arith

check_group_iff :
    (notifiers : List Notifier) (group : String) (ns : List String)
    → (check_group (finally notifiers) group ns ≡ none) ↔ All (IsKnown notifiers) ns
unfolding check_group
check_group_iff notifiers group [] = (λ h. tt, λ h. refl)
check_group_iff notifiers group (n ∷ ns) =
    guarded _
      (iff_trans (not-not_iff (has_name (finally notifiers) n))
        (known_iff notifier_name notifiers n))
      (check_group_iff notifiers group ns)

check_groups_iff :
    (notifiers : List Notifier) (groups : Dict (List String))
    → (check_groups (finally notifiers) groups ≡ none)
      ↔ All (λ g. All (IsKnown notifiers) g.1) groups
unfolding check_groups
check_groups_iff notifiers [] = (λ h. tt, λ h. refl)
check_groups_iff notifiers ((k, ns) ∷ groups) =
    orelse_iff (check_group (finally notifiers) k ns) _ (check_group_iff notifiers k ns)
      (check_groups_iff notifiers groups)

positive_iff : (d : ℤ) → (leb_ℤ d (pos 0) ≡ false) ↔ (pos 0 <ℤ d)
positive_iff d = ground arith

check_days_iff :
    (e : ConfigError) (ds : List ℤ) → (check_days e ds ≡ none) ↔ All (λ d. pos 0 <ℤ d) ds
unfolding check_days
check_days_iff e [] = (λ h. tt, λ h. refl)
check_days_iff e (d ∷ ds) = guarded _ (positive_iff d) (check_days_iff e ds)

-- Where there are notifiers, there is a route.
abbrev HasRoute : Config → Type 0
HasRoute c =
    is_empty c.notifiers ≡ false
    → (is_empty c.routing.default ≡ false) ⊎ (is_empty c.routing.per_type ≡ false)

route_iff : (a b n : Bool) → ((a && (b && not n)) ≡ false) ↔ (n ≡ false → (a ≡ false) ⊎ (b ≡ false))
route_iff a b n = ground arith

-- The address to listen on can be split, where there is one.
abbrev CanListen : Net → Config → Type 0
CanListen net c = (c.health_listen ≡ "") ⊎ (net.split_host_port_error c.health_listen ≡ none)

listen_iff :
    (a : String) (o : Option String)
    → ((if a == "" then none else elim o [ some e ↦ some (bad_listen e) | none ↦ none ]) ≡ none)
      ↔ ((a ≡ "") ⊎ (o ≡ none))
listen_iff a none = (λ h. inr refl, λ h. ground arith)
listen_iff a (some e) = ground (arith, eq_iff a "")

abbrev IsValidRest : Net → Config → Type 0
IsValidRest net c =
    All (IsKnown c.notifiers) c.routing.default
    × (All (λ g. All (IsKnown c.notifiers) g.1) c.routing.per_type
        × (HasRoute c
            × (All (λ d. pos 0 <ℤ d) c.ssl_warn_days
                × (All (λ d. pos 0 <ℤ d) c.domain_warn_days × CanListen net c))))

check_rest_iff :
    (net : Net) (c : Config) → (check_rest net (finally c.notifiers) c ≡ none) ↔ IsValidRest net c
unfolding check_rest
check_rest_iff net c = orelse_iff _ _ (check_group_iff c.notifiers "default" c.routing.default) (
    orelse_iff _ _ (check_groups_iff c.notifiers c.routing.per_type) (
      orelse_iff _ _ (guard_last _ (route_iff _ _ _)) (
        orelse_iff _ _ (check_days_iff _ c.ssl_warn_days) (
          orelse_iff _ _ (check_days_iff _ c.domain_warn_days)
            (listen_iff c.health_listen (net.split_host_port_error c.health_listen))))))

-- There are sites, each valid; there may be notifiers, each valid; no name stands twice in either
-- list; what follows the notifiers is right too.
abbrev pub IsValid : Net → Config → Type 0
IsValid net c =
    (is_empty c.sites ≡ false)
    × ((IsDistinct site_name c.sites × All (IsValidSite net) c.sites)
        × ((IsDistinct notifier_name c.notifiers × All IsValidNotifier c.notifiers)
            × IsValidRest net c))

new_iff :
    {A : Type 0} (name : A → String) (P : A → Type 0) (xs : List A)
    → AreValid name P [] xs ↔ (IsDistinct name xs × All P xs)
new_iff name P xs = (λ (n, h). h, λ h. (AreNew-nil name xs, h))

rest_iff :
    (net : Net) (c : Config) (r : Names)
    → Checked [] c.notifiers r
    → ((elim r [ stop e ↦ some e | seen names ↦ check_rest net names c ]) ≡ none) ↔ (
        (IsDistinct notifier_name c.notifiers × All IsValidNotifier c.notifiers)
        × IsValidRest net c)
rest_iff net c (seen names) (inl (e, v)) =
    let same : names ≡ finally c.notifiers = ground arith in
    let (f, g) = check_rest_iff net c in
    (
      λ h. (v.1, f (ap (λ ns. check_rest net ns c) (sym same) ∙ h)),
      λ (w, r). ap (λ ns. check_rest net ns c) same ∙ g r,
    )
rest_iff net c (seen names) (inr (e, s, bad)) = absurd (ground arith)
rest_iff net c (stop x) (inl (e, v)) = absurd (ground arith)
rest_iff net c (stop x) (inr (e, s, bad)) =
    (λ h. ground arith, λ (w, r). absurd (bad (AreNew-nil notifier_name c.notifiers, w)))

-- Validate accepts exactly the valid configurations: there are sites, with distinct names that are
-- not empty, parsed http or https URLs with a host, intervals and timeouts of at least a second,
-- no negative retries, and https where SSL is checked; the notifiers have distinct names that are
-- not empty and are complete for a known type; every route names a notifier; where there are
-- notifiers there is a route; the warning days are positive; and the address to listen on, if any,
-- can be split.
pub validate-IsValid : (net : Net) (c : Config) → (validate net c ≡ none) ↔ IsValid net c
unfolding validate
validate-IsValid net c =
    guarded _ (λ h. h, λ h. h)
      (orelse_iff _ _
        (iff_trans (check_sites_iff net 0 [] c.sites) (new_iff site_name (IsValidSite net) c.sites))
        (rest_iff net c _ (check_notifiers_lem 0 [] c.notifiers)))
