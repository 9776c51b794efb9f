-- ===== src/Main/Routes.antt =====
-- In a valid configuration each recipient of an alert has its notifier.
use domainturva.Prelude.{
  String, ◌==◌, ==-eq-true, ◌≡◌, refl, inl, inr, Bool-cases, Option-cases, Option, some, none, List,
  [], ◌∷◌, map, All, All-map, subst, Dict, lookup, insert, lookup-insert, lookup-insert_self, arith,
}
use domainturva.Notifier.{Alert}
use domainturva.Notifier.Backend.{Backend, name, slack, smtp, new_slack, new_smtp}
use domainturva.Notifier.Dispatcher.{dispatch}
use domainturva.Storage.{AlertRecord}
use domainturva.Config.{Notifier, Config, notifier_slack, notifier_smtp, notifiers_for}
use domainturva.Config.Validate.{Net, validate}
use domainturva.Config.Valid.{IsValidNotifier, IsComplete}
use domainturva.Config.Validity.{IsKnown, validate-IsValid}
use domainturva.Main.{add_notifier, add_notifiers, build_notifiers}

-- There is a notifier of this name under this name.
abbrev Has : Dict Backend → String → Type 0
Has out x = (b : Backend) × (lookup x out ≡ some b) × (name b ≡ x)

insert-Has_self : (out : Dict Backend) (b : Backend) → Has (insert (name b) b out) (name b)
insert-Has_self out b = (b, lookup-insert_self (name b) b out, refl)

insert-Has :
    (out : Dict Backend) (b : Backend) (x : String) → Has out x → Has (insert (name b) b out) x
insert-Has out b x (b', found, e) = elim (Bool-cases (name b == x)) [
  | inl t ↦ (b, rw (lookup-insert (name b) x b out, t) refl, ==-eq-true _ _ t)
  | inr f ↦ (b', rw (lookup-insert (name b) x b out, f) found, e)
]

add_notifier-Has :
    (out : Dict Backend) (n : Notifier) (x : String) → Has out x → Has (add_notifier out n) x
unfolding add_notifier name
add_notifier-Has out n x h = elim (Bool-cases (n.type == notifier_slack)) [
  | inl t ↦ rw t (insert-Has out (slack (new_slack n.name n.webhook)) x h)
  | inr f ↦ elim (Bool-cases (n.type == notifier_smtp)) [
    | inl t ↦
        rw (f, t)
          (insert-Has out (smtp (new_smtp n.name n.host n.port n.username n.password n.from n.to)) x
            h)
    | inr g ↦ rw (f, g) h
  ]
]

add_notifier-Has_self :
    (out : Dict Backend) (n : Notifier) → IsComplete n → Has (add_notifier out n) n.name
unfolding add_notifier name new_slack new_smtp
add_notifier-Has_self out n (inl (t, h)) =
    rw t (insert-Has_self out (slack (new_slack n.name n.webhook)))
add_notifier-Has_self out n (inr (t, host, port, from, to)) =
    rw t
      (insert-Has_self out (smtp (new_smtp n.name n.host n.port n.username n.password n.from n.to)))

add_notifiers-Has :
    (out : Dict Backend) (ns : List Notifier) (x : String)
    → Has out x
    → Has (add_notifiers out ns) x
unfolding add_notifiers
add_notifiers-Has out [] x h = h
add_notifiers-Has out (n ∷ ns) x h =
    add_notifiers-Has (add_notifier out n) ns x (add_notifier-Has out n x h)

add_notifiers-IsKnown :
    (out : Dict Backend) (ns : List Notifier) (x : String)
    → All IsValidNotifier ns
    → IsKnown ns x
    → Has (add_notifiers out ns) x
unfolding add_notifiers
add_notifiers-IsKnown out [] x valid known = absurd known
add_notifiers-IsKnown out (n ∷ ns) x ((named, complete), valid) (inl e) =
    add_notifiers-Has (add_notifier out n) ns x
      (subst (Has (add_notifier out n)) e (add_notifier-Has_self out n complete))
add_notifiers-IsKnown out (n ∷ ns) x (first, valid) (inr known) =
    add_notifiers-IsKnown (add_notifier out n) ns x valid known

-- One goroutine for each recipient.
dispatch-name :
    (notifiers : Dict Backend) (a : Alert) (names : List String) (extra : AlertRecord)
    → All (Has notifiers) names
    → map (λ x. name x.notifier) (dispatch notifiers a names extra) ≡ names
unfolding dispatch
dispatch-name notifiers a [] extra h = refl
dispatch-name notifiers a (n ∷ names) extra ((b, found, e), h) =
    rw (found, dispatch) (cc (e, dispatch-name notifiers a names extra h))

lookup-All :
    (P : List String → Type 0) (k : String) (d : Dict (List String)) {v : List String}
    → All (λ g. P g.1) d
    → lookup k d ≡ some v
    → P v
unfolding lookup
lookup-All P k [] h found = absurd (ground arith)
lookup-All P k (g ∷ d) {v} (p, h) found = elim (Bool-cases (g.0 == k)) [
  | inl t ↦
      (let e : ◌≡◌ {A = Option (List String)} (some g.1) (some v) = rw t at found in
        subst P (ground arith) p)
  | inr f ↦ lookup-All P k d h (rw f at found)
]

notifiers_for-All :
    (P : String → Type 0) (c : Config) (type : String)
    → All P c.routing.default
    → All (λ g. All P g.1) c.routing.per_type
    → All P (notifiers_for c.routing type)
unfolding notifiers_for
notifiers_for-All P c type h k = elim (Option-cases (lookup type c.routing.per_type)) [
  | inl missing ↦ rw (missing, notifiers_for) h
  | inr (v, found) ↦ rw (found, notifiers_for) (lookup-All (All P) type c.routing.per_type k found)
]

-- In a configuration that Validate accepts, an alert of any type starts one goroutine for each
-- recipient that its route names, in that order, with the notifier of that name that
-- buildNotifiers made.
pub dispatch-IsValid :
    (net : Net) (c : Config) (type : String) (a : Alert) (extra : AlertRecord)
    → validate net c ≡ none
    → map
        (λ x. name x.notifier)
        (dispatch (build_notifiers c.notifiers) a (notifiers_for c.routing type) extra)
      ≡ notifiers_for c.routing type
unfolding build_notifiers
dispatch-IsValid net c type a extra ok =
    let (sites, (valid_sites, ((distinct, valid), (default, (per_type, rest))))) =
      (validate-IsValid net c).0 ok in
    let known = notifiers_for-All (IsKnown c.notifiers) c type default per_type in
    dispatch-name (build_notifiers c.notifiers) a (notifiers_for c.routing type) extra (
      All-map _ _ (λ x k. add_notifiers-IsKnown [] c.notifiers x valid k)
        (notifiers_for c.routing type) known)
