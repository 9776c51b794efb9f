-- ===== src/Alerting/Expiry/Search.antt =====
-- What the searches of the alert log by `decideSSL` and `decideDomain` come to, for any lawful
-- store.
use domainturva.Prelude.{
  ℤ, ◌≤ℤ◌, String, eq_iff, ◌≡◌, refl, sym, subst, ◌∙◌, ◌↔◌, ◌⊎◌, inl, inr, Bool, true, false, ◌&&◌,
  not, List, [], ◌∷◌, any, is_empty, Any, Any-map, any-Any, Any-any, eqb_ℤ_iff, ok, arith,
  Bool-cases, false≢true,
}
use domainturva.Time.{Time}
use domainturva.Storage.{AlertRecord, Storage}
use domainturva.Storage.Memory.{is_recent}
use domainturva.Storage.Lawful.{Lawful}
use domainturva.Alerting.Expiry.{is_duplicate}

-- A record of this site and type that is not older than `since`.
abbrev pub IsRecent : String → String → Time → AlertRecord → Type 0
IsRecent n type since a = (a.site_name ≡ n) × (a.alert_type ≡ type) × (since ≤ℤ a.sent_at)

-- Such a record that says that this threshold was sent for this key.
abbrev pub IsSent : String → String → Time → ℤ → String → AlertRecord → Type 0
IsSent n type since threshold key a =
    IsRecent n type since a
    × (a.threshold ≡ threshold)
    × (a.cert_serial ≡ key)
    × (a.status ≡ "sent")

pub is_recent_iff :
    (n type : String) (since : Time) (a : AlertRecord)
    → ((is_recent n type since a && true) ≡ true) ↔ IsRecent n type since a
is_recent_iff n type since a = ground (arith, eq_iff a.site_name n, eq_iff a.alert_type type)

pub IsSent-iff :
    (n type : String) (since : Time) (threshold : ℤ) (key : String) (a : AlertRecord)
    → ((is_recent n type since a && is_duplicate threshold key a) ≡ true)
      ↔ IsSent n type since threshold key a
IsSent-iff n type since threshold key a = ground (
  arith,
  eq_iff a.site_name n,
  eq_iff a.alert_type type,
  eqb_ℤ_iff a.threshold threshold,
  eq_iff a.cert_serial key,
  eq_iff a.status "sent",
)

is_empty-any : (xs : List AlertRecord) → is_empty xs ≡ not (any (λ a. true) xs)
is_empty-any [] = refl
is_empty-any (x ∷ xs) = refl

pub false_of_not : (b : Bool) → not b ≡ true → b ≡ false
false_of_not b h = ground arith

pub true_of_not : (b : Bool) → not b ≡ false → b ≡ true
true_of_not b h = ground arith

-- The outcome of a search: `b` says whether the log has a record that satisfies `P`.
abbrev pub Finds : (AlertRecord → Type 0) → List AlertRecord → Bool → Type 0
Finds P log b = (Any P log × (b ≡ true)) ⊎ ((¬ Any P log) × (b ≡ false))

any-Finds :
    (P : AlertRecord → Type 0) (p : AlertRecord → Bool)
    → ((a : AlertRecord) → (p a ≡ true) ↔ P a)
    → (log : List AlertRecord) → Finds P log (any p log)
any-Finds P p iff log = elim (Bool-cases (any p log)) [
  | inl t ↦ inl (Any-map (λ a. p a ≡ true) P (λ a. (iff a).0) log (any-Any p log t), t)
  | inr f ↦ inr (
    (λ h. false≢true (sym f ∙ Any-any p log (Any-map P (λ a. p a ≡ true) (λ a. (iff a).1) log h))),
    f,
  )
]

module _ {S : Type 0} (store : Storage S) (law : Lawful store) (n type : String) (since : Time)
    (s : S) where
  -- `len(recent) == 0`
  pub search_empty :
      (found : List AlertRecord) × (store.find_recent_alerts n type since s ≡ ok found)
      × Finds (IsRecent n type since) (law.log s) (not (is_empty found))
  search_empty =
      let (found, e, finds) = law.find n type since s in
      (
        found,
        e,
        subst (Finds (IsRecent n type since) (law.log s))
            (sym (ground (arith, is_empty-any found, finds (λ a. true))))
            (any-Finds _ (λ a. is_recent n type since a && true) (is_recent_iff n type since)
              (law.log s)),
      )

  -- The loop over the records found.
  pub search-IsSent :
      (threshold : ℤ) (key : String)
      → (found : List AlertRecord) × (store.find_recent_alerts n type since s ≡ ok found)
        × Finds
            (IsSent n type since threshold key)
            (law.log s)
            (any (is_duplicate threshold key) found)
  search-IsSent threshold key =
      let (found, e, finds) = law.find n type since s in
      (
        found,
        e,
        subst (Finds (IsSent n type since threshold key) (law.log s))
            (sym (finds (is_duplicate threshold key)))
            (any-Finds _ (λ a. is_recent n type since a && is_duplicate threshold key a)
              (IsSent-iff n type since threshold key) (law.log s)),
      )
