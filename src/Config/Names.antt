-- ===== src/Config/Names.antt =====
-- The names that the loops of `Validate` have seen.
use domainturva.Prelude.{
  String, ◌==◌, ◌≡◌, ◌≢◌, ◌↔◌, refl, true, false, ◌||◌, List, [], ◌∷◌, All, Any, any, iff_and,
  iff_trans, or_false_iff, ==_false_iff, All-and_iff, arith, eq_iff, any-Any, Any-any, Any-map,
}
use domainturva.Config.Validate.{has_name}

abbrev pub IsNew : List String → String → Type 0
IsNew names name = All (λ n. n ≢ name) names

pub IsNew-iff : (names : List String) (x : String) → (has_name names x ≡ false) ↔ IsNew names x
IsNew-iff [] x = (λ h. tt, λ h. refl)
IsNew-iff (n ∷ names) x =
    iff_trans (or_false_iff (n == x) (has_name names x))
      (iff_and (==_false_iff n x) (IsNew-iff names x))

module _ {A : Type 0} (name : A → String) where
  -- No name stands twice.
  abbrev pub IsDistinct : List A → Type 0
  IsDistinct [] = Unit
  IsDistinct (x ∷ xs) = All (λ y. name x ≢ name y) xs × IsDistinct xs

  -- No name is one of the names seen.
  abbrev pub AreNew : List String → List A → Type 0
  AreNew names xs = All (λ x. IsNew names (name x)) xs

  pub AreNew-iff :
      (names : List String) (x : A) (xs : List A)
      → AreNew (name x ∷ names) xs ↔ (All (λ y. name x ≢ name y) xs × AreNew names xs)
  AreNew-iff names x xs = All-and_iff (λ y. name x ≢ name y) (λ y. IsNew names (name y)) xs

  pub AreNew-nil : (xs : List A) → AreNew [] xs
  AreNew-nil [] = tt
  AreNew-nil (x ∷ xs) = (tt, AreNew-nil xs)

  -- The names seen at the end.
  abbrev pub all_names : List String → List A → List String
  all_names names [] = names
  all_names names (x ∷ xs) = all_names (name x ∷ names) xs

  has_name-all_names :
      (names : List String) (xs : List A) (x : String)
      → has_name (all_names names xs) x ≡ (any (λ y. name y == x) xs || has_name names x)
  has_name-all_names names [] x = refl
  has_name-all_names names (y ∷ xs) x = ground (arith, has_name-all_names (name y ∷ names) xs x)

  pub known_iff :
      (xs : List A) (x : String) → (has_name (all_names [] xs) x ≡ true) ↔ Any (λ y. name y ≡ x) xs
  known_iff xs x =
      let e : has_name (all_names [] xs) x ≡ any (λ y. name y == x) xs =
        ground (arith, has_name-all_names [] xs x) in
      (
        λ h.
            Any-map _ _ (λ y. (eq_iff (name y) x).0) xs
              (any-Any (λ y. name y == x) xs (ground arith)),
        λ h.
            let k = Any-any (λ y. name y == x) xs (Any-map _ _ (λ y. (eq_iff (name y) x).1) xs h) in
            ground arith,
      )
