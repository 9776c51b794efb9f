-- ===== src/Prelude/Iff.antt =====
-- Equivalences put together, and the tests of a guard read as one.
use Prim.Native.String.{String}
use mathlib.Core.Path.{◌≡◌, refl, sym}
use mathlib.Core.Logic.{◌≢◌, ◌↔◌, ◌⊎◌, inl, inr}
use mathlib.Core.Bool.{Bool, true, false, not, ◌&&◌, ◌||◌, false≢true}
use mathlib.Core.Option.{Option, none, some}
use mathlib.Core.List.{List, [], ◌∷◌, ◌++◌}
use native.Mathlib.Omega.{arith}
use text.Mathlib.Text.{◌==◌}
use text.Mathlib.TextEquality.{eq_iff}
use domainturva.Prelude.Tests.{if◌then◌else◌}
use domainturva.Prelude.Lists.{All, Any}

pub iff_trans : {A B C : Type 0} → A ↔ B → B ↔ C → A ↔ C
iff_trans (f, g) (h, k) = (λ a. h (f a), λ c. g (k c))

pub iff_and : {A B C D : Type 0} → A ↔ B → C ↔ D → (A × C) ↔ (B × D)
iff_and (f, g) (h, k) = (λ (a, c). (f a, h c), λ (b, d). (g b, k d))

-- A guard that returns an error lets a result through where its test is false.
pub guard_iff {ℓ} :
    {E : Type ℓ} (b : Bool) (e : E) (rest : Option E)
    → ((if b then some e else rest) ≡ none) ↔ ((b ≡ false) × (rest ≡ none))
guard_iff true e rest = (λ h. ground arith, λ (f, h). absurd (false≢true (sym f)))
guard_iff false e rest = (λ h. (refl, h), λ (f, h). h)

pub ==_false_iff : (s t : String) → ((s == t) ≡ false) ↔ (s ≢ t)
==_false_iff s t = ground (arith, eq_iff s t)

pub not_==_false_iff : (s t : String) → (not (s == t) ≡ false) ↔ (s ≡ t)
not_==_false_iff s t = ground (arith, eq_iff s t)

pub or_false_iff : (a b : Bool) → ((a || b) ≡ false) ↔ ((a ≡ false) × (b ≡ false))
or_false_iff a b = ground arith

module _ {ℓ} {A : Type ℓ} where
  pub All-iff : (P Q : A → Type 0) → ((x : A) → P x ↔ Q x) → (xs : List A) → All P xs ↔ All Q xs
  All-iff P Q f [] = (λ h. h, λ h. h)
  All-iff P Q f (x ∷ xs) = iff_and (f x) (All-iff P Q f xs)

  pub All-and_iff :
      (P Q : A → Type 0) (xs : List A) → All (λ x. P x × Q x) xs ↔ (All P xs × All Q xs)
  All-and_iff P Q [] = (λ h. (tt, tt), λ h. tt)
  All-and_iff P Q (x ∷ xs) =
      let (f, g) = All-and_iff P Q xs in
      (λ ((p, q), h). ((p, (f h).0), (q, (f h).1)), λ ((p, h), (q, k)). ((p, q), g (h, k)))

-- A guard and what follows it, each read in its own way.
pub guarded :
    {E : Type 0} {b : Bool} {P Q : Type 0} {rest : Option E} (e : E)
    → (b ≡ false) ↔ P
    → (rest ≡ none) ↔ Q
    → ((if b then some e else rest) ≡ none) ↔ (P × Q)
guarded e h k = iff_trans (guard_iff _ e _) (iff_and h k)

pub guard_last :
    {E : Type 0} {b : Bool} {P : Type 0} (e : E)
    → (b ≡ false) ↔ P
    → ((if b then some e else none) ≡ none) ↔ P
guard_last {b = true} e (f, g) = (λ h. ground arith, λ p. absurd (false≢true (sym (g p))))
guard_last {b = false} e (f, g) = (λ h. f refl, λ p. refl)

pub iff_or : {A B C D : Type 0} → A ↔ B → C ↔ D → (A ⊎ C) ↔ (B ⊎ D)
iff_or (f, g) (h, k) = (
  λ x. elim x [ inl a ↦ inl (f a) | inr c ↦ inr (h c) ],
  λ x. elim x [ inl b ↦ inl (g b) | inr d ↦ inr (k d) ],
)

pub iff_refl : {A : Type 0} → A ↔ A
iff_refl = (λ a. a, λ a. a)

pub and_true_iff : (a b : Bool) → ((a && b) ≡ true) ↔ ((a ≡ true) × (b ≡ true))
and_true_iff a b = ground arith

module _ {ℓ} {A : Type ℓ} (P : A → Type 0) where
  pub Any-append_iff : (xs ys : List A) → Any P (xs ++ ys) ↔ (Any P xs ⊎ Any P ys)
  Any-append_iff [] ys = (λ h. inr h, λ h. elim h [ inl e ↦ absurd e | inr k ↦ k ])
  Any-append_iff (x ∷ xs) ys =
      let (f, g) = Any-append_iff xs ys in
      (
        λ h. elim h [
          | inl p ↦ inl (inl p)
          | inr k ↦ elim (f k) [ inl a ↦ inl (inr a) | inr b ↦ inr b ]
        ],
        λ h. elim h [
          | inl k ↦ elim k [ inl p ↦ inl p | inr a ↦ inr (g (inl a)) ]
          | inr b ↦ inr (g (inr b))
        ],
      )

  pub Any-single_iff : (x : A) → Any P (x ∷ []) ↔ P x
  Any-single_iff x = (λ h. elim h [ inl p ↦ p | inr e ↦ absurd e ], λ p. inl p)

  -- One member, where a test says so.
  pub Any-if_iff : (b : Bool) (x : A) → Any P (if b then x ∷ [] else []) ↔ ((b ≡ true) × P x)
  Any-if_iff true x = (λ h. elim h [ inl p ↦ (refl, p) | inr e ↦ absurd e ], λ (t, p). inl p)
  Any-if_iff false x = (λ h. absurd h, λ (t, p). absurd (false≢true t))
