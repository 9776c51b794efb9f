-- ===== src/Config/Environment/Reading.antt =====
-- Every text is read in some way.
use mathlib.Core.List.{append_assoc}
use domainturva.Prelude.{
  ℕ, zero, suc, ◌+◌, ◌≡◌, refl, sym, ◌∙◌, ap, Bytes, Option, none, some, List, [], ◌∷◌, ◌++◌,
  length, length-append, eqb, arith, Bool-cases, Option-cases, inl, inr,
}
use domainturva.Config.Environment.{reference_at}
use domainturva.Config.Environment.Pieces.{
  Piece, plain, reference, text, IsName, HasName, IsReading, match_name-HasName, reference_at-some,
}

abbrev piece : ℕ → Option Bytes → (ℕ → List Piece) → List Piece
piece c none later = plain c ∷ later 0
piece c (some name) later = reference name ∷ later (length name + 2)

-- A text as `expandEnv` reads it.
pieces_from : ℕ → Bytes → List Piece
pieces_from skip [] = []
pieces_from (suc skip) (c ∷ s) = pieces_from skip s
pieces_from zero (c ∷ s) = piece c (reference_at c s) (λ skip. pieces_from skip s)

abbrev drop : ℕ → Bytes → Bytes
drop n [] = []
drop zero (c ∷ s) = c ∷ s
drop (suc n) (c ∷ s) = drop n s

drop_zero : (s : Bytes) → drop 0 s ≡ s
drop_zero [] = refl
drop_zero (c ∷ s) = refl

drop-append : (match s : Bytes) → drop (length match) (match ++ s) ≡ s
drop-append [] [] = refl
drop-append [] (c ∷ s) = refl
drop-append (c ∷ match) s = drop-append match s

reference_at_sound :
    (c : ℕ) (s name : Bytes)
    → reference_at c s ≡ some name
    → (c ≡ b'$') × IsName name × (s ≡ b'{' ∷ (name ++ (b'}' ∷ drop (length name + 2) s)))
unfolding reference_at
reference_at_sound c s name e = elim (Bool-cases (eqb c b'$')) [
  | inl t ↦
      let (named, (rest, whole)) = match_name-HasName s name (rw t at e) in
      let match = b'{' ∷ (name ++ (b'}' ∷ [])) in
      let n : length match ≡ length name + 2 = omega (arith, length-append {0} name (b'}' ∷ [])) in
      let split : s ≡ match ++ rest =
        whole ∙ ap (λ r. b'{' ∷ r) (sym (append_assoc name (b'}' ∷ []) rest)) in
      let left : drop (length name + 2) s ≡ rest = rw (← n) (rw split (drop-append match rest)) in
      (ground arith, named, whole ∙ ap (λ r. b'{' ∷ (name ++ (b'}' ∷ r))) (sym left))
  | inr f ↦ absurd (cc (rw f at e))
]

stands_alone : (c : ℕ) (s : Bytes) → reference_at c s ≡ none → ¬ ((c ≡ b'$') × HasName s)
stands_alone c s e (dollar, (name, rest, named, whole)) =
    cc (e, reference_at-some name rest named, dollar, whole)

-- The pieces are the text again, and a reading of it.
reading :
    (skip : ℕ) (s : Bytes)
    → (text (pieces_from skip s) ≡ drop skip s) × IsReading (pieces_from skip s)
unfolding pieces_from
reading skip [] = (refl, tt)
reading (suc skip) (c ∷ s) = reading skip s
reading zero (c ∷ s) = elim (Option-cases (reference_at c s)) [
  | inl missing ↦
      let (same, r) = reading 0 s in
      let same' = same ∙ drop_zero s in
      let alone : ¬ ((c ≡ b'$') × HasName (text (pieces_from 0 s))) =
        rw same' (stands_alone c s missing) in
      rw missing (ap (λ t. c ∷ t) same', (alone, r))
  | inr (name, found) ↦
      let (same, r) = reading (length name + 2) s in
      let (dollar, named, whole) = reference_at_sound c s name found in
      let back = ap (λ t. b'{' ∷ (name ++ (b'}' ∷ t))) same ∙ sym whole in
      rw found (cc dollar, (named, r))
]

pub text-IsReading : (s : Bytes) → (ps : List Piece) × (text ps ≡ s) × IsReading ps
text-IsReading s = let (same, r) = reading 0 s in (pieces_from 0 s, same ∙ drop_zero s, r)
