-- ===== src/Config/Environment/Pieces.antt =====
-- The texts that `expandEnv` reads as characters and references, and where its regular expression finds a
-- reference.
use domainturva.Prelude.{
  ℕ, ◌≡◌, refl, ap, subst, Bytes, true, false, ◌&&◌, none, some, List, [], ◌∷◌, ◌++◌, eqb, All,
  arith, Bool-cases, Option-cases, inl, inr,
}
use domainturva.Config.Environment.{
  is_letter, is_name_part, span_name, closes, match_name, reference_at,
}

-- A text as it is read: characters that stand for themselves, and references.
pub data Piece : Type 0 where
  plain : ℕ → Piece
  reference : Bytes → Piece

abbrev pub text : List Piece → Bytes
text [] = []
text (plain c ∷ ps) = c ∷ text ps
text (reference name ∷ ps) = b'$' ∷ b'{' ∷ (name ++ (b'}' ∷ text ps))

abbrev pub IsName : Bytes → Type 0
IsName [] = ⊥
IsName (c ∷ run) = (is_letter c ≡ true) × All (λ d. is_name_part d ≡ true) run

-- The text continues with a name in braces.
abbrev pub HasName : Bytes → Type 0
HasName s = (name : Bytes) × (rest : Bytes) × IsName name × (s ≡ b'{' ∷ (name ++ (b'}' ∷ rest)))

-- A character stands for itself only where no reference begins.
abbrev pub IsReading : List Piece → Type 0
IsReading [] = Unit
IsReading (plain c ∷ ps) = ¬ ((c ≡ b'$') × HasName (text ps)) × IsReading ps
IsReading (reference name ∷ ps) = IsName name × IsReading ps

span_name_lem :
    (run rest : Bytes)
    → All (λ d. is_name_part d ≡ true) run
    → span_name (run ++ (b'}' ∷ rest)) ≡ (run, b'}' ∷ rest)
unfolding span_name
span_name_lem [] rest h = refl
span_name_lem (c ∷ run) rest (t, h) = rw (span_name_lem run rest h) (rw t)

span_name_sound :
    (s : Bytes)
    → (s ≡ (span_name s).0 ++ (span_name s).1) × All (λ d. is_name_part d ≡ true) (span_name s).0
unfolding span_name
span_name_sound [] = (refl, tt)
span_name_sound (c ∷ s) =
    let (whole, parts) = span_name_sound s in
    elim (Bool-cases (is_name_part c)) [
      | inl t ↦ rw t (ap (λ r. c ∷ r) whole, (t, parts))
      | inr f ↦ rw f (refl, tt)
    ]

closes_lem : (s : Bytes) → closes s ≡ true → (rest : Bytes) × (s ≡ b'}' ∷ rest)
closes_lem [] h = cc
closes_lem (c ∷ s) h = (s, ground arith)

matched :
    (c d : ℕ) (s : Bytes)
    → (eqb c b'{' && (is_letter d && closes (span_name s).1)) ≡ true
    → IsName (d ∷ (span_name s).0)
      × ((rest : Bytes) × (c ∷ d ∷ s ≡ b'{' ∷ d ∷ ((span_name s).0 ++ (b'}' ∷ rest))))
matched c d s h =
    let (whole, parts) = span_name_sound s in
    let tests : (c ≡ b'{') × (is_letter d ≡ true) × (closes (span_name s).1 ≡ true) =
      ground arith in
    let (rest, ends) = closes_lem (span_name s).1 tests.2 in
    ((tests.1, parts), (rest, cc (tests.0, whole, ends)))

pub match_name-HasName :
    (s name : Bytes)
    → match_name s ≡ some name
    → IsName name × ((rest : Bytes) × (s ≡ b'{' ∷ (name ++ (b'}' ∷ rest))))
unfolding match_name
match_name-HasName [] name e = cc
match_name-HasName (c ∷ []) name e = cc
match_name-HasName (c ∷ d ∷ s) name e =
    elim (Bool-cases (eqb c b'{' && (is_letter d && closes (span_name s).1))) [
      | inl t ↦
          let same : d ∷ (span_name s).0 ≡ name = cc (rw t at e) in
          subst (λ n. IsName n × ((rest : Bytes) × (c ∷ d ∷ s ≡ b'{' ∷ (n ++ (b'}' ∷ rest))))) same
            (matched c d s t)
      | inr f ↦ cc (rw f at e)
    ]

match_name_lem :
    (name rest : Bytes) → IsName name → match_name (b'{' ∷ (name ++ (b'}' ∷ rest))) ≡ some name
unfolding match_name
match_name_lem [] rest h = absurd h
match_name_lem (d ∷ run) rest (t, h) = rw (span_name_lem run rest h) (rw t)

pub reference_at-none : (c : ℕ) (s : Bytes) → ¬ ((c ≡ b'$') × HasName s) → reference_at c s ≡ none
unfolding reference_at
reference_at-none c s alone = elim (Option-cases (match_name s)) [
  | inl missing ↦ rw missing (ground arith)
  | inr (name, found) ↦
      let (named, (rest, e)) = match_name-HasName s name found in
      let other : eqb c b'$' ≡ false =
        ground (arith, λ (d : c ≡ b'$'). alone (d, (name, rest, named, e))) in
      rw other
]

pub reference_at-some :
    (name rest : Bytes)
    → IsName name
    → reference_at b'$' (b'{' ∷ (name ++ (b'}' ∷ rest))) ≡ some name
unfolding reference_at
reference_at-some name rest h = match_name_lem name rest h
