-- ===== src/Config/Environment/Laws.antt =====
-- What `expandEnv` does to a text that is read as literals and references.
use mathlib.Core.List.{append_assoc}
use domainturva.Prelude.{
  ◌+◌, ◌≡◌, refl, ◌∙◌, Bytes, Option, none, some, List, [], ◌∷◌, ◌++◌, length, length-append,
  is_empty, if◌then◌else◌, arith,
}
use domainturva.Config.Environment.{replace, expand_from, expanded, undefined, expand_env}
use domainturva.Config.Environment.Pieces.{
  Piece, plain, reference, text, IsReading, reference_at-none, reference_at-some,
}
use domainturva.Config.Environment.Reading.{text-IsReading}

-- The text with the values of its references; what is not defined stays.
abbrev pub substituted : (Bytes → Option Bytes) → List Piece → Bytes
substituted env [] = []
substituted env (plain c ∷ ps) = c ∷ substituted env ps
substituted env (reference name ∷ ps) =
    elim (env name) [ none ↦ b'$' ∷ b'{' ∷ (name ++ (b'}' ∷ [])) | some v ↦ v ]
    ++ substituted env ps

-- The names without a value, in order.
abbrev pub undefined_names : (Bytes → Option Bytes) → List Piece → List Bytes
undefined_names env [] = []
undefined_names env (plain c ∷ ps) = undefined_names env ps
undefined_names env (reference name ∷ ps) =
    elim (env name) [ none ↦ name ∷ [] | some v ↦ [] ] ++ undefined_names env ps

expand_from-append :
    (env : Bytes → Option Bytes) (match s : Bytes)
    → expand_from env (length match) (match ++ s) ≡ expand_from env 0 s
unfolding expand_from
expand_from-append env [] s = refl
expand_from-append env (c ∷ match) s = expand_from-append env match s

skip_match :
    (env : Bytes → Option Bytes) (name rest : Bytes)
    → expand_from env (length name + 2) (b'{' ∷ (name ++ (b'}' ∷ rest))) ≡ expand_from env 0 rest
skip_match env name rest =
    let match = b'{' ∷ (name ++ (b'}' ∷ [])) in
    let n : length match ≡ length name + 2 = omega (arith, length-append {0} name (b'}' ∷ [])) in
    rw (← n) (rw (append_assoc name (b'}' ∷ []) rest) at (expand_from-append env match rest))

replace_lem :
    (env : Bytes → Option Bytes) (name : Bytes) (ps : List Piece)
    → replace
        (b'$' ∷ b'{' ∷ (name ++ (b'}' ∷ [])))
        name
        (env name)
        (record { out = substituted env ps; missing = undefined_names env ps })
      ≡ record {
        out = substituted env (reference name ∷ ps);
        missing = undefined_names env (reference name ∷ ps);
      }
unfolding replace
replace_lem env name ps = ground arith

expand_from-text :
    (env : Bytes → Option Bytes) (ps : List Piece)
    → IsReading ps
    → expand_from env 0 (text ps)
      ≡ record { out = substituted env ps; missing = undefined_names env ps }
unfolding expand_from
expand_from-text env [] h = refl
expand_from-text env (plain c ∷ ps) (alone, h) =
    rw (reference_at-none c (text ps) alone) (rw (expand_from-text env ps h))
expand_from-text env (reference name ∷ ps) (named, h) =
    let rest = skip_match env name (text ps) ∙ expand_from-text env ps h in
    rw (reference_at-some name (text ps) named) (rw rest (replace_lem env name ps))

-- Every text reads as characters and references `${NAME}`, where no character is left alone at
-- which a reference could begin; for every such reading, expandEnv returns the text with the value
-- of each variable in place of its references, or, where some are not defined, the names of those
-- in order.
pub expand_env_lem :
    (env : Bytes → Option Bytes) (s : Bytes)
    → ((ps : List Piece) × (text ps ≡ s) × IsReading ps)
      × ((ps : List Piece)
          → text ps ≡ s
          → IsReading ps
          → expand_env env s ≡ (
              if is_empty (undefined_names env ps)
              then expanded (substituted env ps)
              else undefined (undefined_names env ps)))
unfolding expand_env
expand_env_lem env s =
    (text-IsReading s, λ ps same r. let e = rw same at (expand_from-text env ps r) in rw e)
