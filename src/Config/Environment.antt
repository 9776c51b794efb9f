-- ===== src/Config/Environment.antt =====
-- `expandEnv` of internal/config/config.go: the references `${NAME}` of a text, as the regular
-- expression finds them from left to right, and what takes their place.
pub mod Pieces
pub mod Reading
pub mod Laws
use domainturva.Prelude.{
  ℕ, zero, suc, ◌+◌, Bytes, Bool, true, false, ◌&&◌, ◌||◌, Option, none, some, List, [], ◌∷◌, ◌++◌,
  length, leb, eqb, is_empty, if◌then◌else◌,
}

-- `[A-Za-z_]` and `[A-Za-z0-9_]`
abbrev pub is_letter : ℕ → Bool
is_letter c = leb b'A' c && leb c b'Z' || (leb b'a' c && leb c b'z' || eqb c b'_')

abbrev pub is_name_part : ℕ → Bool
is_name_part c = is_letter c || leb b'0' c && leb c b'9'

-- The longest run of name characters, and the rest.
unfoldable pub span_name : Bytes → Bytes × Bytes
span_name [] = ([], [])
span_name (c ∷ s) =
    let (run, rest) = span_name s in if is_name_part c then (c ∷ run, rest) else ([], c ∷ s)

-- The brace that ends a reference.
abbrev pub closes : Bytes → Bool
closes [] = false
closes (c ∷ s) = eqb c b'}'

-- The name in a match of `{NAME}` at the front of a text, which follows a dollar sign.
unfoldable pub match_name : Bytes → Option Bytes
match_name [] = none
match_name (c ∷ []) = none
match_name (c ∷ d ∷ s) =
    let (run, rest) = span_name s in
    if eqb c b'{' && (is_letter d && closes rest) then some (d ∷ run) else none

-- The text with the values in place, and the names that are not defined, in order.
pub record Expansion : Type 0 where
  pub out : Bytes
  pub missing : List Bytes

abbrev pub literal : ℕ → Expansion → Expansion
literal c rest = record rest { out = c ∷ rest.out }

-- `match` is what the expression has matched, `$` and braces included; `v` is what `os.LookupEnv`
-- gives for the name.
unfoldable pub replace : (match name : Bytes) → Option Bytes → Expansion → Expansion
replace match name none rest = record { out = match ++ rest.out; missing = name ∷ rest.missing }
replace match name (some v) rest = record rest { out = v ++ rest.out }

-- The name of the reference that begins at the character `c`, if one does.
unfoldable pub reference_at : ℕ → Bytes → Option Bytes
reference_at c s = if eqb c b'$' then match_name s else none

-- A character, or the match that begins with it, and what the rest of the text becomes from as many
-- characters on.
abbrev pub put : (Bytes → Option Bytes) → ℕ → Option Bytes → (ℕ → Expansion) → Expansion
put env c none later = literal c (later 0)
put env c (some name) later =
    replace (b'$' ∷ b'{' ∷ (name ++ (b'}' ∷ []))) name (env name) (later (length name + 2))

-- `ReplaceAllStringFunc`: `skip` is the number of characters left of the match that was replaced.
unfoldable pub expand_from : (Bytes → Option Bytes) → ℕ → Bytes → Expansion
expand_from env skip [] = record { out = []; missing = [] }
expand_from env (suc skip) (c ∷ s) = expand_from env skip s
expand_from env zero (c ∷ s) = put env c (reference_at c s) (λ skip. expand_from env skip s)

-- The expanded text, or the names of the variables that are not defined.
pub data Expanded : Type 0 where
  expanded : Bytes → Expanded
  undefined : List Bytes → Expanded

unfoldable pub expand_env : (Bytes → Option Bytes) → Bytes → Expanded
expand_env env s =
    let e = expand_from env 0 s in
    if is_empty e.missing then expanded e.out else undefined e.missing
