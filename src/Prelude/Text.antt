-- ===== src/Prelude/Text.antt =====
-- Text as the program builds it with `fmt.Sprintf`.
use Prim.Native.Char.{code}
use Prim.Native.String
use Prim.Native.String.{String}
use Prim.Native.Nat.{ℕ, zero, suc, ◌/◌, ◌%◌}
use mathlib.Core.List.{List, [], ◌∷◌}
use mathlib.Core.Path.{◌≡◌, refl}
use domainturva.Prelude.Tests.{eqb, if◌then◌else◌}
use domainturva.Prelude.Int.{ℤ, pos, negsuc}

infixr 65 ◌<>◌
abbrev pub ◌<>◌ : String → String → String
s <> t = String.◌++◌ s t

abbrev digits : List String
digits = "0" ∷ "1" ∷ "2" ∷ "3" ∷ "4" ∷ "5" ∷ "6" ∷ "7" ∷ "8" ∷ "9" ∷ []

-- The text at a position; past the end it is empty.
text_at : ℕ → List String → String
text_at n [] = ""
text_at zero (s ∷ texts) = s
text_at (suc n) (s ∷ texts) = text_at n texts

-- The digits of `n` before those of `out`; `n` is below ten to the power of the fuel.
decimal_from : ℕ → ℕ → String → String
decimal_from zero n out = out
decimal_from (suc fuel) n out =
    let rest = decimal_from fuel (n / 10) (text_at (n % 10) digits <> out) in
    if eqb n 0 then out else rest

-- `%d`, for the values of an `int64`, which have at most 19 digits.
unfoldable pub decimal : ℤ → String
unfolding decimal_from text_at
decimal (pos n) = if eqb n 0 then "0" else decimal_from 20 n ""
decimal (negsuc n) = "-" <> decimal_from 20 (suc n) ""

decimal_tests :
    (decimal (pos 0) ≡ "0") × (decimal (pos 1209) ≡ "1209") × (decimal (negsuc 59) ≡ "-60")
unfolding decimal
decimal_tests = (refl, refl, refl)

-- A text as the numbers of its characters.
abbrev pub Bytes : Type 0
Bytes = List ℕ

-- The code points of a text, which are its bytes where it is ASCII.
abbrev pub ascii : String → Bytes
ascii String.[] = []
ascii (String.◌∷◌ c s) = code c ∷ ascii s
