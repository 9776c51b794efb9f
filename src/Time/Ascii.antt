-- ===== src/Time/Ascii.antt =====
-- ASCII text as its bytes: numbers of a fixed width, written and read, and the order of texts.
use mathlib.Core.List.{append_assoc}
use domainturva.Prelude.{
  Bytes, ℕ, zero, suc, ◌+◌, ◌-◌, ◌*◌, ◌/◌, ◌%◌, ◌<◌, ◌≡◌, refl, Bool, true, false, ◌&&◌, ◌||◌,
  Option, none, some, [], ◌∷◌, ◌++◌, length, length-append, ltb, leb, eqb, if◌then◌else◌, arith,
  ◌⊎◌, inl, inr,
}

abbrev pub is_digit : ℕ → Bool
is_digit c = leb b'0' c && leb c b'9'

-- Ten to the power of the width.
abbrev pub bound : ℕ → ℕ
bound zero = 1
bound (suc w) = bound w * 10

-- The last `w` digits of `n`.
unfoldable pub digits : ℕ → ℕ → Bytes
digits zero n = []
digits (suc w) n = digits w (n / 10) ++ (b'0' + n % 10) ∷ []

-- A number of `w` digits behind `acc`, and the rest of the text.
unfoldable pub read_digits : ℕ → ℕ → Bytes → Option (ℕ × Bytes)
read_digits zero acc bs = some (acc, bs)
read_digits (suc w) acc [] = none
read_digits (suc w) acc (c ∷ bs) =
    let rest = read_digits w (acc * 10 + (c - b'0')) bs in if is_digit c then rest else none

-- The order of texts by their bytes, which is SQLite's BINARY collation.
unfoldable pub is_below : Bytes → Bytes → Bool
is_below [] [] = false
is_below [] (d ∷ ds) = true
is_below (c ∷ ys) [] = false
is_below (c ∷ ys) (d ∷ ds) = ltb c d || (eqb c d && is_below ys ds)

pub length-digits : (w n : ℕ) → length (digits w n) ≡ w
unfolding digits
length-digits zero n = refl
length-digits (suc w) n =
    omega (
      arith,
      length-append {0} (digits w (n / 10)) ((b'0' + n % 10) ∷ []),
      length-digits w (n / 10),
    )

pub is_below-append :
    (xs ys bs ds : Bytes)
    → length xs ≡ length ys
    → is_below xs ys ≡ true
    → is_below (xs ++ bs) (ys ++ ds) ≡ true
unfolding is_below
is_below-append [] [] bs ds e h = cc
is_below-append [] (c ∷ ys) bs ds e h = absurd (omega arith)
is_below-append (a ∷ xs) [] bs ds e h = absurd (omega arith)
is_below-append (a ∷ xs) (c ∷ ys) bs ds e h = ground (arith, is_below-append xs ys bs ds)

pub is_below-append_left : (xs bs ds : Bytes) → is_below (xs ++ bs) (xs ++ ds) ≡ is_below bs ds
unfolding is_below
is_below-append_left [] bs ds = refl
is_below-append_left (a ∷ xs) bs ds = ground (arith, is_below-append_left xs bs ds)

pub is_below_irrefl : (xs : Bytes) → is_below xs xs ≡ false
unfolding is_below
is_below_irrefl [] = refl
is_below_irrefl (a ∷ xs) = ground (arith, is_below_irrefl xs)

pub is_below_asymm : (xs bs : Bytes) → is_below xs bs ≡ true → is_below bs xs ≡ false
unfolding is_below
is_below_asymm [] [] h = cc
is_below_asymm [] (b ∷ bs) h = refl
is_below_asymm (a ∷ xs) [] h = cc
is_below_asymm (a ∷ xs) (b ∷ bs) h = ground (arith, is_below_asymm xs bs)

-- Digits are in the order of the numbers.
pub digits-is_below : (w n m : ℕ) → m < bound w → n < m → is_below (digits w n) (digits w m) ≡ true
unfolding digits is_below
digits-is_below zero n m h lt = absurd (omega arith)
digits-is_below (suc w) n m h lt = elim (quot_cases n m lt) [
  | inl less ↦
      is_below-append (digits w (n / 10)) (digits w (m / 10)) _ _
        (omega (arith, length-digits w (n / 10), length-digits w (m / 10)))
        (digits-is_below w (n / 10) (m / 10) (omega arith) less)
  | inr (same, less) ↦ rw (same, is_below-append_left (digits w (m / 10))) (ground arith)
]
  where
    quot_cases : (a b : ℕ) → a < b → (a / 10 < b / 10) ⊎ ((a / 10 ≡ b / 10) × (a % 10 < b % 10))
    quot_cases a b l = ground arith

read_digits_one_more :
    (w acc : ℕ) (bs : Bytes) (v c : ℕ) (rest : Bytes)
    → is_digit c ≡ true
    → read_digits w acc bs ≡ some (v, c ∷ rest)
    → read_digits (suc w) acc bs ≡ some (v * 10 + (c - b'0'), rest)
unfolding read_digits
read_digits_one_more zero acc [] v c rest d e = cc
read_digits_one_more zero acc (b ∷ bs) v c rest d e = ground arith
read_digits_one_more (suc w) acc [] v c rest d e = cc
read_digits_one_more (suc w) acc (b ∷ bs) v c rest d e =
    ground (arith, read_digits_one_more w (acc * 10 + (b - b'0')) bs v c rest d)

-- Digits are read back.
pub read_digits-digits :
    (w n : ℕ) (rest : Bytes) → n < bound w → read_digits w 0 (digits w n ++ rest) ≡ some (n, rest)
unfolding digits
read_digits-digits zero n rest h = unfold read_digits in let e : 0 ≡ n = omega arith in rw e
read_digits-digits (suc w) n rest h =
    let c : ℕ = b'0' + n % 10 in
    let before = read_digits-digits w (n / 10) (c ∷ rest) (omega arith) in
    let whole =
      read_digits_one_more w 0 (digits w (n / 10) ++ (c ∷ rest)) (n / 10) c rest (ground arith)
        before in
    let e : n / 10 * 10 + (c - b'0') ≡ n = omega arith in rw append_assoc (rw e at whole)
