-- ===== src/Prelude/Results.antt =====
-- Go's `(value, error)` pairs: a value, or the text of the error.
use Prim.Native.String.{String}
use mathlib.Core.Path.{◌≡◌, refl, subst}
use mathlib.Core.Logic.{◌⊎◌, inl, inr}

pub data Result {ℓ} (V : Type ℓ) : Type ℓ where
  err : String → Result V
  ok : V → Result V

infixl 5 ◌>>=◌
abbrev pub ◌>>=◌ {ℓ ℓ'} : {V : Type ℓ} {W : Type ℓ'} → Result V → (V → Result W) → Result W
err message >>= next = err message
ok v >>= next = next v

pub >>=-eq-ok {ℓ ℓ'} :
    {V : Type ℓ} {W : Type ℓ'} (m : Result V) (next : V → Result W) {w : W}
    → (m >>= next) ≡ ok w
    → (v : V) × (m ≡ ok v) × (next v ≡ ok w)
>>=-eq-ok (ok v) next h = (v, refl, h)
>>=-eq-ok (err message) next h = cc

pub Result-cases {ℓ} :
    {V : Type ℓ} (m : Result V) → ((message : String) × (m ≡ err message)) ⊎ ((v : V) × (m ≡ ok v))
Result-cases (err message) = inl (message, refl)
Result-cases (ok v) = inr (v, refl)

-- What holds of the value, if there is one.
abbrev pub OnOk {ℓ} : {V : Type ℓ} → (V → Type 0) → Result V → Type 0
OnOk P (err message) = Unit
OnOk P (ok v) = P v

pub OnOk-eq {ℓ} : {V : Type ℓ} (P : V → Type 0) (m : Result V) {v : V} → OnOk P m → m ≡ ok v → P v
OnOk-eq P m h e = subst (OnOk P) e h
