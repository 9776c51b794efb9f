-- ===== src/Prelude/Order.antt =====
-- The order of texts by their characters, which is that of Go's `<` on strings: UTF-8 keeps it.
use Prim.Native.Char.{code}
use Prim.Native.String.{String}
use native.Mathlib.Omega.{arith}
use mathlib.Core.Path.{◌≡◌, refl}
use mathlib.Core.Bool.{Bool, true, false, ◌&&◌, ◌||◌}
use domainturva.Prelude.Tests.{ltb, eqb}

unfoldable pub text_below : String → String → Bool
text_below String.[] String.[] = false
text_below String.[] (String.◌∷◌ d t) = true
text_below (String.◌∷◌ c s) String.[] = false
text_below (String.◌∷◌ c s) (String.◌∷◌ d t) =
    ltb (code c) (code d) || (eqb (code c) (code d) && text_below s t)

pub text_below_asymm : (s t : String) → text_below s t ≡ true → text_below t s ≡ false
unfolding text_below
text_below_asymm String.[] String.[] h = refl
text_below_asymm String.[] (String.◌∷◌ d t) h = refl
text_below_asymm (String.◌∷◌ c s) String.[] h = cc
text_below_asymm (String.◌∷◌ c s) (String.◌∷◌ d t) h = ground (arith, text_below_asymm s t)

-- `s` up to `t` up to `u`.
pub text_le_trans :
    (s t u : String) → text_below t s ≡ false → text_below u t ≡ false → text_below u s ≡ false
unfolding text_below
text_le_trans String.[] String.[] u h k = k
text_le_trans String.[] (String.◌∷◌ d t) String.[] h k = cc
text_le_trans String.[] (String.◌∷◌ d t) (String.◌∷◌ a u) h k = refl
text_le_trans (String.◌∷◌ c s) String.[] u h k = cc
text_le_trans (String.◌∷◌ c s) (String.◌∷◌ d t) String.[] h k = cc
text_le_trans (String.◌∷◌ c s) (String.◌∷◌ d t) (String.◌∷◌ a u) h k =
    ground (arith, text_le_trans s t u)
