-- ===== src/Base/Texts.antt =====
-- Go's order of strings. It compares bytes; of UTF-8 texts the code points give the same order.
use Prim.Native.Char.{code}
use Prim.Native.String.{String}
use mathlib.Core.Path.{◌≡◌, refl, ap₂}
use mathlib.Core.Bool.{Bool, true, false}
use native.Mathlib.Omega.{arith}
use text.Mathlib.TextEquality.{Char-path}
use delta_works.Base.Tests.{ltb, if◌then◌else◌}

unfoldable pub text_less : String → String → Bool
text_less s String.[] = false
text_less String.[] (String.◌∷◌ d t) = true
text_less (String.◌∷◌ c s) (String.◌∷◌ d t) =
    let rest = text_less s t in
    if ltb (code c) (code d) then true else if ltb (code d) (code c) then false else rest

-- At most one of two texts is less than the other.
pub text_less_asymm : (s t : String) → text_less s t ≡ true → text_less t s ≡ false
unfolding text_less
text_less_asymm String.[] String.[] h = cc
text_less_asymm String.[] (String.◌∷◌ d t) h = refl
text_less_asymm (String.◌∷◌ c s) String.[] h = cc
text_less_asymm (String.◌∷◌ c s) (String.◌∷◌ d t) h = ground (arith, text_less_asymm s t)

-- "Not less" is transitive.
pub not_less_trans :
    (r s t : String) → text_less s r ≡ false → text_less t s ≡ false → text_less t r ≡ false
unfolding text_less
not_less_trans String.[] s t h k = ground arith
not_less_trans (String.◌∷◌ b r) String.[] t h k = cc
not_less_trans (String.◌∷◌ b r) (String.◌∷◌ c s) String.[] h k = cc
not_less_trans (String.◌∷◌ b r) (String.◌∷◌ c s) (String.◌∷◌ d t) h k =
    ground (arith, not_less_trans r s t)

-- Texts of which neither is less are equal.
pub text_less_total : (s t : String) → text_less s t ≡ false → text_less t s ≡ false → s ≡ t
unfolding text_less
text_less_total String.[] String.[] h k = refl
text_less_total String.[] (String.◌∷◌ d t) h k = cc
text_less_total (String.◌∷◌ c s) String.[] h k = cc
text_less_total (String.◌∷◌ c s) (String.◌∷◌ d t) h k =
    ap₂ String.◌∷◌ (Char-path c d (ground arith))
      (text_less_total s t (ground arith) (ground arith))
