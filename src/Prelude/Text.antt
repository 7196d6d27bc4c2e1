-- ===== src/Prelude/Text.antt =====
-- Go's `<` on strings. It compares bytes, and the bytes of UTF-8 are in the order of the code points.
use Prim.Native.Char.{code}
use Prim.Native.String.{String}
use mathlib.Core.Path.{◌≡◌, refl, ap}
use mathlib.Core.Bool.{Bool, true, false}
use native.Mathlib.Omega.{arith}
use text.Mathlib.TextEquality.{Char-path}
use gluetun_proton_list_upda.Prelude.Tests.{ltb, ◌==◌, if◌then◌else◌}
use gluetun_proton_list_upda.Prelude.Sort.{IsWeakOrder}

unfoldable pub str_ltb : String → String → Bool
str_ltb String.[] String.[] = false
str_ltb String.[] (String.◌∷◌ d t) = true
str_ltb (String.◌∷◌ c s) String.[] = false
str_ltb (String.◌∷◌ c s) (String.◌∷◌ d t) =
    let rest = str_ltb s t in
    if ltb (code c) (code d) then true else if code c == code d then rest else false

str_ltb_asym : (s t : String) → str_ltb s t ≡ true → str_ltb t s ≡ false
unfolding str_ltb
str_ltb_asym String.[] String.[] h = cc
str_ltb_asym String.[] (String.◌∷◌ d t) h = refl
str_ltb_asym (String.◌∷◌ c s) String.[] h = cc
str_ltb_asym (String.◌∷◌ c s) (String.◌∷◌ d t) h = ground (arith, str_ltb_asym s t)

str_ltb_not_trans :
    (a b c : String) → str_ltb b a ≡ false → str_ltb c b ≡ false → str_ltb c a ≡ false
unfolding str_ltb
str_ltb_not_trans String.[] b String.[] h k = refl
str_ltb_not_trans String.[] String.[] (String.◌∷◌ z c) h k = refl
str_ltb_not_trans String.[] (String.◌∷◌ y b) (String.◌∷◌ z c) h k = refl
str_ltb_not_trans (String.◌∷◌ x a) String.[] c h k = cc
str_ltb_not_trans (String.◌∷◌ x a) (String.◌∷◌ y b) String.[] h k = cc
str_ltb_not_trans (String.◌∷◌ x a) (String.◌∷◌ y b) (String.◌∷◌ z c) h k =
    ground (arith, str_ltb_not_trans a b c)

pub str_ltb-IsWeakOrder : IsWeakOrder str_ltb
str_ltb-IsWeakOrder = record { asym = str_ltb_asym; not_less_trans = str_ltb_not_trans }

-- Two texts of which neither is less are the same text.
pub str_ltb_total : (s t : String) → str_ltb s t ≡ false → str_ltb t s ≡ false → s ≡ t
unfolding str_ltb
str_ltb_total String.[] String.[] h k = refl
str_ltb_total String.[] (String.◌∷◌ d t) h k = cc
str_ltb_total (String.◌∷◌ c s) String.[] h k = cc
str_ltb_total (String.◌∷◌ c s) (String.◌∷◌ d t) h k =
    let same : code c ≡ code d = ground arith in
    let below : s ≡ t = str_ltb_total s t (ground arith) (ground arith) in
    rw (Char-path c d same) (ap (String.◌∷◌ d) below)
