-- ===== src/Prelude/Real.antt =====
-- float64: the operations that the source applies to it, and the order of the values other than NaN.
use mathlib.Core.Path.{◌≡◌}
use mathlib.Core.Logic.{◌↔◌}
use mathlib.Core.Bool.{Bool, true, false}
use Prim.Native.Nat.{ℕ}
use gluetun_proton_list_upda.Prelude.Sort.{IsWeakOrderOn}

pub record Float (F : Type 0) : Type 0 where
  pub naught : F
  pub unit : F
  pub infinity : F
  pub neg_infinity : F
  pub of_nat : ℕ → F
  pub add : F → F → F
  pub sub : F → F → F
  pub mul : F → F → F
  pub div : F → F → F
  pub lt : F → F → Bool
  pub le : F → F → Bool
  pub eq : F → F → Bool
  pub is_nan : F → Bool
  -- `time.Duration(x)`
  pub truncate : F → ℕ

abbrev pub IsNumber : {F : Type 0} → Float F → F → Type 0
IsNumber fl a = fl.is_nan a ≡ false

-- IEEE 754 comparison of values other than NaN: `<` is a weak order, and two values are equal when
-- neither is less.
pub record IsOrdered {F : Type 0} (fl : Float F) : Type 0 where
  pub weak_order : IsWeakOrderOn (IsNumber fl) fl.lt
  pub eq_iff :
      (a b : F)
      → IsNumber fl a
      → IsNumber fl b
      → (fl.eq a b ≡ true) ↔ ((fl.lt a b ≡ false) × (fl.lt b a ≡ false))
