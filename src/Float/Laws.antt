-- ===== src/Float/Laws.antt =====
-- Laws of IEEE 754 arithmetic, for doubles that may be NaN or infinite: rounding to nearest is
-- monotone, and integers up to 2^53 are exact.
use pulsesyn.Prelude.{ℕ, ◌+◌, ◌*◌, ◌^◌, ◌≤◌, ◌<◌, ◌≡◌, ◌⊎◌, not, ◌&&◌}
use pulsesyn.Float.Interface.{
  Float64, ◌⊕◌, ◌⊖◌, ◌⊗◌, ◌⊘◌, ◌≤?◌, ◌<?◌, ◌=?◌, to_float, nought, one, ◌≼◌, ◌≺◌, IsUnit, IsNan,
}

-- Up to this integer every integer is a double.
abbrev pub max_exact : ℕ
max_exact = 2 ^ 53

pub record IsIeee (F : Type 0) ⦃fl : Float64 F⦄ : Type 0 where
  pub le_trans : (x y z : F) → x ≼ y → y ≼ z → x ≼ z
  pub refl_of_le : (x y : F) → x ≼ y → (x ≼ x) × (y ≼ y)
  pub le_total : (x y : F) → x ≼ x → y ≼ y → (x ≼ y) ⊎ (y ≼ x)
  pub lt-eq-not-le : (x y : F) → x ≼ x → y ≼ y → (x <? y) ≡ not (y ≤? x)
  pub refl_of_lt : (x y : F) → x ≺ y → (x ≼ x) × (y ≼ y)
  pub eq-eq-le : (x y : F) → (x =? y) ≡ ((x ≤? y) && (y ≤? x))
  -- The nearest doubles to two fractions are in the fractions' order, and differ if the fractions
  -- lie in [0, 1] and far enough apart.
  pub ratio_le : (a b c d : ℕ) → 0 < b → 0 < d → a * d ≤ c * b → fl.ratio a b ≼ fl.ratio c d
  pub ratio_lt :
      (a b c d : ℕ)
      → 0 < b
      → 0 < d
      → c ≤ d
      → b * d ≤ 2 ^ 52
      → a * d < c * b
      → fl.ratio a b ≺ fl.ratio c d
  -- A quotient of exact integers is rounded once.
  pub div-to_float :
      (n m : ℕ) → n ≤ max_exact → 0 < m → m ≤ max_exact → (to_float n ⊘ to_float m) ≡ fl.ratio n m
  pub add_mono : (x x' y y' : F) → nought ≼ x → x ≼ x' → nought ≼ y → y ≼ y' → (x ⊕ y) ≼ (x' ⊕ y')
  pub le-add : (x y : F) → nought ≼ x → nought ≼ y → x ≼ (x ⊕ y)
  pub add-neg-le : (x y : F) → IsUnit x → IsUnit y → (x ⊕ fl.neg y) ≼ x
  pub add_count :
      (n : ℕ) (x y : F)
      → n < max_exact
      → nought ≼ x
      → x ≼ to_float n
      → IsUnit y
      → (x ⊕ y) ≼ to_float (n + 1)
  pub mul_unit :
      (x y : F) → IsUnit x → IsUnit y → (nought ≼ (x ⊗ y)) × ((x ⊗ y) ≼ x) × ((x ⊗ y) ≼ y)
  pub sub_unit : (x : F) → IsUnit x → IsUnit (one ⊖ x)
  pub sub_bounds : (x y : F) → IsUnit x → IsUnit y → (fl.neg one ≼ (x ⊖ y)) × ((x ⊖ y) ≼ one)
  pub neg_anti : (x y : F) → x ≼ y → fl.neg y ≼ fl.neg x
  pub neg-neg : (x : F) → fl.neg (fl.neg x) ≡ x
  pub le-neg-nought : nought ≼ fl.neg nought
  pub div_unit :
      (x y : F) → nought ≼ x → x ≼ y → nought ≺ y → y ≼ to_float max_exact → IsUnit (x ⊘ y)
  pub div_self : (y : F) → nought ≺ y → y ≼ to_float max_exact → (y ⊘ y) ≡ one
  pub pow_unit : (x y : F) → IsUnit x → nought ≼ y → IsUnit (fl.pow x y)
  -- Arithmetic with NaN is NaN.
  pub nan_add_left : (x y : F) → IsNan x → IsNan (x ⊕ y)
  pub nan_add_right : (x y : F) → IsNan y → IsNan (x ⊕ y)
  pub nan_mul_left : (x y : F) → IsNan x → IsNan (x ⊗ y)
  pub nan_div_right : (x y : F) → IsNan y → IsNan (x ⊘ y)
