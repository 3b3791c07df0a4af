-- ===== src/Float/WithNan.antt =====
-- Numbers with NaN adjoined: if the numbers meet the laws, so do the numbers with NaN.
use pulsesyn.Prelude.{ℕ, ◌+◌, ◌<◌, ◌≡◌, refl, ap, ◌⊎◌, Bool, false, not, ◌&&◌, Option, none, some}
use pulsesyn.Float.Interface.{
  Float64, ◌⊕◌, ◌⊖◌, ◌⊗◌, ◌⊘◌, ◌≤?◌, ◌<?◌, ◌=?◌, to_float, nought, one, ◌≼◌, ◌≺◌, IsUnit, IsNan,
}
use pulsesyn.Float.Laws.{IsIeee, max_exact}
use pulsesyn.Float.Fixed.{Fixed, fixed_float, fixed-IsIeee}

module _ {F : Type 0} where
  abbrev pub lift : (F → F → F) → Option F → Option F → Option F
  lift f (some x) (some y) = some (f x y)
  lift f _ _ = none

  abbrev pub test : (F → F → Bool) → Option F → Option F → Bool
  test f (some x) (some y) = f x y
  test f _ _ = false

  abbrev pub lift_one : (F → F) → Option F → Option F
  lift_one f (some x) = some (f x)
  lift_one f none = none

-- 53 fractional bits, and NaN.
abbrev pub Num : Type 0
Num = Option Fixed

abbrev pub nan : Num
nan = none

module _ {F : Type 0} ⦃fl : Float64 F⦄ where
  instance abbrev pub with_nan : Float64 (Option F)
  with_nan = record {
    add = lift fl.add;
    sub = lift fl.sub;
    mul = lift fl.mul;
    div = lift fl.div;
    pow = lift fl.pow;
    neg = lift_one fl.neg;
    le = test fl.le;
    lt = test fl.lt;
    eq = test fl.eq;
    ratio = λ n d. some (fl.ratio n d);
  }

  module _ (laws : IsIeee F) where
    le_trans_nan : (x y z : Option F) → x ≼ y → y ≼ z → x ≼ z
    le_trans_nan (some x) (some y) (some z) h k = laws.le_trans x y z h k
    le_trans_nan _ _ _ h k = cc

    refl_of_le_nan : (x y : Option F) → x ≼ y → (x ≼ x) × (y ≼ y)
    refl_of_le_nan (some x) (some y) h = laws.refl_of_le x y h
    refl_of_le_nan _ _ h = cc

    le_total_nan : (x y : Option F) → x ≼ x → y ≼ y → (x ≼ y) ⊎ (y ≼ x)
    le_total_nan (some x) (some y) h k = laws.le_total x y h k
    le_total_nan _ _ h k = cc

    lt-eq-not-le_nan : (x y : Option F) → x ≼ x → y ≼ y → (x <? y) ≡ not (y ≤? x)
    lt-eq-not-le_nan (some x) (some y) h k = laws.lt-eq-not-le x y h k
    lt-eq-not-le_nan _ _ h k = cc

    refl_of_lt_nan : (x y : Option F) → x ≺ y → (x ≼ x) × (y ≼ y)
    refl_of_lt_nan (some x) (some y) h = laws.refl_of_lt x y h
    refl_of_lt_nan _ _ h = cc

    eq-eq-le_nan : (x y : Option F) → (x =? y) ≡ ((x ≤? y) && (y ≤? x))
    eq-eq-le_nan (some x) (some y) = laws.eq-eq-le x y
    eq-eq-le_nan (some x) none = refl
    eq-eq-le_nan none (some y) = refl
    eq-eq-le_nan none none = refl

    add_mono_nan :
        (x x' y y' : Option F) → nought ≼ x → x ≼ x' → nought ≼ y → y ≼ y' → (x ⊕ y) ≼ (x' ⊕ y')
    add_mono_nan (some x) (some x') (some y) (some y') a b c d = laws.add_mono x x' y y' a b c d
    add_mono_nan _ _ _ _ a b c d = cc

    le-add_nan : (x y : Option F) → nought ≼ x → nought ≼ y → x ≼ (x ⊕ y)
    le-add_nan (some x) (some y) a b = laws.le-add x y a b
    le-add_nan _ _ a b = cc

    add-neg-le_nan : (x y : Option F) → IsUnit x → IsUnit y → (x ⊕ with_nan.neg y) ≼ x
    add-neg-le_nan (some x) (some y) a b = laws.add-neg-le x y a b
    add-neg-le_nan none y (a, _) b = cc
    add-neg-le_nan (some x) none a (b, _) = cc

    add_count_nan :
        (n : ℕ) (x y : Option F)
        → n < max_exact
        → nought ≼ x
        → x ≼ to_float n
        → IsUnit y
        → (x ⊕ y) ≼ to_float (n + 1)
    add_count_nan n (some x) (some y) h a b c = laws.add_count n x y h a b c
    add_count_nan n none y h a b c = cc
    add_count_nan n (some x) none h a b (c, _) = cc

    mul_unit_nan :
        (x y : Option F) → IsUnit x → IsUnit y → (nought ≼ (x ⊗ y)) × ((x ⊗ y) ≼ x) × ((x ⊗ y) ≼ y)
    mul_unit_nan (some x) (some y) a b = laws.mul_unit x y a b
    mul_unit_nan none y (a, _) b = cc
    mul_unit_nan (some x) none a (b, _) = cc

    sub-IsUnit_nan : (x : Option F) → IsUnit x → IsUnit (one ⊖ x)
    sub-IsUnit_nan (some x) a = laws.sub_unit x a
    sub-IsUnit_nan none (a, _) = cc

    sub_bounds_nan :
        (x y : Option F) → IsUnit x → IsUnit y → (with_nan.neg one ≼ (x ⊖ y)) × ((x ⊖ y) ≼ one)
    sub_bounds_nan (some x) (some y) a b = laws.sub_bounds x y a b
    sub_bounds_nan none y (a, _) b = cc
    sub_bounds_nan (some x) none a (b, _) = cc

    neg_anti_nan : (x y : Option F) → x ≼ y → with_nan.neg y ≼ with_nan.neg x
    neg_anti_nan (some x) (some y) h = laws.neg_anti x y h
    neg_anti_nan _ _ h = cc

    neg-neg_nan : (x : Option F) → with_nan.neg (with_nan.neg x) ≡ x
    neg-neg_nan (some x) = ap some (laws.neg-neg x)
    neg-neg_nan none = refl

    div-IsUnit_nan :
        (x y : Option F) → nought ≼ x → x ≼ y → nought ≺ y → y ≼ to_float max_exact → IsUnit (x ⊘ y)
    div-IsUnit_nan (some x) (some y) a b c d = laws.div_unit x y a b c d
    div-IsUnit_nan _ _ a b c d = cc

    div_self_nan : (y : Option F) → nought ≺ y → y ≼ to_float max_exact → (y ⊘ y) ≡ one
    div_self_nan (some y) a b = ap some (laws.div_self y a b)
    div_self_nan none a b = cc

    pow-IsUnit_nan : (x y : Option F) → IsUnit x → nought ≼ y → IsUnit (with_nan.pow x y)
    pow-IsUnit_nan (some x) (some y) a b = laws.pow_unit x y a b
    pow-IsUnit_nan none y (a, _) b = cc
    pow-IsUnit_nan (some x) none a b = cc

    IsNan-add_left-IsNan : (x y : Option F) → IsNan x → IsNan (x ⊕ y)
    IsNan-add_left-IsNan (some x) (some y) h = laws.nan_add_left x y h
    IsNan-add_left-IsNan (some x) none h = refl
    IsNan-add_left-IsNan none y h = refl

    IsNan-add_right-IsNan : (x y : Option F) → IsNan y → IsNan (x ⊕ y)
    IsNan-add_right-IsNan (some x) (some y) h = laws.nan_add_right x y h
    IsNan-add_right-IsNan (some x) none h = refl
    IsNan-add_right-IsNan none y h = refl

    IsNan-mul_left-IsNan : (x y : Option F) → IsNan x → IsNan (x ⊗ y)
    IsNan-mul_left-IsNan (some x) (some y) h = laws.nan_mul_left x y h
    IsNan-mul_left-IsNan (some x) none h = refl
    IsNan-mul_left-IsNan none y h = refl

    IsNan-div_right-IsNan : (x y : Option F) → IsNan y → IsNan (x ⊘ y)
    IsNan-div_right-IsNan (some x) (some y) h = laws.nan_div_right x y h
    IsNan-div_right-IsNan (some x) none h = refl
    IsNan-div_right-IsNan none y h = refl

    pub with_nan-IsIeee : IsIeee (Option F)
    with_nan-IsIeee = record {
      le_trans = le_trans_nan;
      refl_of_le = refl_of_le_nan;
      le_total = le_total_nan;
      lt-eq-not-le = lt-eq-not-le_nan;
      refl_of_lt = refl_of_lt_nan;
      eq-eq-le = eq-eq-le_nan;
      ratio_le = laws.ratio_le;
      ratio_lt = laws.ratio_lt;
      div-to_float = λ n m a b c. ap some (laws.div-to_float n m a b c);
      add_mono = add_mono_nan;
      le-add = le-add_nan;
      add-neg-le = add-neg-le_nan;
      add_count = add_count_nan;
      mul_unit = mul_unit_nan;
      sub_unit = sub-IsUnit_nan;
      sub_bounds = sub_bounds_nan;
      neg_anti = neg_anti_nan;
      neg-neg = neg-neg_nan;
      le-neg-nought = laws.le-neg-nought;
      div_unit = div-IsUnit_nan;
      div_self = div_self_nan;
      pow_unit = pow-IsUnit_nan;
      nan_add_left = IsNan-add_left-IsNan;
      nan_add_right = IsNan-add_right-IsNan;
      nan_mul_left = IsNan-mul_left-IsNan;
      nan_div_right = IsNan-div_right-IsNan;
    }

pub num-IsIeee : IsIeee Num
num-IsIeee = with_nan-IsIeee fixed-IsIeee
