-- ===== src/Float/Order.antt =====
-- What follows from the laws of IEEE arithmetic alone.
use pulsesyn.Prelude.{ℕ, ◌≤◌, ◌<◌, ◌≡◌, false, arith}
use pulsesyn.Float.Interface.{Float64, ◌⊕◌, ◌≤?◌, ◌<?◌, ◌=?◌, nought, one, ◌≼◌, ◌≺◌, IsUnit}
use pulsesyn.Float.Laws.{IsIeee}
use pulsesyn.Float.{to_float}

module _ {F : Type 0} ⦃fl : Float64 F⦄ (laws : IsIeee F) where
  open laws use {
    le_trans, refl_of_le, le_total, lt-eq-not-le, refl_of_lt, eq-eq-le, ratio_le, ratio_lt,
    add_mono, le-add,
  }

  pub nought_refl : ◌≼◌ {F = F} nought nought
  nought_refl = ratio_le 0 1 0 1 (omega arith) (omega arith) (omega arith)

  pub one_refl : ◌≼◌ {F = F} one one
  one_refl = ratio_le 1 1 1 1 (omega arith) (omega arith) (omega arith)

  pub nought-IsUnit : IsUnit {F = F} nought
  nought-IsUnit = (nought_refl, ratio_le 0 1 1 1 (omega arith) (omega arith) (omega arith))

  -- A constant between 0 and 1.
  pub ratio-IsUnit : (a b : ℕ) → 0 < b → a ≤ b → IsUnit (fl.ratio a b)
  ratio-IsUnit a b hb h = (
    ratio_le 0 1 a b (omega arith) hb (omega arith),
    ratio_le a b 1 1 hb (omega arith) (omega arith),
  )

  pub le_of_lt : (x y : F) → x ≺ y → x ≼ y
  le_of_lt x y h =
      let (hx, hy) = refl_of_lt x y h in ground (arith, lt-eq-not-le x y hx hy, le_total x y hx hy)

  pub not-le_of_lt : (x y : F) → x ≺ y → (y ≤? x) ≡ false
  not-le_of_lt x y h = let (hx, hy) = refl_of_lt x y h in ground (arith, lt-eq-not-le x y hx hy)

  pub le_of_not-lt : (x y : F) → x ≼ x → y ≼ y → (x <? y) ≡ false → y ≼ x
  le_of_not-lt x y hx hy h = ground (arith, lt-eq-not-le x y hx hy)

  pub not-lt_of_le : (x y : F) → y ≼ x → (x <? y) ≡ false
  not-lt_of_le x y h = let (hy, hx) = refl_of_le y x h in ground (arith, lt-eq-not-le x y hx hy)

  pub lt_of_lt_of_le : (x y z : F) → x ≺ y → y ≼ z → x ≺ z
  lt_of_lt_of_le x y z h k =
      let (hx, hy) = refl_of_lt x y h in
      let (_, hz) = refl_of_le y z k in
      ground
        (arith, lt-eq-not-le x y hx hy, lt-eq-not-le x z hx hz, λ (p : z ≼ x). le_trans y z x k p)

  pub lt_of_le_of_lt : (x y z : F) → x ≼ y → y ≺ z → x ≺ z
  lt_of_le_of_lt x y z h k =
      let (hy, hz) = refl_of_lt y z k in
      let (hx, _) = refl_of_le x y h in
      ground
        (arith, lt-eq-not-le y z hy hz, lt-eq-not-le x z hx hz, λ (p : z ≼ x). le_trans z x y p h)

  -- A number that is not `==` 0 and not below it is above it.
  pub pos_of_ne : (x : F) → nought ≼ x → (x =? nought) ≡ false → nought ≺ x
  pos_of_ne x h k =
      let (h0, hx) = refl_of_le nought x h in
      ground (arith, lt-eq-not-le nought x h0 hx, eq-eq-le x nought)

  pub add_nonneg : (x y : F) → nought ≼ x → nought ≼ y → nought ≼ (x ⊕ y)
  add_nonneg x y hx hy = le_trans nought x (x ⊕ y) hx (le-add x y hx hy)

  -- The test `v < 0.0 || v > 1.0` refuses what is outside [0.0, 1.0], and lets NaN pass.
  pub IsUnit-of_tests : (x : F) → x ≼ x → (x <? nought) ≡ false → (one <? x) ≡ false → IsUnit x
  IsUnit-of_tests x hx h k =
      (le_of_not-lt x nought hx nought_refl h, le_of_not-lt one x one_refl hx k)

  pub to_float-pos : (n : ℕ) → 0 < n → ◌≺◌ {F = F} nought (to_float n)
  to_float-pos n h =
      lt_of_lt_of_le nought one (to_float n)
        (ratio_lt 0 1 1 1 (omega arith) (omega arith) (omega arith) (omega arith) (omega arith))
        (ratio_le 1 1 n 1 (omega arith) (omega arith) (omega arith))
