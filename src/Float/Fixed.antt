-- ===== src/Float/Fixed.antt =====
-- Numbers in fixed point with 53 fractional bits, in two parts: `plus` - `minus`. They meet the laws,
-- so the laws can hold together, and they run in tests.
use Prim.Native.Nat.{◌/◌}
use pulsesyn.Prelude.{
  ℕ, zero, suc, ◌+◌, ◌-◌, ◌*◌, ◌^◌, ◌≤◌, ◌<◌, ◌≡◌, refl, Bool, not, ◌&&◌, arith, leb,
}
use native.Mathlib.Nat.{
  mul-le-mul_left, mul-le-mul_right, le_of_mul-le-mul_right, div-mul-le_self, le-div_iff_mul-le,
  div-le_of_le-mul, mul-div-mul_right, mul-div_cancel_left,
}
use pulsesyn.Float.Interface.{Float64}
use pulsesyn.Float.Laws.{IsIeee}

pub record Fixed : Type 0 where
  pub plus : ℕ
  pub minus : ℕ

abbrev pub scale : ℕ
scale = 2 ^ 53

-- The number if it is positive, and 0 otherwise.
abbrev above : Fixed → ℕ
above x = x.plus - x.minus

abbrev below : Fixed → ℕ
below x = x.minus - x.plus

abbrev fixed_le : Fixed → Fixed → Bool
fixed_le x y = leb (x.plus + y.minus) (y.plus + x.minus)

unfoldable pub fixed_pow : ℕ → ℕ → ℕ
fixed_pow b zero = scale
fixed_pow b (suc n) = b * fixed_pow b n / scale

-- Quotients of the scaled numerators keep the order of two fractions.
cross_le : (a b c d s : ℕ) → 0 < b → 0 < d → a * d ≤ c * b → a * s / b ≤ c * s / d
cross_le a b c d s hb hd h = (le-div_iff_mul-le hd).1 (le_of_mul-le-mul_right {k = b} step hb)
  where
    step : a * s / b * d * b ≤ c * s * b
    step = omega (arith, mul-le-mul_right d (div-mul-le_self (a * s) b), mul-le-mul_right s h)

cross_lt : (a b c d s : ℕ) → 0 < b → 0 < d → b * d ≤ s → a * d < c * b → a * s / b < c * s / d
cross_lt a b c d s hb hd hs h = (le-div_iff_mul-le hd).1 (le_of_mul-le-mul_right {k = b} step hb)
  where
    step : suc (a * s / b) * d * b ≤ c * s * b
    step = omega (arith, mul-le-mul_right d (div-mul-le_self (a * s) b), mul-le-mul_right s h)

-- A product of two numbers in [0, 1].
scaled_mul_le : (s m n : ℕ) → m ≤ s → n ≤ s → (m * n / s ≤ m) × (m * n / s ≤ n)
scaled_mul_le s m n h k = (
  div-le_of_le-mul s (omega (arith, mul-le-mul_left m k)),
  div-le_of_le-mul s (omega (arith, mul-le-mul_right n h)),
)

scaled_div_le : (s m n : ℕ) → m ≤ n → m * s / n ≤ s
scaled_div_le s m n h = div-le_of_le-mul n (mul-le-mul_right s h)

zero_mul-div : (n m k : ℕ) → n ≡ 0 → n * m / k ≡ 0
zero_mul-div n m k h = ground (arith)

instance abbrev pub fixed_float : Float64 Fixed
fixed_float = record {
  add = λ x y. record { plus = x.plus + y.plus; minus = x.minus + y.minus };
  sub = λ x y. record { plus = x.plus + y.minus; minus = x.minus + y.plus };
  mul = λ x y. record {
    plus = above x * above y / scale + below x * below y / scale;
    minus = above x * below y / scale + below x * above y / scale;
  };
  div = λ x y. record {
    plus = above x * scale / above y + below x * scale / below y;
    minus = above x * scale / below y + below x * scale / above y;
  };
  pow = λ x y. record { plus = fixed_pow (above x) (above y / scale); minus = 0 };
  neg = λ x. record { plus = x.minus; minus = x.plus };
  le = fixed_le;
  lt = λ x y. not (fixed_le y x);
  eq = λ x y. fixed_le x y && fixed_le y x;
  ratio = λ n d. record { plus = n * scale / d; minus = 0 };
}

fixed_pow-le : (b n : ℕ) → b ≤ scale → fixed_pow b n ≤ scale
unfolding fixed_pow
fixed_pow-le b zero h = omega arith
fixed_pow-le b (suc n) h =
    omega (arith, (scaled_mul_le scale b (fixed_pow b n) h (fixed_pow-le b n h)).0)

pub fixed-IsIeee : IsIeee Fixed
unfolding fixed_pow
fixed-IsIeee = record {
  le_trans = λ x y z h k. ground arith;
  refl_of_le = λ x y h. ground arith;
  le_total = λ x y h k. ground arith;
  lt-eq-not-le = λ x y h k. refl;
  refl_of_lt = λ x y h. ground arith;
  eq-eq-le = λ x y. refl;
  ratio_le = λ a b c d hb hd h. ground (arith, cross_le a b c d scale hb hd h);
  ratio_lt = λ a b c d hb hd hc hbd h. ground (arith, cross_lt a b c d scale hb hd (omega arith) h);
  div-to_float = λ n m hn hm hm'. ground (
    arith,
    mul-div-mul_right {m = scale} (n * scale) m (omega arith),
    zero_mul-div (0 - n * scale / 1) scale (0 - m * scale / 1) (omega arith),
    zero_mul-div (0 - n * scale / 1) scale (m * scale / 1 - 0) (omega arith),
  );
  add_mono = λ x x' y y' h1 h2 h3 h4. ground arith;
  le-add = λ x y h1 h2. ground arith;
  add-neg-le = λ x y h1 h2. ground arith;
  add_count = λ n x y hn h1 h2 h3. ground arith;
  mul_unit = λ x y h1 h2. ground (
    arith,
    scaled_mul_le scale (above x) (above y) (ground arith) (ground arith),
    zero_mul-div (below x) (below y) scale (ground arith),
    zero_mul-div (below x) (above y) scale (ground arith),
    zero_mul-div (below y) (above x) scale (ground arith),
  );
  sub_unit = λ x h. ground arith;
  sub_bounds = λ x y h1 h2. ground arith;
  neg_anti = λ x y h. ground arith;
  neg-neg = λ x. refl;
  le-neg-nought = refl;
  div_unit = λ x y h1 h2 h3 h4. ground (
    arith,
    scaled_div_le scale (above x) (above y) (ground arith),
    zero_mul-div (below x) scale (below y) (ground arith),
    zero_mul-div (below x) scale (above y) (ground arith),
  );
  div_self = λ y h1 h2. ground (
    arith,
    mul-div_cancel_left scale {n = above y} (ground arith),
    zero_mul-div (below y) scale (below y) (ground arith),
    zero_mul-div (below y) scale (above y) (ground arith),
  );
  pow_unit = λ x y h1 h2. ground (arith, fixed_pow-le (above x) (above y / scale) (ground arith));
  nan_add_left = λ x y h. ground arith;
  nan_add_right = λ x y h. ground arith;
  nan_mul_left = λ x y h. ground arith;
  nan_div_right = λ x y h. ground arith;
}
