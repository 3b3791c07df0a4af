-- ===== src/Float/Interface.antt =====
-- The operations on `float64` that the program uses. A constant expression is exact before it is
-- rounded, so every constant is the double that is nearest to a fraction.
use pulsesyn.Prelude.{ℕ, ◌≡◌, Bool, true, false}

pub record Float64 (F : Type 0) : Type 0 where
  pub add : F → F → F
  pub sub : F → F → F
  pub mul : F → F → F
  pub div : F → F → F
  -- `math.Pow`
  pub pow : F → F → F
  pub neg : F → F
  -- `<=`, `<` and `==`, which are false of NaN
  pub le : F → F → Bool
  pub lt : F → F → Bool
  pub eq : F → F → Bool
  -- the double nearest to a / b
  pub ratio : ℕ → ℕ → F

module _ {F : Type 0} ⦃fl : Float64 F⦄ where
  infixl 65 ◌⊕◌ ◌⊖◌
  infixl 70 ◌⊗◌ ◌⊘◌
  abbrev pub ◌⊕◌ : F → F → F
  ◌⊕◌ = fl.add

  abbrev pub ◌⊖◌ : F → F → F
  ◌⊖◌ = fl.sub

  abbrev pub ◌⊗◌ : F → F → F
  ◌⊗◌ = fl.mul

  abbrev pub ◌⊘◌ : F → F → F
  ◌⊘◌ = fl.div

  infix 50 ◌≤?◌ ◌<?◌ ◌=?◌
  abbrev pub ◌≤?◌ : F → F → Bool
  ◌≤?◌ = fl.le

  abbrev pub ◌<?◌ : F → F → Bool
  ◌<?◌ = fl.lt

  abbrev pub ◌=?◌ : F → F → Bool
  ◌=?◌ = fl.eq

  -- `float64(n)`
  abbrev pub to_float : ℕ → F
  to_float n = fl.ratio n 1

  abbrev pub nought : F
  nought = fl.ratio 0 1

  abbrev pub one : F
  one = fl.ratio 1 1

  infix 50 ◌≼◌ ◌≺◌
  abbrev pub ◌≼◌ : F → F → Type 0
  x ≼ y = (x ≤? y) ≡ true

  abbrev pub ◌≺◌ : F → F → Type 0
  x ≺ y = (x <? y) ≡ true

  -- A number of the range [0.0, 1.0], so not NaN.
  abbrev pub IsUnit : F → Type 0
  IsUnit x = (nought ≼ x) × (x ≼ one)

  -- NaN is the value that is not `<=` itself.
  abbrev pub IsNan : F → Type 0
  IsNan x = (x ≤? x) ≡ false
