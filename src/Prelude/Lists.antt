-- ===== src/Prelude/Lists.antt =====
-- Lists measured and indexed by native numbers, and predicates on their elements.
use Prim.Native.Nat.{ℕ, zero, suc, ◌+◌, ◌-◌}
use mathlib.Core.Path.{◌≡◌, refl, ap}
use mathlib.Core.Bool.{Bool, true, false, not, ◌&&◌, ◌||◌, false≢true}
use mathlib.Core.Logic.{inl, inr}
use pulsesyn.Prelude.Tests.{Eq, ◌==◌, ==_refl, eq-of-==, Bool-cases}
use mathlib.Core.List.{List, [], ◌∷◌, ◌++◌, map}
use mathlib.Core.Option.{Option, none, some}
use native.Mathlib.Omega.{arith}

module _ {ℓ} {A : Type ℓ} where
  abbrev pub length : List A → ℕ
  length [] = 0
  length (x ∷ xs) = suc (length xs)

  abbrev pub get_elem? : List A → ℕ → Option A
  get_elem? [] i = none
  get_elem? (x ∷ xs) zero = some x
  get_elem? (x ∷ xs) (suc i) = get_elem? xs i

  abbrev pub take : ℕ → List A → List A
  take zero xs = []
  take (suc n) [] = []
  take (suc n) (x ∷ xs) = x ∷ take n xs

  abbrev pub drop : ℕ → List A → List A
  drop zero xs = xs
  drop (suc n) [] = []
  drop (suc n) (x ∷ xs) = drop n xs

  abbrev pub All {κ} : (A → Type κ) → List A → Type κ
  All P [] = Unit
  All P (x ∷ xs) = P x × All P xs

module _ {ℓ} {A : Type ℓ} where
  pub length-append : (xs ys : List A) → length (xs ++ ys) ≡ length xs + length ys
  length-append [] ys = omega arith
  length-append (x ∷ xs) ys = omega (arith, length-append xs ys)

  pub length-drop : (n : ℕ) (xs : List A) → length (drop n xs) ≡ length xs - n
  length-drop zero xs = omega arith
  length-drop (suc n) [] = omega arith
  length-drop (suc n) (x ∷ xs) = omega (arith, length-drop n xs)

  pub length-map {κ} : {B : Type κ} (xs : List A) (f : A → B) → length (map f xs) ≡ length xs
  length-map [] f = refl
  length-map (x ∷ xs) f = ap suc (length-map xs f)

  pub All-append {κ} : (P : A → Type κ) (xs ys : List A) → All P xs → All P ys → All P (xs ++ ys)
  All-append P [] ys _ q = q
  All-append P (x ∷ xs) ys (p, ps) q = (p, All-append P xs ys ps q)

  pub All-drop {κ} : (P : A → Type κ) (n : ℕ) (xs : List A) → All P xs → All P (drop n xs)
  All-drop P zero xs p = p
  All-drop P (suc n) [] p = p
  All-drop P (suc n) (x ∷ xs) (_, ps) = All-drop P n xs ps

  pub All-map_of {κ λ'} :
      (P : A → Type κ) (Q : A → Type λ') (xs : List A) → ((x : A) → P x → Q x) → All P xs → All Q xs
  All-map_of P Q [] f p = tt
  All-map_of P Q (x ∷ xs) f (p, ps) = (f x p, All-map_of P Q xs f ps)

-- Membership and repetition, by the test of equality.
module _ {A : Type 0} ⦃e : Eq A⦄ where
  abbrev pub contains : A → List A → Bool
  contains x [] = false
  contains x (y ∷ ys) = y == x || contains x ys

  abbrev pub has_no_repeats : List A → Bool
  has_no_repeats [] = true
  has_no_repeats (x ∷ xs) = not (contains x xs) && has_no_repeats xs

  abbrev pub starts_with : List A → List A → Bool
  starts_with [] xs = true
  starts_with (p ∷ ps) [] = false
  starts_with (p ∷ ps) (x ∷ xs) = x == p && starts_with ps xs

  pub starts_with-append : (p xs : List A) → starts_with p (p ++ xs) ≡ true
  starts_with-append [] xs = refl
  starts_with-append (p ∷ ps) xs = rw (==_refl p, starts_with-append ps xs) refl

  pub eq-append_of_starts : (p xs : List A) → starts_with p xs ≡ true → xs ≡ p ++ drop (length p) xs
  eq-append_of_starts [] xs h = refl
  eq-append_of_starts (p ∷ ps) [] h = cc
  eq-append_of_starts (p ∷ ps) (x ∷ xs) h = elim (Bool-cases (x == p)) [
    | inl same ↦
        let rest = eq-append_of_starts ps xs (rw same at h) in
        let heads = eq-of-== x p same in λ i. heads i ∷ rest i
    | inr other ↦ absurd (false≢true (rw other at h))
  ]
