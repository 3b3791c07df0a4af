-- ===== src/Simulation/Rules.antt =====
-- Which configurations Validate accepts (config.go).
use pulsesyn.Prelude.{
  not, ◌&&◌, ◌==◌, inr, inl, Bool-cases, refl, int_lt, first_broken, arith, negsuc, false, nat_beq,
  report, ◌||◌, pos, ◌≡◌, suc, to_nat, lt_nat, ltb, List, Bool, ℤ, ℕ, [], ◌∷◌,
}
use pulsesyn.Text.{text_eq}
use pulsesyn.Float.{one, nought, ◌<?◌, Float64}
use pulsesyn.Simulation.Config.{
  collusion_verdict_unrecognised, domain_required, bias_strength_range, bias_rate_range,
  collusion_rate_range, rounds_range, set_exceeds_pool, set_size_range, pool_size_range,
  ConfigError, validate_verdict_string, Config, validate,
}
use pulsesyn.Verdict.{is_recognised}

below : (z : ℤ) (n : ℕ) → lt_nat z (suc n) ≡ ltb (to_nat z) (suc n)
below (pos m) n = refl
below (negsuc m) n = ground arith

below_one : (z : ℤ) → lt_nat z 1 ≡ nat_beq (to_nat z) 0
below_one (pos m) = ground arith
below_one (negsuc m) = refl

-- Both sizes have been found to be positive.
exceeds :
    (pool set_size : ℤ)
    → ltb (to_nat pool) 11 ≡ false
    → ltb (to_nat set_size) 3 ≡ false
    → int_lt pool set_size ≡ ltb (to_nat pool) (to_nat set_size)
exceeds (pos m) (pos n) h k = refl
exceeds (pos m) (negsuc n) h k = ground arith
exceeds (negsuc m) z h k = ground arith

module _ {F : Type 0} ⦃fl : Float64 F⦄ where
  -- Not in [0, 1]; NaN passes.
  abbrev beyond : F → Bool
  beyond x = (x <? nought) || (one <? x)

  -- The rules of a configuration, each with the error for breaking it. The verdict of colluders counts
  -- only where there are any.
  abbrev pub config_rules : Config F → List (Bool × ConfigError)
  config_rules c =
      (ltb (to_nat c.validator_pool_size) 11, pool_size_range)
      ∷ (ltb (to_nat c.validator_set_size) 3, set_size_range)
      ∷ (ltb (to_nat c.validator_pool_size) (to_nat c.validator_set_size), set_exceeds_pool)
      ∷ (nat_beq (to_nat c.rounds) 0, rounds_range)
      ∷ (beyond c.collusion_rate, collusion_rate_range)
      ∷ (beyond c.bias_rate, bias_rate_range)
      ∷ (beyond c.bias_strength, bias_strength_range)
      ∷ (c.domain == [], domain_required)
      ∷ (
        (nought <? c.collusion_rate) && not (is_recognised c.collusion_verdict),
        collusion_verdict_unrecognised,
      )
      ∷ []

  -- Validate returns the error of the first rule that the configuration breaks, and nil if it breaks none.
  pub validate_config-rules : (c : Config F) → validate c ≡ report (first_broken (config_rules c))
  unfolding validate validate_verdict_string
  validate_config-rules c =
      rw (below c.validator_pool_size 10, below c.validator_set_size 2, below_one c.rounds)
        (elim (Bool-cases (ltb (to_nat c.validator_pool_size) 11)) [
          | inl small ↦ rw small refl
          | inr large ↦ elim (Bool-cases (ltb (to_nat c.validator_set_size) 3)) [
            | inl few ↦ rw (large, few) refl
            | inr enough ↦
                let same = exceeds c.validator_pool_size c.validator_set_size large enough in
                rw (large, enough, same) ground arith
          ]
        ])
