-- ===== src/Simulation/Averages.antt =====
-- The average of a round's votes, and the observations made with it (round.go).
use pulsesyn.Prelude.{
  ◌++◌, true, false, ok, ◌==◌, nat_beq, inl, inr, Bool-cases, refl, ◌≤◌, arith, ◌≡◌, ◌+◌, suc,
  length, List, ℕ, [], ◌∷◌,
}
use pulsesyn.Text.{codes, trim_space, is_space, text_eq}
use pulsesyn.Text.Trim.{solid-not-blank}
use pulsesyn.Float.Order.{nought_refl, add_nonneg, not-lt_of_le, ratio-IsUnit, to_float-pos}
use pulsesyn.Float.{◌⊕◌, one, max_exact, to_float, nought, IsUnit, ◌≼◌, IsIeee, Float64}
use pulsesyn.Verdict.{
  is_recognised, supported, unsupported, misleading, indeterminate, other, VerdictState,
}
use pulsesyn.Consensus.{Vote}
use pulsesyn.Bias.{validate_observation, verdict_score, score_or_zero, is_missing}
use pulsesyn.Bias.Coefficient.{score-IsUnit}
use pulsesyn.Simulation.Pool.{padded_decimal}
use pulsesyn.Simulation.Round.{generate_claim_id, population_average, sum_verdict_scores}

-- The first rune of a claim's id.
rune_s-solid : is_space 115 ≡ false
unfolding is_space
rune_s-solid = refl

generate_claim_id-not-blank : (n : ℕ) → (trim_space (generate_claim_id n) == []) ≡ false
generate_claim_id-not-blank n =
    solid-not-blank 115 (codes "im-claim-" ++ padded_decimal 6 n) rune_s-solid

module _ {F : Type 0} ⦃fl : Float64 F⦄ (laws : IsIeee F) where
  scored :
      (v : VerdictState) → is_recognised v ≡ true → is_missing {F = F} (verdict_score v) ≡ false
  scored supported h = refl
  scored unsupported h = refl
  scored misleading h = refl
  scored indeterminate h = refl
  scored (other s) h = cc

  sum_verdict_scores-le :
      (n : ℕ) (sum : F) (votes : List (Vote F))
      → n + length votes ≤ max_exact
      → nought ≼ sum
      → sum ≼ to_float n
      → (nought ≼ sum_verdict_scores sum votes)
        × (sum_verdict_scores sum votes ≼ to_float (n + length votes))
  unfolding sum_verdict_scores
  sum_verdict_scores-le n sum [] hn h k = let e : n + 0 ≡ n = omega arith in rw e (h, k)
  sum_verdict_scores-le n sum (v ∷ votes) hn h k =
      let e : n + suc (length votes) ≡ n + 1 + length votes = omega arith in
      let score = score_or_zero (verdict_score v.verdict) in
      let d = score-IsUnit laws v.verdict in
      rw e (
        sum_verdict_scores-le (n + 1) (sum ⊕ score) votes omega arith
          (add_nonneg laws sum score h d.0) (laws.add_count n sum score omega arith h k d))

  population_average-IsUnit :
      (votes : List (Vote F)) → length votes ≤ max_exact → IsUnit (population_average votes)
  unfolding population_average
  population_average-IsUnit votes hn = elim (Bool-cases (nat_beq (length votes) 0)) [
    | inl none_cast ↦ rw none_cast (ratio-IsUnit laws 1 2 omega arith omega arith)
    | inr some_cast ↦
        let n = length votes in
        let e : 0 + n ≡ n = omega arith in
        let (ge, le) =
          sum_verdict_scores-le 0 nought votes omega arith (nought_refl laws) (nought_refl laws) in
        rw some_cast (
          laws.div_unit (sum_verdict_scores nought votes) (to_float n) ge (rw e at le)
            (to_float-pos laws n ground arith)
            (laws.ratio_le n 1 max_exact 1 omega arith omega arith omega arith))
  ]

  -- The population average of up to 2^53 votes, of any verdicts, is in [0, 1], and the observation
  -- that a round makes with it of a recognised verdict breaks no rule of the bias window.
  pub observation_accepted :
      (votes : List (Vote F)) (v : VerdictState) (round_num : ℕ)
      → length votes ≤ max_exact
      → is_recognised v ≡ true
      → IsUnit (population_average votes)
        × (validate_observation (record {
          claim_id = generate_claim_id round_num;
          validator_verdict = v;
          population_average_score = population_average votes;
        })
            ≡ ok tt)
  unfolding validate_observation
  observation_accepted votes v round_num hn h =
      let (lo, hi) = population_average-IsUnit votes hn in
      (
        (lo, hi),
        rw
            (
              generate_claim_id-not-blank round_num,
              scored v h,
              not-lt_of_le laws _ nought lo,
              not-lt_of_le laws one _ hi,
            )
            refl,
      )
