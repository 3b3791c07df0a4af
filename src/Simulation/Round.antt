-- ===== src/Simulation/Round.antt =====
-- One round of a run (round.go).
use pulsesyn.Prelude.{
  ◌+◌, map, false, nat_eq, to_nat, true, ◌>>=◌, ok, ◌==◌, err, suc, length, Result, ◌++◌, ◌∷◌,
  if◌then◌else◌, Bool, List, ℕ, zero, [], ◌>>◌,
}
use pulsesyn.Text.{CaseTable, codes, Text, text_eq}
use pulsesyn.Verdict.{verdict_eq, indeterminate, misleading, supported, unsupported, VerdictState}
use pulsesyn.Float.{◌≤?◌, to_float, ◌⊘◌, ◌⊗◌, nought, one, ◌⊕◌, ◌<?◌, Float64}
use pulsesyn.Consensus.{compute_consensus, Vote}
use pulsesyn.Simulation.Pool.{
  consensus_error, bias_error, reputation_error, raise, SimValidator, index_out_of_range,
  select_validators, SimulationError, padded_decimal, Random,
}
use pulsesyn.Simulation.Config.{Config}
use pulsesyn.Bias.{
  ValidationObservation, bias_for, bias_moderate_threshold, record_observation, Tracker,
  verdict_score, score_or_zero,
}
use pulsesyn.Reputation.{apply_post_finalization_update, domain_score, VoteOutcome, ValidatorRecord}

pub record GroundTruth (F : Type 0) : Type 0 where
  pub verdict : VerdictState
  pub verdict_score : F

pub record RoundResult (F : Type 0) : Type 0 where
  pub consensus_verdict : VerdictState
  pub correct : Bool
  pub participation_rate : F
  pub validator_count : ℕ
  pub bias_detection_events : ℕ

unfoldable pub opposite_verdict : VerdictState → VerdictState
opposite_verdict supported = unsupported
opposite_verdict unsupported = supported
opposite_verdict _ = unsupported

abbrev pub generate_claim_id : ℕ → Text
generate_claim_id round_num = codes "sim-claim-" ++ padded_decimal 6 round_num

-- `pool[idx]`
abbrev pub pool_at : {A : Type 0} → List A → ℕ → Result SimulationError A
pool_at [] i = err index_out_of_range
pool_at (x ∷ xs) zero = ok x
pool_at (x ∷ xs) (suc i) = pool_at xs i

-- The validator at a place, after an assignment through its pointer.
abbrev pub pool_set : {A : Type 0} → List A → ℕ → A → List A
pool_set [] i y = []
pool_set (x ∷ xs) zero y = y ∷ xs
pool_set (x ∷ xs) (suc i) y = x ∷ pool_set xs i y

module _ {F : Type 0} ⦃fl : Float64 F⦄ where
  abbrev pub truth_of : F → GroundTruth F
  truth_of r =
      if r <? fl.ratio 40 100
      then record { verdict = supported; verdict_score = one }
      else if r <? fl.ratio 80 100
      then record { verdict = unsupported; verdict_score = nought }
      else if r <? fl.ratio 95 100
      then record { verdict = misleading; verdict_score = fl.ratio 1 2 }
      else record { verdict = indeterminate; verdict_score = fl.ratio 1 2 }

  -- `sum += verdictScores[v.Verdict]`
  unfoldable pub sum_verdict_scores : F → List (Vote F) → F
  sum_verdict_scores sum [] = sum
  sum_verdict_scores sum (v ∷ votes) =
      sum_verdict_scores (sum ⊕ score_or_zero (verdict_score v.verdict)) votes

  unfoldable pub population_average : List (Vote F) → F
  unfolding sum_verdict_scores
  population_average votes =
      if length votes == 0
      then fl.ratio 1 2
      else sum_verdict_scores nought votes ⊘ to_float (length votes)

  module _ ⦃u : CaseTable⦄ (random : Random F) (cfg : Config F) where
    unfoldable pub generate_ground_truth : random.Rand → GroundTruth F × random.Rand
    generate_ground_truth rng = let (r, rng1) = random.float64 rng in (truth_of r, rng1)

    -- The verdict and the confidence, by the kind of the validator.
    unfoldable pub opinion :
        SimValidator F → GroundTruth F → random.Rand → (VerdictState × F) × random.Rand
    unfolding opposite_verdict
    opinion sv truth rng =
        let (x, rng1) = random.float64 rng in
        let (y, rng2) = random.float64 rng1 in
        if sv.is_colluder
        then ((cfg.collusion_verdict, fl.ratio 8 10 ⊕ (x ⊗ fl.ratio 2 10)), rng1)
        else if nought <? sv.bias_direction
        then (
          (
            if x <? sv.bias_direction then opposite_verdict truth.verdict else truth.verdict,
            fl.ratio 4 10 ⊕ (y ⊗ fl.ratio 4 10),
          ),
          rng2,
        )
        else ((truth.verdict, fl.ratio 4 10 ⊕ (x ⊗ fl.ratio 5 10)), rng1)

    unfoldable pub build_vote : SimValidator F → GroundTruth F → random.Rand → Vote F × random.Rand
    unfolding opinion
    build_vote sv truth rng =
        let ((verdict, confidence), rng1) = opinion sv truth rng in
        (
          record {
            validator_id = sv.sim_record.validator_id;
            verdict = verdict;
            confidence = confidence;
            domain_reputation = domain_score sv.sim_record cfg.domain;
            bias_coefficient = sv.bias_direction;
            validator_set_size = cfg.validator_set_size;
          },
          rng1,
        )

    -- The loop over the selected places: each with its vote.
    unfoldable pub build_votes :
        List (SimValidator F)
        → GroundTruth F
        → List ℕ
        → random.Rand
        → Result SimulationError (List (ℕ × Vote F) × random.Rand)
    unfolding build_vote
    build_votes pool truth [] rng = ok ([], rng)
    build_votes pool truth (i ∷ selected) rng = do
      sv ← pool_at pool i
      let (v, rng1) = build_vote sv truth rng
      rest ← build_votes pool truth selected rng1
      ok ((i, v) ∷ rest.0, rest.1)

    abbrev pub outcome_of : ValidatorRecord F → GroundTruth F → Vote F → VoteOutcome F
    outcome_of r truth v = record {
      validator_id = r.validator_id;
      domain = cfg.domain;
      was_correct = v.verdict == truth.verdict;
      confidence = v.confidence;
      participated = true;
      was_late = false;
    }

    -- `selected[i].record = updated`, for each vote in turn
    unfoldable pub update_records :
        List (SimValidator F)
        → GroundTruth F
        → List (ℕ × Vote F)
        → Result SimulationError (List (SimValidator F))
    update_records pool truth [] = ok pool
    update_records pool truth ((i, v) ∷ votes) = do
      sv ← pool_at pool i
      updated ←
          raise reputation_error
            (apply_post_finalization_update sv.sim_record (outcome_of sv.sim_record truth v))
      update_records (pool_set pool i (record sv { sim_record = updated.0 })) truth votes

    -- The bias observations, and the count of validators above the moderate threshold.
    unfoldable pub record_votes :
        List (SimValidator F)
        → Text
        → F
        → Tracker F
        → List (ℕ × Vote F)
        → Result SimulationError (Tracker F × ℕ)
    record_votes pool claim_id average tracker [] = ok (tracker, 0)
    record_votes pool claim_id average tracker ((i, v) ∷ votes) = do
      sv ← pool_at pool i
      let id = sv.sim_record.validator_id
      let observation : ValidationObservation F = record {
        claim_id = claim_id;
        validator_verdict = v.verdict;
        population_average_score = average;
      }
      let (tracker', result) = record_observation tracker id cfg.domain observation
      raise bias_error result
      let biased = bias_moderate_threshold ≤? (bias_for tracker' id cfg.domain).coefficient
      rest ← record_votes pool claim_id average tracker' votes
      ok (rest.0, if biased then rest.1 + 1 else rest.1)

    -- The result, and the pool, the tracker and the random source after the round.
    unfoldable pub simulate_round :
        List (SimValidator F)
        → Tracker F
        → random.Rand
        → ℕ
        → Result SimulationError
            (RoundResult F × (List (SimValidator F) × (Tracker F × random.Rand)))
    unfolding generate_ground_truth select_validators
    simulate_round pool tracker rng round_num = do
      let (truth, rng1) = generate_ground_truth rng
      let (selected, rng2) = select_validators random pool (to_nat cfg.validator_set_size) rng1
      built ← build_votes pool truth selected rng2
      let votes = map (λ p. p.1) built.0
      result ← raise consensus_error (compute_consensus votes cfg.validator_set_size)
      pool' ← update_records pool truth built.0
      recorded ←
          record_votes pool' (generate_claim_id round_num) (population_average votes) tracker
            built.0
      ok (
        record {
          consensus_verdict = result.verdict;
          correct = result.verdict == truth.verdict;
          participation_rate = result.participation_rate;
          validator_count = result.validator_count;
          bias_detection_events = recorded.1;
        },
        (pool', (recorded.0, built.1)),
      )
