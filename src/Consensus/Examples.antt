-- ===== src/Consensus/Examples.antt =====
-- The theorems on core/consensus at concrete votes, and tests.
use pulsesyn.Prelude.{
  ltb, refl, ◌≢◌, ◌↔◌, ok, err, true, arith, ◌≡◌, pos, ◌≤◌, ◌*◌, All, ℕ, List, [], ◌∷◌,
}
use pulsesyn.Float.WithNan.{Num, nan, num-IsIeee, with_nan}
use pulsesyn.Float.Fixed.{fixed_float}
use pulsesyn.Consensus.Votes.{
  InvalidVote, id_empty, invalid_vote, no_votes, validate_vote, ConsensusResult, Vote,
}
use pulsesyn.Consensus.Compute.{
  quorum_threshold, compute_confidence, find_winner, aggregate_weights, validate_votes,
  participation, decide_verdict, compute_consensus,
}
use pulsesyn.Text.{codes, Text}
use pulsesyn.Float.{nought, ◌<?◌, IsUnit}
use pulsesyn.Consensus.Weights.{IsBounded, IsNumeric}
use pulsesyn.Verdict.{
  indeterminate, other, verdict_beq, misleading, supported, unsupported, is_recognised,
  VerdictState,
}
use pulsesyn.Consensus.Majority.{quorum_exact, compute_consensus-IsMajority, IsMajority}
use pulsesyn.Consensus.Outcome.{compute_consensus-InRange}
use pulsesyn.Consensus.Errors.{compute_consensus_errors, IsAccepted, IsFirstInvalid}
use pulsesyn.Consensus.Declared.{IsHeaviest, heaviest_declared}
use pulsesyn.Consensus.Nan.{nan_vote_declares}
use pulsesyn.Consensus.Unanimity.{unanimous_declared}
use pulsesyn.Consensus.Winner.{mass_of}
use pulsesyn.Consensus.Masses.{aggregate_weights_masses, sum_weights}

abbrev cast : Text → VerdictState → Num → Vote Num
cast id verdict confidence = record {
  validator_id = id;
  verdict = verdict;
  confidence = confidence;
  domain_reputation = with_nan.ratio 8 10;
  bias_coefficient = with_nan.ratio 1 10;
  validator_set_size = pos 3;
}

abbrev agreed : List (Vote Num)
agreed =
    cast (codes "a") misleading (with_nan.ratio 9 10)
    ∷ cast (codes "b") misleading (with_nan.ratio 6 10)
    ∷ []

abbrev mixed : List (Vote Num)
mixed = cast (codes "c") unsupported (with_nan.ratio 7 10) ∷ agreed

abbrev spoilt : List (Vote Num)
spoilt = cast (codes "d") supported nan ∷ mixed

abbrev blank : List (Vote Num)
blank =
    cast (codes "a") misleading (with_nan.ratio 9 10)
    ∷ cast [] misleading (with_nan.ratio 9 10)
    ∷ []

mixed_result : ConsensusResult Num
mixed_result = decide_verdict mixed (participation mixed (pos 3))

mixed_verdict : mixed_result.verdict ≡ misleading
unfolding mixed_result decide_verdict participation aggregate_weights find_winner compute_confidence
mixed_verdict = refl

mixed_returned : compute_consensus mixed (pos 3) ≡ ok mixed_result
unfolding mixed_result compute_consensus validate_votes validate_vote
mixed_returned = refl

numeric : All IsNumeric mixed
numeric = ground arith

compute_consensus_errors_example :
    ((compute_consensus blank (pos 3) ≡ err no_votes) ↔ (blank ≡ []))
    × ((i : ℕ) (reason : InvalidVote)
        → (compute_consensus blank (pos 3) ≡ err (invalid_vote i reason))
          ↔ IsFirstInvalid blank i reason)
    × (((r : ConsensusResult Num) × (compute_consensus blank (pos 3) ≡ ok r))
        ↔ ((blank ≢ []) × All IsAccepted blank))
compute_consensus_errors_example = compute_consensus_errors blank (pos 3)

blank_rejected : compute_consensus blank (pos 3) ≡ err (invalid_vote 1 id_empty)
unfolding compute_consensus validate_votes validate_vote
blank_rejected = refl

compute_consensus-InRange_example :
    IsUnit mixed_result.confidence_score
    × (is_recognised mixed_result.verdict ≡ true)
    × (mixed_result.validator_count ≡ 3)
    × IsBounded 3 mixed_result.breakdown
compute_consensus-InRange_example =
    compute_consensus-InRange num-IsIeee mixed (pos 3) numeric (omega arith) mixed_returned

compute_consensus-IsMajority_example :
    (2 * 3 ≤ 3 * 3) × IsMajority num-IsIeee mixed_result.breakdown mixed_result.verdict
compute_consensus-IsMajority_example =
    compute_consensus-IsMajority num-IsIeee mixed (pos 3) numeric (omega arith) (omega arith)
      mixed_returned (λ e. cc mixed_verdict)

quorum_exact_example : (participation agreed (pos 3) <? quorum_threshold) ≡ ltb (3 * 2) (2 * 3)
quorum_exact_example = quorum_exact num-IsIeee agreed (pos 3) (λ e. cc) (omega arith) (omega arith)

aggregate_weights_masses_example :
    (mass_of misleading (aggregate_weights mixed) ≡ sum_weights nought agreed)
    × ((aggregate_weights mixed).total_mass ≡ sum_weights nought mixed)
unfolding verdict_beq
aggregate_weights_masses_example = aggregate_weights_masses mixed misleading refl

unanimous_declared_example :
    (r : ConsensusResult Num) × (compute_consensus agreed (pos 3) ≡ ok r) × (r.verdict ≡ misleading)
unfolding validate_vote aggregate_weights
unanimous_declared_example =
    unanimous_declared num-IsIeee agreed (pos 3) misleading (refl, (refl, tt)) refl (λ e. cc)
      (ground arith) (refl, (refl, tt)) (omega arith) (omega arith) (omega arith) refl

mixed-IsHeaviest : IsHeaviest num-IsIeee misleading (aggregate_weights mixed)
unfolding aggregate_weights
mixed-IsHeaviest supported h ne = refl
mixed-IsHeaviest unsupported h ne = refl
mixed-IsHeaviest misleading h ne = absurd (ne refl)
mixed-IsHeaviest indeterminate h ne = refl
mixed-IsHeaviest (other s) h ne = cc

heaviest_declared_example :
    (r : ConsensusResult Num) × (compute_consensus mixed (pos 3) ≡ ok r)
    × (r.verdict ≡ misleading)
    × (r.confidence_score ≡ compute_confidence mixed misleading)
unfolding validate_vote aggregate_weights
heaviest_declared_example =
    heaviest_declared num-IsIeee mixed (pos 3) misleading (λ e. cc) numeric
      (refl, (refl, (refl, tt))) (omega arith) (omega arith) (omega arith) refl mixed-IsHeaviest
      refl

nan_vote_declares_example :
    (r : ConsensusResult Num) × (compute_consensus spoilt (pos 4) ≡ ok r) × (r.verdict ≡ supported)
unfolding validate_vote participation
nan_vote_declares_example =
    nan_vote_declares num-IsIeee spoilt (pos 4) 0 (cast (codes "d") supported nan)
      (refl, (refl, (refl, (refl, tt)))) refl refl refl refl
