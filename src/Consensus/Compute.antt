-- ===== src/Consensus/Compute.antt =====
-- ComputeConsensus and its helpers.
use mathlib.Core.List.{foldl}
use pulsesyn.Prelude.{
  ℕ, ◌+◌, ℤ, List, [], ◌∷◌, Result, ok, err, ◌>>◌, ◌==◌, if◌then◌else◌, length, le_nat, to_nat,
}
use pulsesyn.Verdict.{
  VerdictState, supported, unsupported, misleading, indeterminate, other, verdict_eq,
}
use pulsesyn.Float.{Float64, ◌⊕◌, ◌⊖◌, ◌⊗◌, ◌⊘◌, ◌<?◌, ◌≤?◌, ◌=?◌, nought, one, to_float}
use pulsesyn.Consensus.Votes.{
  Vote, VerdictBreakdown, ConsensusResult, ConsensusError, no_votes, invalid_vote, validate_vote,
}

module _ {F : Type 0} ⦃fl : Float64 F⦄ where
  -- QuorumThreshold and VerdictMajorityThreshold
  abbrev pub quorum_threshold : F
  quorum_threshold = fl.ratio 2 3

  abbrev pub verdict_majority_threshold : F
  verdict_majority_threshold = fl.ratio 1 2

  unfoldable pub adjusted_weight : Vote F → F
  adjusted_weight v = v.confidence ⊗ v.domain_reputation ⊗ (one ⊖ v.bias_coefficient)

  abbrev pub empty_breakdown : VerdictBreakdown F
  empty_breakdown = record {
    supported = nought;
    unsupported = nought;
    misleading = nought;
    indeterminate = nought;
    total_mass = nought;
  }

  -- the `switch` on the verdict
  abbrev add_mass : VerdictState → F → VerdictBreakdown F → VerdictBreakdown F
  add_mass supported w b = record b { supported = b.supported ⊕ w }
  add_mass unsupported w b = record b { unsupported = b.unsupported ⊕ w }
  add_mass misleading w b = record b { misleading = b.misleading ⊕ w }
  add_mass indeterminate w b = record b { indeterminate = b.indeterminate ⊕ w }
  add_mass (other s) w b = b

  abbrev pub add_weight : VerdictState → F → VerdictBreakdown F → VerdictBreakdown F
  add_weight verdict w b =
      let b' = add_mass verdict w b in record b' { total_mass = b'.total_mass ⊕ w }

  abbrev pub add_vote : VerdictBreakdown F → Vote F → VerdictBreakdown F
  add_vote b v = add_weight v.verdict (adjusted_weight v) b

  unfoldable pub aggregate_from : VerdictBreakdown F → List (Vote F) → VerdictBreakdown F
  aggregate_from b [] = b
  aggregate_from b (v ∷ votes) = aggregate_from (add_vote b v) votes

  unfoldable pub aggregate_weights : List (Vote F) → VerdictBreakdown F
  unfolding aggregate_from adjusted_weight
  aggregate_weights votes = aggregate_from empty_breakdown votes

  abbrev pub heavier : VerdictState × F → VerdictState × F → VerdictState × F
  heavier winner c = if winner.1 <? c.1 then c else winner

  unfoldable pub find_winner : VerdictBreakdown F → VerdictState × F
  find_winner b =
      foldl heavier (supported, b.supported)
        ((unsupported, b.unsupported)
          ∷ (misleading, b.misleading)
          ∷ (indeterminate, b.indeterminate)
          ∷ [])

  -- The loop of computeConfidence: `weightedConfidenceSum` and `weightSum`.
  unfoldable pub confidence_sums : VerdictState → F → F → List (Vote F) → F × F
  confidence_sums winner c w [] = (c, w)
  confidence_sums winner c w (v ∷ votes) =
      let a = adjusted_weight v in
      let counts = v.verdict == winner in
      confidence_sums winner (if counts then c ⊕ v.confidence ⊗ a else c)
        (if counts then w ⊕ a else w) votes

  unfoldable pub compute_confidence : List (Vote F) → VerdictState → F
  unfolding confidence_sums adjusted_weight
  compute_confidence votes winner =
      let (c, w) = confidence_sums winner nought nought votes in
      if w =? nought then nought else c ⊘ w

  unfoldable pub validate_votes : ℕ → List (Vote F) → Result ConsensusError (Unit {0})
  validate_votes i [] = ok tt
  validate_votes i (v ∷ votes) = elim (validate_vote v) [
    | ok u ↦ validate_votes (i + 1) votes
    | err reason ↦ err (invalid_vote i reason)
  ]

  -- A size that is not positive is replaced by the number of votes.
  abbrev pub effective_size : List (Vote F) → ℤ → ℕ
  effective_size votes size = if le_nat size 0 then length votes else to_nat size

  -- The result with VerdictIndeterminate.
  abbrev pub undecided : List (Vote F) → F → ConsensusResult F
  undecided votes rate = record {
    verdict = indeterminate;
    confidence_score = nought;
    breakdown = aggregate_weights votes;
    participation_rate = rate;
    validator_count = length votes;
  }

  -- What follows the validation of the votes.
  unfoldable pub decide_verdict : List (Vote F) → F → ConsensusResult F
  decide_verdict votes rate =
      let breakdown = aggregate_weights votes in
      let (winner, winner_mass) = find_winner breakdown in
      if rate <? quorum_threshold
      then undecided votes rate
      else if breakdown.total_mass =? nought
      then undecided votes rate
      else if (winner_mass ⊘ breakdown.total_mass) ≤? verdict_majority_threshold
      then undecided votes rate
      else record {
        verdict = winner;
        confidence_score = compute_confidence votes winner;
        breakdown = breakdown;
        participation_rate = rate;
        validator_count = length votes;
      }

  unfoldable pub participation : List (Vote F) → ℤ → F
  participation votes size = to_float (length votes) ⊘ to_float (effective_size votes size)

  unfoldable pub compute_consensus : List (Vote F) → ℤ → Result ConsensusError (ConsensusResult F)
  compute_consensus [] size = err no_votes
  compute_consensus votes size = do
    validate_votes 0 votes
    ok (decide_verdict votes (participation votes size))
