-- ===== src/Consensus/Outcome.antt =====
-- What a result of ComputeConsensus promises: ranges, quorum and majority.
use pulsesyn.Prelude.{
  ◌⊎◌, ◌≤◌, ℤ, ◌≡◌, refl, List, [], ◌∷◌, length, All, false, true, Bool-cases, inl, inr, ok,
}
use pulsesyn.Float.{Float64, IsIeee, max_exact, ◌⊘◌, ◌=?◌, ◌<?◌, ◌≤?◌, nought, IsUnit}
use pulsesyn.Float.Order.{nought-IsUnit}
use pulsesyn.Verdict.{indeterminate, is_recognised, verdict_eq}
use pulsesyn.Consensus.Votes.{Vote, ConsensusResult}
use pulsesyn.Consensus.Compute.{
  aggregate_weights, find_winner, compute_confidence, decide_verdict, participation,
  compute_consensus, quorum_threshold, verdict_majority_threshold,
}
use pulsesyn.Consensus.Errors.{compute_consensus-eq-ok, IsAccepted}
use pulsesyn.Consensus.Weights.{
  IsNumeric, IsInRange, IsBounded, validate_vote-IsInRange, aggregate_weights-IsBounded,
}
use pulsesyn.Consensus.Winner.{find_winner_mass, compute_confidence-IsUnit}

module _ {F : Type 0} ⦃fl : Float64 F⦄ where
  -- The four branches of the decision, as two: no verdict, or the winner after all three tests.
  pub record IsDecided (votes : List (Vote F)) (rate : F) (r : ConsensusResult F) : Type 0 where
    pub winner : r.verdict ≡ (find_winner (aggregate_weights votes)).0
    pub score :
        r.confidence_score ≡ compute_confidence votes (find_winner (aggregate_weights votes)).0
    pub quorum : (rate <? quorum_threshold) ≡ false
    pub massive : ((aggregate_weights votes).total_mass =? nought) ≡ false
    pub majority :
        (((find_winner (aggregate_weights votes)).1 ⊘ (aggregate_weights votes).total_mass)
          ≤? verdict_majority_threshold)
        ≡ false

  abbrev pub IsUndecided : ConsensusResult F → Type 0
  IsUndecided r = (r.verdict ≡ indeterminate) × (r.confidence_score ≡ nought)

  pub decide_verdict_cases :
      (votes : List (Vote F)) (rate : F)
      → let r = decide_verdict votes rate in
        (r.breakdown ≡ aggregate_weights votes)
        × (r.validator_count ≡ length votes)
        × (r.participation_rate ≡ rate)
        × (IsUndecided r ⊎ IsDecided votes rate r)
  unfolding decide_verdict
  decide_verdict_cases votes rate = elim (Bool-cases (rate <? quorum_threshold)) [
    | inl q ↦ rw q (refl, refl, refl, inl (refl, refl))
    | inr q ↦ elim (Bool-cases ((aggregate_weights votes).total_mass =? nought)) [
      | inl t ↦ rw (q, t) (refl, refl, refl, inl (refl, refl))
      | inr t ↦
          elim (Bool-cases (
            ((find_winner (aggregate_weights votes)).1 ⊘ (aggregate_weights votes).total_mass)
            ≤? verdict_majority_threshold)) [
              | inl m ↦ rw (q, t, m) (refl, refl, refl, inl (refl, refl))
              | inr m ↦
                  rw (q, t, m)
                    (
                      refl,
                      refl,
                      refl,
                      inr (record {
                        winner = refl;
                        score = refl;
                        quorum = q;
                        massive = t;
                        majority = m;
                      }),
                    )
            ]
    ]
  ]

  outcome-is_recognised :
      (votes : List (Vote F)) (rate : F) (r : ConsensusResult F)
      → IsUndecided r ⊎ IsDecided votes rate r
      → is_recognised r.verdict ≡ true
  outcome-is_recognised votes rate r (inl (e, _)) = rw e
  outcome-is_recognised votes rate r (inr d) =
      rw d.winner (find_winner_mass (aggregate_weights votes)).1

  module _ (laws : IsIeee F) where
    pub All-IsInRange :
        (votes : List (Vote F)) → All IsNumeric votes → All IsAccepted votes → All IsInRange votes
    All-IsInRange [] n a = tt
    All-IsInRange (v ∷ votes) (n, ns) (a, more) =
        ((validate_vote-IsInRange laws v n a).0, All-IsInRange votes ns more)

    outcome-IsUnit :
        (votes : List (Vote F)) (rate : F) (r : ConsensusResult F)
        → IsUnit (compute_confidence votes (find_winner (aggregate_weights votes)).0)
        → IsUndecided r ⊎ IsDecided votes rate r
        → IsUnit r.confidence_score
    outcome-IsUnit votes rate r u (inl (_, e)) = rw e (nought-IsUnit laws)
    outcome-IsUnit votes rate r u (inr d) = rw d.score u

    -- If no field of a vote is NaN and there are at most 2^53 votes, every result of ComputeConsensus
    -- has a confidence score in [0, 1] and one of the four verdicts, counts all the votes, and has a
    -- breakdown whose masses lie between 0 and the total, the total being at most the number of
    -- votes. The arithmetic is that of doubles, with its rounding.
    pub compute_consensus-InRange :
        (votes : List (Vote F)) (size : ℤ) {r : ConsensusResult F}
        → All IsNumeric votes
        → length votes ≤ max_exact
        → compute_consensus votes size ≡ ok r
        → IsUnit r.confidence_score
          × (is_recognised r.verdict ≡ true)
          × (r.validator_count ≡ length votes)
          × IsBounded (length votes) r.breakdown
    compute_consensus-InRange votes size n hn h =
        let (accepted, _, e) = compute_consensus-eq-ok votes size h in
        let (b, count, _, outcome) = decide_verdict_cases votes (participation votes size) in
        let ranged = All-IsInRange votes n accepted in
        let bounded = aggregate_weights-IsBounded laws votes hn ranged in
        rw e (
          outcome-IsUnit votes _ _ (compute_confidence-IsUnit laws votes _ hn ranged) outcome,
          outcome-is_recognised votes _ _ outcome,
          count,
          rw b bounded,
        )
