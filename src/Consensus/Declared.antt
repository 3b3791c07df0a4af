-- ===== src/Consensus/Declared.antt =====
-- When ComputeConsensus must declare a verdict.
use pulsesyn.Prelude.{
  ne-of-==, inr, eq-of-==, inl, ◌&&◌, arith, false, ap, ◌∙◌, ok, length, All, ◌==◌, true,
  Bool-cases, ◌≢◌, ◌≡◌, ℤ, ℕ, ◌*◌, ◌^◌, ◌≤◌, List, [],
}
use pulsesyn.Float.{◌≤?◌, ◌=?◌, ◌<?◌, ◌⊘◌, nought, max_exact, ◌≺◌, IsIeee, Float64}
use pulsesyn.Verdict.{verdict_eq, is_recognised, VerdictState}
use pulsesyn.Consensus.Votes.{ConsensusResult, Vote, VerdictBreakdown}
use pulsesyn.Consensus.Compute.{
  quorum_threshold, participation, compute_confidence, compute_consensus,
  verdict_majority_threshold, aggregate_weights, effective_size, find_winner, decide_verdict,
}
use pulsesyn.Consensus.Weights.{aggregate_weights-IsBounded, IsNumeric, IsBounded}
use pulsesyn.Consensus.Winner.{find_winner_max, find_winner_mass, mass_of}
use pulsesyn.Consensus.Errors.{compute_consensus_ok, IsAccepted}
use pulsesyn.Consensus.Outcome.{All-IsInRange}
use pulsesyn.Consensus.Majority.{quorum_exact}
use pulsesyn.Float.Order.{not-le_of_lt}

module _ {F : Type 0} ⦃fl : Float64 F⦄ (laws : IsIeee F) where
  -- `s` has strictly more mass than every other verdict.
  abbrev pub IsHeaviest : VerdictState → VerdictBreakdown F → Type 0
  IsHeaviest s b = (t : VerdictState) → is_recognised t ≡ true → t ≢ s → mass_of t b ≺ mass_of s b

  winner-eq-heaviest :
      (n : ℕ) (b : VerdictBreakdown F) (s : VerdictState)
      → IsBounded n b
      → IsHeaviest s b
      → (find_winner b).0 ≡ s
  winner-eq-heaviest n b s k heaviest =
      let w = find_winner b in
      elim (Bool-cases (w.0 == s)) [
        | inl same ↦ eq-of-== w.0 s same
        | inr differs ↦
            let less = heaviest w.0 (find_winner_mass b).1 (ne-of-== w.0 s differs) in
            let most = (find_winner_max laws n b k s).0 in
            let below = rw (← (find_winner_mass b).0) at less in
            cc (not-le_of_lt laws w.1 (mass_of s b) below, most)
      ]

  -- If there are votes, none of them is rejected or has NaN, at least two thirds of at most 2^50
  -- validators voted, and one verdict has strictly more mass than every other and a quotient by the
  -- total that is above 1/2, then ComputeConsensus returns a result, its verdict is that one, and its
  -- score is the confidence computed for it.
  pub heaviest_declared :
      (votes : List (Vote F)) (size : ℤ) (s : VerdictState)
      → votes ≢ []
      → All IsNumeric votes
      → All IsAccepted votes
      → length votes ≤ max_exact
      → effective_size votes size ≤ 2 ^ 50
      → 2 * effective_size votes size ≤ 3 * length votes
      → nought ≺ (aggregate_weights votes).total_mass
      → IsHeaviest s (aggregate_weights votes)
      → verdict_majority_threshold
        ≺ (mass_of s (aggregate_weights votes) ⊘ (aggregate_weights votes).total_mass)
      → (r : ConsensusResult F) × (compute_consensus votes size ≡ ok r)
        × (r.verdict ≡ s)
        × (r.confidence_score ≡ compute_confidence votes s)
  unfolding decide_verdict
  heaviest_declared votes size s some_votes numeric accepted hn hm voted massive heaviest half =
      let b = aggregate_weights votes in
      let rate = participation votes size in
      let k =
        aggregate_weights-IsBounded laws votes hn (All-IsInRange laws votes numeric accepted) in
      let winner : (find_winner b).0 ≡ s = winner-eq-heaviest (length votes) b s k heaviest in
      let mass : (find_winner b).1 ≡ mass_of s b =
        (find_winner_mass b).0 ∙ ap (λ t. mass_of t b) winner in
      let q : (rate <? quorum_threshold) ≡ false =
        quorum_exact laws votes size some_votes hn hm ∙ ground arith in
      let t : (b.total_mass =? nought) ≡ false =
        laws.eq-eq-le b.total_mass nought
        ∙ ap (λ x. x && (nought ≤? b.total_mass)) (not-le_of_lt laws _ _ massive) in
      let m : (((find_winner b).1 ⊘ b.total_mass) ≤? verdict_majority_threshold) ≡ false =
        rw mass (not-le_of_lt laws _ _ half) in
      (
        decide_verdict votes rate,
        compute_consensus_ok votes size some_votes accepted,
        rw (q, t, m) winner,
        rw (q, t, m) (ap (compute_confidence votes) winner),
      )
