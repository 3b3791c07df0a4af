-- ===== src/Consensus/Unanimity.antt =====
-- Votes that all agree.
use pulsesyn.Prelude.{
  sym, ap, ◌∙◌, ok, length, ◌≢◌, true, ◌≡◌, arith, All, ℤ, ◌*◌, ◌^◌, ◌≤◌, List, [],
}
use pulsesyn.Float.{◌⊘◌, nought, max_exact, one, ◌≺◌, IsIeee, Float64}
use pulsesyn.Consensus.Votes.{ConsensusResult, Vote}
use pulsesyn.Consensus.Compute.{
  compute_consensus, aggregate_weights, effective_size, verdict_majority_threshold,
}
use pulsesyn.Verdict.{is_recognised, VerdictState}
use pulsesyn.Consensus.Weights.{aggregate_weights-IsBounded, IsNumeric}
use pulsesyn.Consensus.Errors.{IsAccepted}
use pulsesyn.Consensus.Masses.{
  votes_for_absent, votes_for_unanimous, sum_weights, aggregate_weights_masses,
}
use pulsesyn.Consensus.Winner.{mass_of}
use pulsesyn.Consensus.Outcome.{All-IsInRange}
use pulsesyn.Consensus.Declared.{heaviest_declared, IsHeaviest}

module _ {F : Type 0} ⦃fl : Float64 F⦄ (laws : IsIeee F) where
  half-lt-one : ◌≺◌ {F = F} verdict_majority_threshold one
  half-lt-one =
      laws.ratio_lt 1 2 1 1 (omega arith) (omega arith) (omega arith) (omega arith) (omega arith)

  -- If at least two thirds of at most 2^50 validators voted, every vote is accepted, has no NaN and
  -- is for the same verdict, and the total mass is above 0, then ComputeConsensus declares it.
  pub unanimous_declared :
      (votes : List (Vote F)) (size : ℤ) (s : VerdictState)
      → All (λ v. v.verdict ≡ s) votes
      → is_recognised s ≡ true
      → votes ≢ []
      → All IsNumeric votes
      → All IsAccepted votes
      → length votes ≤ max_exact
      → effective_size votes size ≤ 2 ^ 50
      → 2 * effective_size votes size ≤ 3 * length votes
      → nought ≺ (aggregate_weights votes).total_mass
      → (r : ConsensusResult F) × (compute_consensus votes size ≡ ok r) × (r.verdict ≡ s)
  unanimous_declared votes size s agree known some_votes numeric accepted hn hm voted massive =
      let b = aggregate_weights votes in
      let (mass, total) = aggregate_weights_masses votes s known in
      let all_of_it : mass_of s b ≡ b.total_mass =
        mass ∙ ap (sum_weights nought) (votes_for_unanimous s votes agree) ∙ sym total in
      let bounded =
        aggregate_weights-IsBounded laws votes hn (All-IsInRange laws votes numeric accepted) in
      let small =
        laws.le_trans _ _ _ bounded.total_le
          (laws.ratio_le (length votes) 1 max_exact 1 (omega arith) (omega arith) (omega arith)) in
      let heaviest : IsHeaviest laws s b = λ t h ne.
        rw
          (
            all_of_it,
            (aggregate_weights_masses votes t h).0,
            votes_for_absent s t votes (λ e. ne (sym e)) agree,
          )
          massive in
      let half : verdict_majority_threshold ≺ (mass_of s b ⊘ b.total_mass) =
        rw (all_of_it, laws.div_self b.total_mass massive small) half-lt-one in
      let (r, returned, verdict, _) =
        heaviest_declared laws votes size s some_votes numeric accepted hn hm voted massive heaviest
          half in
      (r, returned, verdict)
