-- ===== src/Consensus/Majority.antt =====
-- Quorum and majority: when a verdict is declared, and which.
use pulsesyn.Prelude.{
  not, ◌∙◌, ℕ, ap, false, ok, All, ◌*◌, ◌^◌, ◌≤◌, ◌<◌, ℤ, pos, negsuc, ◌≡◌, ◌≢◌, refl, List, [],
  ◌∷◌, arith, length, Bool-cases, inl, inr, ltb,
}
use pulsesyn.Float.{◌≤?◌, ◌=?◌, to_float, ◌≼◌, ◌⊘◌, ◌≺◌, nought, Float64, IsIeee, max_exact, ◌<?◌}
use pulsesyn.Float.Order.{ratio-IsUnit, pos_of_ne, not-lt_of_le}
use pulsesyn.Verdict.{supported, VerdictState, indeterminate, verdict_eq}
use pulsesyn.Consensus.Votes.{VerdictBreakdown, ConsensusResult, Vote}
use pulsesyn.Consensus.Compute.{
  find_winner, aggregate_weights, verdict_majority_threshold, compute_consensus, effective_size,
  participation, quorum_threshold,
}
use pulsesyn.Consensus.Weights.{IsBounded, aggregate_weights-IsBounded, IsNumeric}
use pulsesyn.Consensus.Winner.{find_winner_max, find_winner_mass, mass_of}
use pulsesyn.Consensus.Outcome.{decide_verdict_cases, All-IsInRange}
use pulsesyn.Consensus.Errors.{compute_consensus-eq-ok}

module _ {F : Type 0} ⦃fl : Float64 F⦄ (laws : IsIeee F) where
  effective_size-pos :
      (votes : List (Vote F)) (size : ℤ) → votes ≢ [] → 0 < effective_size votes size
  effective_size-pos [] size h = absurd (h refl)
  effective_size-pos (v ∷ votes) (pos n) h = ground arith
  effective_size-pos (v ∷ votes) (negsuc n) h = ground arith

  -- The test of the participation rate against 2.0 / 3.0, two rounded quotients, is the test of
  -- 3 * votes against 2 * validators in integers, for up to 2^50 validators.
  pub quorum_exact :
      (votes : List (Vote F)) (size : ℤ)
      → votes ≢ []
      → length votes ≤ max_exact
      → effective_size votes size ≤ 2 ^ 50
      → (participation votes size <? quorum_threshold)
        ≡ ltb (3 * length votes) (2 * effective_size votes size)
  unfolding participation
  quorum_exact votes size some_votes hn hm =
      let n = length votes in
      let m = effective_size votes size in
      let m_pos : 0 < m = effective_size-pos votes size some_votes in
      rw (laws.div-to_float n m hn m_pos (omega arith)) (elim (Bool-cases (ltb (3 * n) (2 * m))) [
        | inl few ↦
            rw few
              (laws.ratio_lt n m 2 3 m_pos (omega arith) (omega arith) (omega arith) (ground arith))
        | inr enough ↦
            rw enough
              (not-lt_of_le laws _ _ (laws.ratio_le 2 3 n m (omega arith) m_pos (ground arith)))
      ])

  quorum_met :
      (votes : List (Vote F)) (size : ℤ)
      → votes ≢ []
      → length votes ≤ max_exact
      → effective_size votes size ≤ 2 ^ 50
      → (participation votes size <? quorum_threshold) ≡ false
      → 2 * effective_size votes size ≤ 3 * length votes
  quorum_met votes size some_votes hn hm q =
      let exact = quorum_exact votes size some_votes hn hm in ground arith

  -- The verdict has more than half of the total mass, and no verdict has more.
  pub record IsMajority (b : VerdictBreakdown F) (v : VerdictState) : Type 0 where
    pub massive : nought ≺ b.total_mass
    pub over_half : verdict_majority_threshold ≺ (mass_of v b ⊘ b.total_mass)
    pub heaviest : (s : VerdictState) → mass_of s b ≼ mass_of v b

  total-le-max_exact :
      (n : ℕ) (b : VerdictBreakdown F)
      → n ≤ max_exact
      → IsBounded n b
      → b.total_mass ≼ to_float max_exact
  total-le-max_exact n b hn k =
      laws.le_trans _ _ _ k.total_le
        (laws.ratio_le n 1 max_exact 1 (omega arith) (omega arith) (omega arith))

  winner-IsMajority :
      (n : ℕ) (b : VerdictBreakdown F)
      → n ≤ max_exact
      → IsBounded n b
      → (b.total_mass =? nought) ≡ false
      → (((find_winner b).1 ⊘ b.total_mass) ≤? verdict_majority_threshold) ≡ false
      → IsMajority b (find_winner b).0
  winner-IsMajority n b hn k t m =
      let w = find_winner b in
      let mass : w.1 ≡ mass_of w.0 b = (find_winner_mass b).0 in
      let w_ge = laws.le_trans _ _ _ k.supported_ge (find_winner_max laws n b k supported).0 in
      let w_le = (find_winner_max laws n b k supported).1 in
      let pos = pos_of_ne laws b.total_mass (laws.le_trans _ _ _ w_ge w_le) t in
      let unit = laws.div_unit w.1 b.total_mass w_ge w_le pos (total-le-max_exact n b hn k) in
      let half = (ratio-IsUnit laws 1 2 (omega arith) (omega arith)).0 in
      record {
        massive = pos;
        over_half = rw (← mass) (
            laws.lt-eq-not-le _ _ (laws.refl_of_le _ _ half).1 (laws.refl_of_le _ _ unit.0).1
            ∙ ap not m);
        heaviest = λ s. rw (← mass) (find_winner_max laws n b k s).0;
      }

  -- If no field of a vote is NaN and at most 2^50 validators were selected, a verdict other than
  -- INDETERMINATE is declared only if at least two thirds of the validators voted, the total mass is
  -- above 0, the verdict's mass divided by the total is above 1/2, and no verdict has more mass.
  pub compute_consensus-IsMajority :
      (votes : List (Vote F)) (size : ℤ) {r : ConsensusResult F}
      → All IsNumeric votes
      → length votes ≤ max_exact
      → effective_size votes size ≤ 2 ^ 50
      → compute_consensus votes size ≡ ok r
      → r.verdict ≢ indeterminate
      → (2 * effective_size votes size ≤ 3 * length votes) × IsMajority r.breakdown r.verdict
  compute_consensus-IsMajority votes size {r} numeric hn hm h declared =
      let (accepted, some_votes, e) = compute_consensus-eq-ok votes size h in
      let ranged = All-IsInRange laws votes numeric accepted in
      let bounded = aggregate_weights-IsBounded laws votes hn ranged in
      let (b, _, _, outcome) = decide_verdict_cases votes (participation votes size) in
      elim outcome [
        | inl (u, _) ↦ absurd (declared (ap (λ x. x.verdict) e ∙ u))
        | inr d ↦ rw e (
          quorum_met votes size some_votes hn hm d.quorum,
          rw (b, d.winner)
              (winner-IsMajority (length votes) (aggregate_weights votes) hn bounded d.massive
                d.majority),
        )
      ]
