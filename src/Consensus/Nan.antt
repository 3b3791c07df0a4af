-- ===== src/Consensus/Nan.antt =====
-- A confidence that is NaN: `v.Confidence < MinConfidence || v.Confidence > MaxConfidence` is false of it.
use pulsesyn.Prelude.{
  zero, suc, ◌≢◌, ◌∷◌, ◌&&◌, ap, ◌∙◌, ok, inr, inl, Bool-cases, some, All, get_elem?, false, ℤ, ◌≡◌,
  ℕ, List, [],
}
use pulsesyn.Float.{◌⊘◌, nought, ◌=?◌, ◌≤?◌, ◌<?◌, IsNan, IsIeee, Float64}
use pulsesyn.Consensus.Compute.{
  verdict_majority_threshold, empty_breakdown, compute_consensus, quorum_threshold, participation,
  add_vote, aggregate_weights, add_weight, decide_verdict, adjusted_weight, find_winner,
  aggregate_from,
}
use pulsesyn.Verdict.{supported, VerdictState}
use pulsesyn.Consensus.Votes.{ConsensusResult, Vote, VerdictBreakdown}
use pulsesyn.Consensus.Errors.{compute_consensus_ok, IsAccepted}
use mathlib.Core.Option.{some-injective}

module _ {F : Type 0} ⦃fl : Float64 F⦄ (laws : IsIeee F) where
  nan-not-lt : (x y : F) → IsNan x → (x <? y) ≡ false
  nan-not-lt x y h = elim (Bool-cases (x <? y)) [
    | inl less ↦ cc (laws.refl_of_lt x y less).0
    | inr e ↦ e
  ]

  nan-not-le : (x y : F) → IsNan x → (x ≤? y) ≡ false
  nan-not-le x y h = elim (Bool-cases (x ≤? y)) [
    | inl less ↦ cc (laws.refl_of_le x y less).0
    | inr e ↦ e
  ]

  adjusted_weight-IsNan : (v : Vote F) → IsNan v.confidence → IsNan (adjusted_weight v)
  unfolding adjusted_weight
  adjusted_weight-IsNan v h = laws.nan_mul_left _ _ (laws.nan_mul_left _ _ h)

  abbrev IsSpoilt : VerdictBreakdown F → Type 0
  IsSpoilt b = IsNan b.supported × IsNan b.total_mass

  add_weight-IsSpoilt :
      (s : VerdictState) (w : F) (b : VerdictBreakdown F) → IsSpoilt b → IsSpoilt (add_weight s w b)
  add_weight-IsSpoilt supported w b (h, k) = (laws.nan_add_left _ _ h, laws.nan_add_left _ _ k)
  add_weight-IsSpoilt _ w b (h, k) = (h, laws.nan_add_left _ _ k)

  aggregate_from-IsSpoilt :
      (b : VerdictBreakdown F) (votes : List (Vote F))
      → IsSpoilt b
      → IsSpoilt (aggregate_from b votes)
  unfolding aggregate_from
  aggregate_from-IsSpoilt b [] h = h
  aggregate_from-IsSpoilt b (v ∷ votes) h =
      aggregate_from-IsSpoilt (add_vote b v) votes (add_weight-IsSpoilt v.verdict _ b h)

  add_weight-nan :
      (s : VerdictState) (w : F) (b : VerdictBreakdown F)
      → s ≡ supported
      → IsNan w
      → IsSpoilt (add_weight s w b)
  add_weight-nan supported w b e h =
      (laws.nan_add_right b.supported w h, laws.nan_add_right b.total_mass w h)
  add_weight-nan _ w b e h = cc

  nonempty_of_at :
      (votes : List (Vote F)) (i : ℕ) (v : Vote F) → get_elem? votes i ≡ some v → votes ≢ []
  nonempty_of_at [] i v at = cc
  nonempty_of_at (x ∷ votes) i v at = λ e. cc

  aggregate_from-nan :
      (b : VerdictBreakdown F) (votes : List (Vote F)) (i : ℕ) (v : Vote F)
      → get_elem? votes i ≡ some v
      → v.verdict ≡ supported
      → IsNan v.confidence
      → IsSpoilt (aggregate_from b votes)
  unfolding aggregate_from
  aggregate_from-nan b [] i v at e h = cc
  aggregate_from-nan b (x ∷ votes) zero v at e h =
      let same : x ≡ v = some-injective _ _ at in
      aggregate_from-IsSpoilt (add_vote b x) votes
        (rw same (add_weight-nan v.verdict _ b e (adjusted_weight-IsNan v h)))
  aggregate_from-nan b (x ∷ votes) (suc i) v at e h =
      aggregate_from-nan (add_vote b x) votes i v at e h

  find_winner-nan :
      (b : VerdictBreakdown F) → IsNan b.supported → find_winner b ≡ (supported, b.supported)
  unfolding find_winner
  find_winner-nan b h =
      simp
        (nan-not-lt _ b.unsupported h, nan-not-lt _ b.misleading h, nan-not-lt _ b.indeterminate h)

  -- One vote with the confidence NaN for SUPPORTED is enough: if all votes are accepted and the quorum
  -- is met, ComputeConsensus declares SUPPORTED, whatever the other votes are and weigh.
  pub nan_vote_declares :
      (votes : List (Vote F)) (size : ℤ) (i : ℕ) (v : Vote F)
      → All IsAccepted votes
      → get_elem? votes i ≡ some v
      → v.verdict ≡ supported
      → IsNan v.confidence
      → (participation votes size <? quorum_threshold) ≡ false
      → (r : ConsensusResult F) × (compute_consensus votes size ≡ ok r) × (r.verdict ≡ supported)
  unfolding decide_verdict aggregate_weights
  nan_vote_declares votes size i v accepted at e h q =
      let b = aggregate_weights votes in
      let rate = participation votes size in
      let (s_nan, t_nan) = aggregate_from-nan empty_breakdown votes i v at e h in
      let winner = find_winner-nan b s_nan in
      let t : (b.total_mass =? nought) ≡ false =
        laws.eq-eq-le b.total_mass nought
        ∙ ap (λ x. x && (nought ≤? b.total_mass)) (nan-not-le _ nought t_nan) in
      let m : (((find_winner b).1 ⊘ b.total_mass) ≤? verdict_majority_threshold) ≡ false =
        nan-not-le _ _ (laws.nan_div_right _ b.total_mass t_nan) in
      (
        decide_verdict votes rate,
        compute_consensus_ok votes size (nonempty_of_at votes i v at) accepted,
        rw (q, t, m) (ap (λ p. p.0) winner),
      )
