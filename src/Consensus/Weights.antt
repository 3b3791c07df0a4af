-- ===== src/Consensus/Weights.antt =====
-- The adjusted weights and their sums: every mass lies between 0 and the total, and the total is at
-- most the number of votes.
use pulsesyn.Prelude.{ℕ, suc, ◌+◌, ◌≤◌, ◌<◌, ◌≡◌, List, [], ◌∷◌, arith, length, All, true, ok}
use pulsesyn.Float.{Float64, IsIeee, max_exact, ◌⊕◌, ◌⊖◌, ◌⊗◌, ◌≼◌, nought, one, to_float, IsUnit}
use pulsesyn.Float.Order.{nought_refl, add_nonneg, IsUnit-of_tests}
use pulsesyn.Verdict.{VerdictState, supported, is_recognised}
use pulsesyn.Consensus.Votes.{Vote, VerdictBreakdown, validate_vote}
use pulsesyn.Consensus.Compute.{
  adjusted_weight, add_vote, add_weight, aggregate_from, aggregate_weights, empty_breakdown,
}

module _ {F : Type 0} ⦃fl : Float64 F⦄ where
  -- The numeric fields are not NaN.
  pub record IsNumeric (v : Vote F) : Type 0 where
    pub confidence : v.confidence ≼ v.confidence
    pub reputation : v.domain_reputation ≼ v.domain_reputation
    pub bias : v.bias_coefficient ≼ v.bias_coefficient

  -- The ranges that the comments on a vote's fields promise.
  pub record IsInRange (v : Vote F) : Type 0 where
    pub confidence : IsUnit v.confidence
    pub reputation : IsUnit v.domain_reputation
    pub bias : IsUnit v.bias_coefficient

  pub record IsBounded (n : ℕ) (b : VerdictBreakdown F) : Type 0 where
    pub supported_ge : nought ≼ b.supported
    pub supported_le : b.supported ≼ b.total_mass
    pub unsupported_ge : nought ≼ b.unsupported
    pub unsupported_le : b.unsupported ≼ b.total_mass
    pub misleading_ge : nought ≼ b.misleading
    pub misleading_le : b.misleading ≼ b.total_mass
    pub indeterminate_ge : nought ≼ b.indeterminate
    pub indeterminate_le : b.indeterminate ≼ b.total_mass
    pub total_le : b.total_mass ≼ to_float n

  module _ (laws : IsIeee F) where
    open laws use {le_trans, mul_unit, sub_unit, add_mono, le-add, add_count}

    -- A vote that passes the validation and has no NaN is in range.
    pub validate_vote-IsInRange :
        (v : Vote F)
        → IsNumeric v
        → validate_vote v ≡ ok tt
        → IsInRange v × (is_recognised v.verdict ≡ true)
    unfolding validate_vote
    validate_vote-IsInRange v n h = (
      record {
        confidence = IsUnit-of_tests laws v.confidence n.confidence (ground arith) (ground arith);
        reputation =
            IsUnit-of_tests laws v.domain_reputation n.reputation (ground arith) (ground arith);
        bias = IsUnit-of_tests laws v.bias_coefficient n.bias (ground arith) (ground arith);
      },
      ground arith,
    )

    -- The weight lies between 0 and each of the confidence and the reputation.
    pub adjusted_weight_bounds :
        (v : Vote F)
        → IsInRange v
        → (nought ≼ adjusted_weight v)
          × (adjusted_weight v ≼ v.confidence)
          × (adjusted_weight v ≼ v.domain_reputation)
          × (adjusted_weight v ≼ (one ⊖ v.bias_coefficient))
    unfolding adjusted_weight
    adjusted_weight_bounds v r =
        let (p_ge, p_le_c, p_le_r) =
          mul_unit v.confidence v.domain_reputation r.confidence r.reputation in
        let p_unit : IsUnit (v.confidence ⊗ v.domain_reputation) =
          (p_ge, le_trans _ _ _ p_le_c r.confidence.1) in
        let (w_ge, w_le_p, w_le_b) = mul_unit _ _ p_unit (sub_unit v.bias_coefficient r.bias) in
        (w_ge, le_trans _ _ _ w_le_p p_le_c, le_trans _ _ _ w_le_p p_le_r, w_le_b)

    pub adjusted_weight-IsUnit : (v : Vote F) → IsInRange v → IsUnit (adjusted_weight v)
    adjusted_weight-IsUnit v r =
        let (ge, le, _, _) = adjusted_weight_bounds v r in (ge, le_trans _ _ _ le r.confidence.1)

    -- One mass of a breakdown grows by the weight, or stays, while the total grows.
    grown_le :
        (m t w : F) → nought ≼ m → m ≼ t → nought ≼ w → (nought ≼ (m ⊕ w)) × ((m ⊕ w) ≼ (t ⊕ w))
    grown_le m t w hm h hw =
        (add_nonneg laws m w hm hw, add_mono m t w w hm h hw (laws.refl_of_le _ _ hw).1)

    kept_le : (m t w : F) → nought ≼ m → m ≼ t → nought ≼ w → m ≼ (t ⊕ w)
    kept_le m t w hm h hw = le_trans _ _ _ h (le-add t w (le_trans _ _ _ hm h) hw)

    add_weight-IsBounded :
        (s : VerdictState) (n : ℕ) (w : F) (b : VerdictBreakdown F)
        → n < max_exact
        → IsUnit w
        → IsBounded n b
        → IsBounded (n + 1) (add_weight s w b)
    add_weight-IsBounded s n w b hn unit k = by_verdict s
      where
        w_ge : nought ≼ w
        w_ge = unit.0

        t : F
        t = b.total_mass

        total : (t ⊕ w) ≼ to_float (n + 1)
        total = add_count n t w hn (le_trans _ _ _ k.supported_ge k.supported_le) k.total_le unit

        by_verdict : (s : VerdictState) → IsBounded (n + 1) (add_weight s w b)
        by_verdict supported = ground (
          arith,
          total,
          grown_le b.supported t w k.supported_ge k.supported_le w_ge,
          kept_le b.unsupported t w k.unsupported_ge k.unsupported_le w_ge,
          kept_le b.misleading t w k.misleading_ge k.misleading_le w_ge,
          kept_le b.indeterminate t w k.indeterminate_ge k.indeterminate_le w_ge,
        )
        by_verdict _ = ground (
          arith,
          total,
          grown_le b.unsupported t w k.unsupported_ge k.unsupported_le w_ge,
          grown_le b.misleading t w k.misleading_ge k.misleading_le w_ge,
          grown_le b.indeterminate t w k.indeterminate_ge k.indeterminate_le w_ge,
          kept_le b.supported t w k.supported_ge k.supported_le w_ge,
          kept_le b.unsupported t w k.unsupported_ge k.unsupported_le w_ge,
          kept_le b.misleading t w k.misleading_ge k.misleading_le w_ge,
          kept_le b.indeterminate t w k.indeterminate_ge k.indeterminate_le w_ge,
        )

    aggregate_from-IsBounded :
        (n : ℕ) (b : VerdictBreakdown F) (votes : List (Vote F))
        → n + length votes ≤ max_exact
        → All IsInRange votes
        → IsBounded n b
        → IsBounded (n + length votes) (aggregate_from b votes)
    unfolding aggregate_from
    aggregate_from-IsBounded n b [] hn r k = let e : n + 0 ≡ n = omega arith in rw e k
    aggregate_from-IsBounded n b (v ∷ votes) hn (r, rs) k =
        let e : n + suc (length votes) ≡ n + 1 + length votes = omega arith in
        rw e (
          aggregate_from-IsBounded (n + 1) (add_vote b v) votes (omega arith) rs (
            add_weight-IsBounded v.verdict n (adjusted_weight v) b (omega arith)
              (adjusted_weight-IsUnit v r) k))

    empty-IsBounded : IsBounded 0 (empty_breakdown {F = F})
    empty-IsBounded = let z = nought_refl laws in ground (arith, z)

    pub aggregate_weights-IsBounded :
        (votes : List (Vote F))
        → length votes ≤ max_exact
        → All IsInRange votes
        → IsBounded (length votes) (aggregate_weights votes)
    unfolding aggregate_weights
    aggregate_weights-IsBounded votes hn r =
        let e : length votes ≡ 0 + length votes = omega arith in
        rw e (aggregate_from-IsBounded 0 empty_breakdown votes (omega arith) r empty-IsBounded)
