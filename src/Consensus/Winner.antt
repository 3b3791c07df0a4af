-- ===== src/Consensus/Winner.antt =====
-- findWinner and computeConfidence.
use pulsesyn.Prelude.{
  Bool, ℕ, suc, ◌+◌, ◌≤◌, ◌<◌, ◌≡◌, List, [], ◌∷◌, arith, length, All, false, true, Bool-cases, inl,
  inr, ◌==◌, if◌then◌else◌,
}
use pulsesyn.Float.{Float64, IsIeee, max_exact, ◌⊕◌, ◌⊗◌, ◌⊘◌, ◌≼◌, ◌=?◌, nought, to_float, IsUnit}
use pulsesyn.Float.Order.{nought_refl, add_nonneg, nought-IsUnit, le_of_not-lt, le_of_lt, pos_of_ne}
use pulsesyn.Verdict.{
  VerdictState, supported, unsupported, misleading, indeterminate, other, is_recognised, verdict_eq,
}
use pulsesyn.Consensus.Votes.{Vote, VerdictBreakdown}
use pulsesyn.Consensus.Compute.{
  adjusted_weight, heavier, find_winner, confidence_sums, compute_confidence,
}
use pulsesyn.Consensus.Weights.{IsInRange, IsBounded, adjusted_weight-IsUnit}

module _ {F : Type 0} ⦃fl : Float64 F⦄ where
  -- The mass of one verdict in a breakdown; an unknown verdict has none.
  abbrev pub mass_of : VerdictState → VerdictBreakdown F → F
  mass_of supported b = b.supported
  mass_of unsupported b = b.unsupported
  mass_of misleading b = b.misleading
  mass_of indeterminate b = b.indeterminate
  mass_of (other s) b = nought

  -- `p` is a recognised verdict with its mass.
  abbrev IsCandidate : VerdictBreakdown F → VerdictState × F → Type 0
  IsCandidate b p = (p.1 ≡ mass_of p.0 b) × (is_recognised p.0 ≡ true)

  -- The winner is one of the four verdicts, with its mass.
  pub find_winner_mass : (b : VerdictBreakdown F) → IsCandidate b (find_winner b)
  unfolding find_winner
  find_winner_mass b = ground arith

  module _ (laws : IsIeee F) where
    open laws use {le_trans, mul_unit, add_mono, le-add, add_count, refl_of_le, div_unit}

    heavier_ge :
        (p c : VerdictState × F)
        → p.1 ≼ p.1
        → c.1 ≼ c.1
        → let m = (heavier p c).1 in (p.1 ≼ m) × (c.1 ≼ m) × (m ≼ m)
    heavier_ge p c hp hc = ground (arith, le_of_not-lt laws p.1 c.1 hp hc, le_of_lt laws p.1 c.1)

    heavier_le : (t : F) (p c : VerdictState × F) → p.1 ≼ t → c.1 ≼ t → (heavier p c).1 ≼ t
    heavier_le t p c hp hc = ground arith

    module _ (n : ℕ) (b : VerdictBreakdown F) (k : IsBounded n b) where
      abbrev first : VerdictState × F
      first = (supported, b.supported)

      abbrev second : VerdictState × F
      second = heavier first (unsupported, b.unsupported)

      abbrev third : VerdictState × F
      third = heavier second (misleading, b.misleading)

      abbrev fourth : VerdictState × F
      fourth = heavier third (indeterminate, b.indeterminate)

      fourth_ge :
          (b.supported ≼ fourth.1)
          × (b.unsupported ≼ fourth.1)
          × (b.misleading ≼ fourth.1)
          × (b.indeterminate ≼ fourth.1)
      fourth_ge =
          let num = λ (m : F) (h : m ≼ b.total_mass). (refl_of_le m _ h).0 in
          let (s2, u2, n2) =
            heavier_ge first (unsupported, b.unsupported) (num _ k.supported_le)
              (num _ k.unsupported_le) in
          let (p3, m3, n3) =
            heavier_ge second (misleading, b.misleading) n2 (num _ k.misleading_le) in
          let (p4, i4, _) =
            heavier_ge third (indeterminate, b.indeterminate) n3 (num _ k.indeterminate_le) in
          let up = λ (m : F) (h : m ≼ second.1). le_trans m _ _ h (le_trans _ _ _ p3 p4) in
          (up _ s2, up _ u2, le_trans _ _ _ m3 p4, i4)

      fourth_le : fourth.1 ≼ b.total_mass
      fourth_le =
          heavier_le _ third _
            (heavier_le _ second _ (heavier_le _ first _ k.supported_le k.unsupported_le)
              k.misleading_le)
            k.indeterminate_le

      -- No verdict has more mass than the winner, and the winner has no more than the total.
      pub find_winner_max :
          (s : VerdictState)
          → (mass_of s b ≼ (find_winner b).1) × ((find_winner b).1 ≼ b.total_mass)
      unfolding find_winner
      find_winner_max supported = (fourth_ge.0, fourth_le)
      find_winner_max unsupported = (fourth_ge.1, fourth_le)
      find_winner_max misleading = (fourth_ge.2, fourth_le)
      find_winner_max indeterminate = (fourth_ge.3, fourth_le)
      find_winner_max (other s) = (le_trans _ _ _ k.supported_ge fourth_ge.0, fourth_le)

    -- The sums of computeConfidence after `n` votes.
    record AreSums (n : ℕ) (c w : F) : Type 0 where
      c_ge : nought ≼ c
      c_le : c ≼ w
      w_le : w ≼ to_float n

    AreSums-suc : (n : ℕ) (c w : F) → AreSums n c w → AreSums (n + 1) c w
    AreSums-suc n c w h = ground (
      arith,
      le_trans w (to_float n) (to_float (n + 1)) h.w_le
          (laws.ratio_le n 1 (n + 1) 1 (omega arith) (omega arith) (omega arith)),
    )

    AreSums-add :
        (n : ℕ) (c w x a : F)
        → n < max_exact
        → IsUnit x
        → IsUnit a
        → AreSums n c w
        → AreSums (n + 1) (c ⊕ x ⊗ a) (w ⊕ a)
    AreSums-add n c w x a hn hx ha h =
        let (p_ge, _, p_le) = mul_unit x a hx ha in
        record {
          c_ge = add_nonneg laws c (x ⊗ a) h.c_ge p_ge;
          c_le = add_mono c w (x ⊗ a) a h.c_ge h.c_le p_ge p_le;
          w_le = add_count n w a hn (le_trans _ _ _ h.c_ge h.c_le) h.w_le ha;
        }

    AreSums-step :
        (counts : Bool) (n : ℕ) (c w x a : F)
        → n < max_exact
        → IsUnit x
        → IsUnit a
        → AreSums n c w
        → AreSums (n + 1) (if counts then c ⊕ x ⊗ a else c) (if counts then w ⊕ a else w)
    AreSums-step true n c w x a hn hx ha h = AreSums-add n c w x a hn hx ha h
    AreSums-step false n c w x a hn hx ha h = AreSums-suc n c w h

    confidence_sums-AreSums :
        (winner : VerdictState) (n : ℕ) (c w : F) (votes : List (Vote F))
        → n + length votes ≤ max_exact
        → All IsInRange votes
        → AreSums n c w
        → let (c', w') = confidence_sums winner c w votes in AreSums (n + length votes) c' w'
    unfolding confidence_sums adjusted_weight
    confidence_sums-AreSums winner n c w [] hn r h = let e : n + 0 ≡ n = omega arith in rw e h
    confidence_sums-AreSums winner n c w (v ∷ votes) hn (r, rs) h =
        let a = adjusted_weight v in
        let counts = v.verdict == winner in
        let e : n + suc (length votes) ≡ n + 1 + length votes = omega arith in
        rw e (
          confidence_sums-AreSums winner (n + 1) (if counts then c ⊕ v.confidence ⊗ a else c)
            (if counts then w ⊕ a else w) votes (omega arith) rs
            (AreSums-step counts n c w v.confidence a (omega arith) r.confidence
              (adjusted_weight-IsUnit laws v r) h))

    quotient-IsUnit :
        (n : ℕ) (c w : F)
        → n ≤ max_exact
        → AreSums n c w
        → IsUnit (if w =? nought then nought else c ⊘ w)
    quotient-IsUnit n c w hn h = elim (Bool-cases (w =? nought)) [
      | inl none_won ↦ rw none_won (nought-IsUnit laws)
      | inr won ↦
          let pos = pos_of_ne laws w (le_trans _ _ _ h.c_ge h.c_le) won in
          let small =
            le_trans _ _ _ h.w_le
              (laws.ratio_le n 1 max_exact 1 (omega arith) (omega arith) (omega arith)) in
          rw won (div_unit c w h.c_ge h.c_le pos small)
    ]

    -- The confidence of a verdict is a weighted mean of numbers in [0, 1], and stays in [0, 1] when
    -- it is computed with rounding.
    pub compute_confidence-IsUnit :
        (votes : List (Vote F)) (winner : VerdictState)
        → length votes ≤ max_exact
        → All IsInRange votes
        → IsUnit (compute_confidence votes winner)
    unfolding compute_confidence
    compute_confidence-IsUnit votes winner hn r =
        quotient-IsUnit (0 + length votes) (confidence_sums winner nought nought votes).0
          (confidence_sums winner nought nought votes).1 (omega arith)
          (confidence_sums-AreSums winner 0 nought nought votes (omega arith) r
            (let z = nought_refl laws in ground (arith, z)))
