-- ===== src/Bias/Coefficient.antt =====
-- The coefficient that ComputeBias returns, its tier, and eligibility (bias.go).
use pulsesyn.Prelude.{
  sym, refl, ltb, [], suc, inr, ◌∷◌, arith, inl, ◌≤◌, Bool-cases, ◌≡◌, All, length, if◌then◌else◌,
  ◌<◌, false, ◌+◌, true, List, Bool, ℕ,
}
use pulsesyn.Bias.Window.{
  min_observations_for_bias, severe, bias_exclusion_threshold, high, bias_high_threshold, moderate,
  negligible, verdict_score, score_or_zero, Window, total_deviation, deviation, compute_bias,
  classify_tier, ValidationObservation, ResponseTier, is_eligible_for_domain,
}
use pulsesyn.Float.{
  ◌≺◌, ◌≤?◌, ◌⊕◌, ◌⊘◌, to_float, max_exact, ◌<?◌, nought, ◌≼◌, one, IsUnit, IsIeee, Float64,
}
use pulsesyn.Verdict.{indeterminate, misleading, unsupported, supported, other, VerdictState}
use pulsesyn.Float.Order.{
  not-le_of_lt, not-lt_of_le, add_nonneg, to_float-pos, le_of_not-lt, nought_refl, le_of_lt,
  nought-IsUnit, ratio-IsUnit,
}

-- The tiers that leave a validator in the domain's pools.
abbrev pub admits : ResponseTier → Bool
admits negligible = true
admits moderate = true
admits high = false
admits severe = false

module _ {F : Type 0} ⦃fl : Float64 F⦄ where
  -- The average is a number of [0, 1]; an accepted one may be NaN.
  abbrev pub IsNumeric : ValidationObservation F → Type 0
  IsNumeric obs = IsUnit obs.population_average_score

  module _ (laws : IsIeee F) where
    pub score-IsUnit : (v : VerdictState) → IsUnit {F = F} (score_or_zero (verdict_score v))
    score-IsUnit supported = (ratio-IsUnit laws 1 1 (omega arith) (omega arith))
    score-IsUnit unsupported = nought-IsUnit laws
    score-IsUnit misleading = (ratio-IsUnit laws 1 2 (omega arith) (omega arith))
    score-IsUnit indeterminate = (ratio-IsUnit laws 1 2 (omega arith) (omega arith))
    score-IsUnit (other s) = nought-IsUnit laws

    -- The absolute value of a number of [-1, 1].
    abs-IsUnit : (d : F) → fl.neg one ≼ d → d ≼ one → IsUnit (if d <? nought then fl.neg d else d)
    abs-IsUnit d lo hi = elim (Bool-cases (d <? nought)) [
      | inl below ↦ rw below (
        laws.le_trans nought (fl.neg nought) (fl.neg d) laws.le-neg-nought
            (laws.neg_anti d nought (le_of_lt laws d nought below)),
        (let h = laws.neg_anti (fl.neg one) d lo in rw (laws.neg-neg one) at h),
      )
      | inr above ↦
          rw above
            (le_of_not-lt laws d nought (laws.refl_of_le d one hi).0 (nought_refl laws) above, hi)
    ]

    deviation-IsUnit : (obs : ValidationObservation F) → IsNumeric obs → IsUnit (deviation obs)
    unfolding deviation
    deviation-IsUnit obs h =
        let (lo, hi) =
          laws.sub_bounds _ obs.population_average_score (score-IsUnit obs.validator_verdict) h in
        abs-IsUnit _ lo hi

    total_deviation-le :
        (n : ℕ) (total : F) (entries : List (ValidationObservation F))
        → n + length entries ≤ max_exact
        → nought ≼ total
        → total ≼ to_float n
        → All IsNumeric entries
        → (nought ≼ total_deviation total entries)
          × (total_deviation total entries ≼ to_float (n + length entries))
    unfolding total_deviation
    total_deviation-le n total [] hn h k _ = let e : n + 0 ≡ n = omega arith in rw e (h, k)
    total_deviation-le n total (obs ∷ entries) hn h k (u, us) =
        let e : n + suc (length entries) ≡ n + 1 + length entries = omega arith in
        let d = deviation-IsUnit obs u in
        rw e (
          total_deviation-le (n + 1) (total ⊕ deviation obs) entries (omega arith)
            (add_nonneg laws total (deviation obs) h d.0)
            (laws.add_count n total (deviation obs) (omega arith) h k d) us)

    mean-IsUnit :
        (entries : List (ValidationObservation F))
        → 0 < length entries
        → length entries ≤ max_exact
        → All IsNumeric entries
        → IsUnit (total_deviation nought entries ⊘ to_float (length entries))
    mean-IsUnit entries pos hn us =
        let n = length entries in
        let e : 0 + n ≡ n = omega arith in
        let (ge, le) =
          total_deviation-le 0 nought entries (omega arith) (nought_refl laws) (nought_refl laws)
            us in
        laws.div_unit (total_deviation nought entries) (to_float n) ge (rw e at le)
          (to_float-pos laws n pos)
          (laws.ratio_le n 1 max_exact 1 (omega arith) (omega arith) (omega arith))

    classify-admits : (c : F) → c ≼ c → (c <? bias_high_threshold) ≡ admits (classify_tier c)
    unfolding classify_tier
    classify-admits c h =
        let hh = ratio-IsUnit laws 50 100 (omega arith) (omega arith) in
        ground (
          arith,
          laws.lt-eq-not-le c bias_high_threshold h (laws.refl_of_le _ _ hh.0).1,
          λ (p : bias_exclusion_threshold ≼ c).
              laws.le_trans bias_high_threshold bias_exclusion_threshold c
                (laws.ratio_le 50 100 70 100 (omega arith) (omega arith) (omega arith)) p,
        )

    nought-lt : (n : ℕ) → 0 < n → n ≤ 100 → ◌≺◌ {F = F} nought (fl.ratio n 100)
    nought-lt n h k =
        laws.ratio_lt 0 1 n 100 (omega arith) (omega arith) k (omega arith) (omega arith)

    nought-not-le : (n : ℕ) → 0 < n → n ≤ 100 → ◌≤?◌ {F = F} (fl.ratio n 100) nought ≡ false
    nought-not-le n h k = not-le_of_lt laws nought (fl.ratio n 100) (nought-lt n h k)

    classify-nought : classify_tier {F = F} nought ≡ negligible
    unfolding classify_tier
    classify-nought =
        rw
          (
            nought-not-le 70 (omega arith) (omega arith),
            nought-not-le 50 (omega arith) (omega arith),
            nought-not-le 30 (omega arith) (omega arith),
          )
          refl

    -- The clamp of a number of [0, 1].
    clamped-eq :
        (c : F)
        → IsUnit c
        → (let capped = if one <? c then one else c in if capped <? nought then nought else capped)
          ≡ c
    clamped-eq c (lo, hi) =
        ground (arith, not-lt_of_le laws one c hi, not-lt_of_le laws c nought lo)

    -- Where no average is NaN and there are at most 2^53 observations, the coefficient and the
    -- correction factor are in [0, 1], the tier is the coefficient's, and a validator is eligible
    -- exactly in the tiers below HIGH, whether there are enough observations or not.
    pub compute_bias-InRange :
        (w : Window F)
        → All IsNumeric w.entries
        → length w.entries ≤ max_exact
        → IsUnit (compute_bias w).coefficient
          × IsUnit (compute_bias w).correction_factor
          × ((compute_bias w).tier ≡ classify_tier (compute_bias w).coefficient)
          × (is_eligible_for_domain (compute_bias w) ≡ admits (compute_bias w).tier)
    unfolding compute_bias is_eligible_for_domain
    compute_bias-InRange w us hn =
        elim (Bool-cases (ltb (length w.entries) min_observations_for_bias)) [
          | inl few ↦ rw few (
            nought-IsUnit laws,
            ratio-IsUnit laws 1 1 (omega arith) (omega arith),
            sym classify-nought,
            nought-lt 50 (omega arith) (omega arith),
          )
          | inr many ↦
              let unit = mean-IsUnit w.entries ground arith hn us in
              rw (many, clamped-eq _ unit)
                (unit, laws.sub_unit _ unit, refl, classify-admits _ (laws.refl_of_le _ _ unit.1).0)
        ]
