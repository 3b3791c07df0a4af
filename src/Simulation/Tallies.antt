-- ===== src/Simulation/Tallies.antt =====
-- What a report counts (report.go).
use pulsesyn.Prelude.{
  ◌-◌, false, nat_beq, List, eq-of-==, ap, ltb, if◌then◌else◌, refl, inr, inl, ◌==◌, Bool-cases,
  ◌∙◌, ◌≤◌, arith, ◌≡◌, ◌<◌, ◌+◌, ℕ, [], ◌∷◌,
}
use pulsesyn.Text.{CaseTable, text_eq}
use pulsesyn.Simulation.Report.{
  finalise, count_or_zero, count_verdict, accumulate, new_report, Report, Distribution,
}
use pulsesyn.Float.Order.{nought_refl, ratio-IsUnit, nought-IsUnit, to_float-pos}
use pulsesyn.Float.{◌⊘◌, ◌⊕◌, one, max_exact, to_float, nought, IsUnit, ◌≼◌, IsIeee, Float64}
use pulsesyn.Dict.{lookup-insert, insert, lookup}
use pulsesyn.Verdict.{verdict_eq, indeterminate, VerdictState}
use pulsesyn.Simulation.Config.{Config}
use pulsesyn.Simulation.Round.{RoundResult}
use pulsesyn.Simulation.Pool.{SimValidator}
use pulsesyn.Bias.{Tracker}

abbrev pub sum_counts : Distribution → ℕ
sum_counts [] = 0
sum_counts ((v, n) ∷ counts) = n + sum_counts counts

sum_counts-insert :
    (v : VerdictState) (k : ℕ) (counts : Distribution)
    → sum_counts (insert v k counts) + count_or_zero (lookup v counts) ≡ sum_counts counts + k
unfolding lookup insert
sum_counts-insert v k [] = omega arith
sum_counts-insert v k ((w, n) ∷ counts) = elim (Bool-cases (w == v)) [
  | inl same ↦ rw same omega arith
  | inr other ↦ rw other omega (arith, sum_counts-insert v k counts)
]

-- One more of `v` is one more of `v` alone.
count_verdict-lookup :
    (v w : VerdictState) (counts : Distribution)
    → count_or_zero (lookup w (count_verdict v counts))
      ≡ (if v == w then count_or_zero (lookup w counts) + 1 else count_or_zero (lookup w counts))
count_verdict-lookup v w counts =
    let k = count_or_zero (lookup v counts) + 1 in
    elim (Bool-cases (v == w)) [
      | inl same ↦
          let e = eq-of-== v w same in
          rw (lookup-insert v w k counts, same) (ap (λ x. count_or_zero (lookup x counts) + 1) e)
      | inr other ↦ rw (lookup-insert v w k counts, other) refl
    ]

module _ {F : Type 0} ⦃fl : Float64 F⦄ where
  -- A report of `n` rounds, before it is finalised.
  pub record IsTally (n : ℕ) (r : Report F) : Type 0 where
    pub total : r.total_rounds ≡ n
    pub decided : r.correct_rounds + r.indeterminate_rounds ≤ n
    pub distribution : sum_counts r.verdict_distribution ≡ n
    pub undecided :
        count_or_zero (lookup indeterminate r.verdict_distribution) ≡ r.indeterminate_rounds
    pub participation_low : nought ≼ r.mean_participation_rate
    pub participation_high : r.mean_participation_rate ≼ to_float n
    pub bias_low : nought ≼ r.bias_detection_rate
    pub bias_high : r.bias_detection_rate ≼ to_float n
    pub accuracy : r.verdict_accuracy ≡ nought

  -- What the finalised report of `n` rounds says.
  pub record IsConsistent (n : ℕ) (r : Report F) : Type 0 where
    pub rounds : r.total_rounds ≡ n
    pub within : r.correct_rounds + r.indeterminate_rounds ≤ n
    pub all_counted : sum_counts r.verdict_distribution ≡ n
    pub indeterminate_counted :
        count_or_zero (lookup indeterminate r.verdict_distribution) ≡ r.indeterminate_rounds
    pub accuracy_unit : IsUnit r.verdict_accuracy
    pub indeterminate_unit : IsUnit r.indeterminate_rate
    pub participation_unit : IsUnit r.mean_participation_rate
    pub bias_unit : IsUnit r.bias_detection_rate

  module _ (laws : IsIeee F) where
    one-IsUnit : IsUnit (one {F = F})
    one-IsUnit = ratio-IsUnit laws 1 1 omega arith omega arith

    pub new_report-IsTally : (cfg : Config F) → IsTally 0 (new_report cfg)
    unfolding new_report lookup
    new_report-IsTally cfg = record {
      total = refl;
      decided = omega arith;
      distribution = refl;
      undecided = refl;
      participation_low = nought_refl laws;
      participation_high = nought_refl laws;
      bias_low = nought_refl laws;
      bias_high = nought_refl laws;
      accuracy = refl;
    }

    -- A sum of numbers of [0, 1] and one more.
    added :
        (n : ℕ) (x y : F)
        → n < max_exact
        → nought ≼ x
        → x ≼ to_float n
        → IsUnit y
        → (nought ≼ (x ⊕ y)) × ((x ⊕ y) ≼ to_float (n + 1))
    added n x y hn lo hi unit =
        (laws.le_trans _ _ _ lo (laws.le-add x y lo unit.0), laws.add_count n x y hn lo hi unit)

    kept : (n : ℕ) (x : F) → x ≼ to_float n → x ≼ to_float (n + 1)
    kept n x h =
        laws.le_trans _ _ _ h (laws.ratio_le n 1 (n + 1) 1 omega arith omega arith omega arith)

    pub accumulate-IsTally :
        (n : ℕ) (r : Report F) (result : RoundResult F)
        → n < max_exact
        → IsUnit result.participation_rate
        → IsTally n r
        → IsTally (n + 1) (accumulate r result)
    unfolding accumulate
    accumulate-IsTally n r result hn unit t =
        let (p_low, p_high) =
          added n r.mean_participation_rate result.participation_rate hn t.participation_low
            t.participation_high unit in
        let (b_low, b_high) =
          added n r.bias_detection_rate one hn t.bias_low t.bias_high one-IsUnit in
        let v = result.consensus_verdict in
        let flagged = ltb 0 result.bias_detection_events in
        let counted =
          sum_counts-insert v (count_or_zero (lookup v r.verdict_distribution) + 1)
            r.verdict_distribution in
        let b_kept = kept n r.bias_detection_rate t.bias_high in
        record {
          total = omega (arith, t.total);
          decided = ground (arith, t.decided);
          distribution = omega (arith, counted, t.distribution);
          undecided =
              count_verdict-lookup v indeterminate r.verdict_distribution
              ∙ ap (λ k. if v == indeterminate then k + 1 else k) t.undecided;
          participation_low = p_low;
          participation_high = p_high;
          bias_low = elim (Bool-cases flagged) [
            | inl some_biased ↦ rw some_biased b_low
            | inr no_bias_seen ↦ rw no_bias_seen t.bias_low
          ];
          bias_high = elim (Bool-cases flagged) [
            | inl some_biased ↦ rw some_biased b_high
            | inr no_bias_seen ↦ rw no_bias_seen b_kept
          ];
          accuracy = t.accuracy;
        }

    -- A part of a positive count.
    share :
        (x : F) (n : ℕ)
        → 0 < n
        → n ≤ max_exact
        → nought ≼ x
        → x ≼ to_float n
        → IsUnit (x ⊘ to_float n)
    share x n pos hn lo hi =
        laws.div_unit x (to_float n) lo hi (to_float-pos laws n pos)
          (laws.ratio_le n 1 max_exact 1 omega arith omega arith omega arith)

    share_of :
        (x : F) (n m : ℕ)
        → m ≡ n
        → 0 < n
        → n ≤ max_exact
        → nought ≼ x
        → x ≼ to_float n
        → IsUnit (x ⊘ to_float m)
    share_of x n m e pos hn lo hi = rw e (share x n pos hn lo hi)

    pub count_share :
        (k n : ℕ) → k ≤ n → 0 < n → n ≤ max_exact → IsUnit (to_float {F = F} k ⊘ to_float n)
    count_share k n le pos hn =
        share (to_float k) n pos hn (laws.ratio_le 0 1 k 1 omega arith omega arith omega arith)
          (laws.ratio_le k 1 n 1 omega arith omega arith omega arith)

    pub finalise-IsConsistent :
        ⦃u : CaseTable⦄ (n : ℕ) (r : Report F) (pool : List (SimValidator F)) (tracker : Tracker F)
        → 0 < n
        → n ≤ max_exact
        → IsTally n r
        → IsConsistent n (finalise r pool tracker)
    unfolding finalise
    finalise-IsConsistent n r pool tracker pos hn t =
        let nonzero : nat_beq r.total_rounds 0 ≡ false = ground (arith, t.total) in
        let decided = r.total_rounds - r.indeterminate_rounds in
        let accuracy : IsUnit (
            if ltb 0 decided
            then to_float r.correct_rounds ⊘ to_float decided
            else r.verdict_accuracy) =
          elim (Bool-cases (ltb 0 decided)) [
            | inl some_decided ↦ rw some_decided (
                count_share r.correct_rounds decided omega (arith, t.total, t.decided) ground arith
                  omega (arith, t.total))
            | inr none_decided ↦ rw (none_decided, t.accuracy) (nought-IsUnit laws)
          ] in
        rw nonzero (record {
          rounds = t.total;
          within = t.decided;
          all_counted = t.distribution;
          indeterminate_counted = t.undecided;
          accuracy_unit = accuracy;
          indeterminate_unit =
              rw t.total (count_share r.indeterminate_rounds n omega (arith, t.decided) pos hn);
          participation_unit =
              share_of r.mean_participation_rate n r.total_rounds t.total pos hn t.participation_low
                t.participation_high;
          bias_unit =
              share_of r.bias_detection_rate n r.total_rounds t.total pos hn t.bias_low t.bias_high;
        })
