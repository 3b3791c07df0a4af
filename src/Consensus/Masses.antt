-- ===== src/Consensus/Masses.antt =====
-- The one pass of aggregateWeights against a sum for each verdict.
use pulsesyn.Prelude.{
  false, ◌≡◌, ◌≢◌, refl, List, [], ◌∷◌, All, true, Bool-cases, inl, inr, ◌==◌, if◌then◌else◌, ◌∙◌,
  sym, ap, ==-of-ne,
}
use pulsesyn.Float.{Float64, ◌⊕◌, nought}
use pulsesyn.Verdict.{
  VerdictState, supported, unsupported, misleading, indeterminate, other, is_recognised, verdict_eq,
  verdict_beq,
}
use pulsesyn.Consensus.Votes.{Vote, VerdictBreakdown}
use pulsesyn.Consensus.Compute.{
  aggregate_weights, aggregate_from, adjusted_weight, add_weight, add_vote, empty_breakdown,
}
use pulsesyn.Consensus.Winner.{mass_of}

module _ {F : Type 0} ⦃fl : Float64 F⦄ where
  -- The votes for one verdict, in their order.
  abbrev pub votes_for : VerdictState → List (Vote F) → List (Vote F)
  votes_for t [] = []
  votes_for t (v ∷ votes) =
      let rest = votes_for t votes in if v.verdict == t then v ∷ rest else rest

  -- The weights added up in the votes' order.
  abbrev pub sum_weights : F → List (Vote F) → F
  sum_weights acc [] = acc
  sum_weights acc (v ∷ votes) = sum_weights (acc ⊕ adjusted_weight v) votes

  mass_of-add_weight :
      (s t : VerdictState) (w : F) (b : VerdictBreakdown F)
      → is_recognised t ≡ true
      → mass_of t (add_weight s w b) ≡ (if s == t then mass_of t b ⊕ w else mass_of t b)
  unfolding verdict_beq
  mass_of-add_weight supported supported w b h = refl
  mass_of-add_weight unsupported unsupported w b h = refl
  mass_of-add_weight misleading misleading w b h = refl
  mass_of-add_weight indeterminate indeterminate w b h = refl
  mass_of-add_weight s (other t) w b h = cc
  mass_of-add_weight _ _ w b h = refl

  total-add_weight :
      (s : VerdictState) (w : F) (b : VerdictBreakdown F)
      → (add_weight s w b).total_mass ≡ b.total_mass ⊕ w
  total-add_weight supported w b = refl
  total-add_weight _ w b = refl

  aggregate_from_masses :
      (t : VerdictState) (b : VerdictBreakdown F) (votes : List (Vote F))
      → is_recognised t ≡ true
      → (mass_of t (aggregate_from b votes) ≡ sum_weights (mass_of t b) (votes_for t votes))
        × ((aggregate_from b votes).total_mass ≡ sum_weights b.total_mass votes)
  unfolding aggregate_from
  aggregate_from_masses t b [] h = (refl, refl)
  aggregate_from_masses t b (v ∷ votes) h =
      let (masses, totals) = aggregate_from_masses t (add_vote b v) votes h in
      let w = adjusted_weight v in
      let step = mass_of-add_weight v.verdict t w b h in
      (
        elim (Bool-cases (v.verdict == t)) [
          | inl e ↦ rw e (masses ∙ ap (λ m. sum_weights m (votes_for t votes)) (rw e at step))
          | inr e ↦ rw e (masses ∙ ap (λ m. sum_weights m (votes_for t votes)) (rw e at step))
        ],
        totals ∙ ap (λ m. sum_weights m votes) (total-add_weight v.verdict w b),
      )

  mass_of-empty : (t : VerdictState) → mass_of t (empty_breakdown {F = F}) ≡ nought
  mass_of-empty supported = refl
  mass_of-empty _ = refl

  -- Bit for bit, the mass of each of the four verdicts is the sum of the adjusted weights of the votes
  -- for it, and the total mass is the sum over all votes, both added up from 0 in the votes' order.
  pub aggregate_weights_masses :
      (votes : List (Vote F)) (t : VerdictState)
      → is_recognised t ≡ true
      → (mass_of t (aggregate_weights votes) ≡ sum_weights nought (votes_for t votes))
        × ((aggregate_weights votes).total_mass ≡ sum_weights nought votes)
  unfolding aggregate_weights
  aggregate_weights_masses votes t h =
      let (masses, totals) = aggregate_from_masses t empty_breakdown votes h in
      (masses ∙ ap (λ m. sum_weights m (votes_for t votes)) (mass_of-empty t), totals)

  pub votes_for_unanimous :
      (t : VerdictState) (votes : List (Vote F))
      → All (λ v. v.verdict ≡ t) votes
      → votes_for t votes ≡ votes
  votes_for_unanimous t [] h = refl
  votes_for_unanimous t (v ∷ votes) (h, hs) =
      let e : (v.verdict == t) ≡ true = (verdict_eq.beq_iff v.verdict t).1 h in
      rw e (ap (◌∷◌ v) (votes_for_unanimous t votes hs))

  pub votes_for_absent :
      (s t : VerdictState) (votes : List (Vote F))
      → s ≢ t
      → All (λ v. v.verdict ≡ s) votes
      → votes_for t votes ≡ []
  votes_for_absent s t [] ne h = refl
  votes_for_absent s t (v ∷ votes) ne (h, hs) =
      let e : (v.verdict == t) ≡ false = ==-of-ne v.verdict t (λ p. ne (sym h ∙ p)) in
      rw e (votes_for_absent s t votes ne hs)
