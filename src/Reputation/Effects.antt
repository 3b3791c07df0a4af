-- ===== src/Reputation/Effects.antt =====
-- What ApplyPostFinalizationUpdate does to a record.
use pulsesyn.Prelude.{◌&&◌, not, if◌then◌else◌, Bool, arith, ok, ◌≡◌}
use pulsesyn.Float.{◌<?◌, ◌≼◌, IsUnit, IsIeee, ◌⊕◌, Float64}
use pulsesyn.Text.{IsCaseTable, normalise, CaseTable}
use pulsesyn.Reputation.Updates.{
  delta_low, delta_high, high_confidence_threshold, delta_late, delta_absent, count_validation,
  compute_delta, validate_outcome, UpdateResult, VoteOutcome, apply_post_finalization_update,
}
use pulsesyn.Reputation.Record.{
  with_updated_domain_score, reputation_ceiling, reputation_floor, clamp, domain_score,
  ValidatorRecord,
}
use pulsesyn.Float.Order.{ratio-IsUnit}
use pulsesyn.Reputation.Scores.{floor-le-one, clamp_bounds}

module _ {F : Type 0} ⦃fl : Float64 F⦄ ⦃u : CaseTable⦄ where
  -- The parts of a successful update.
  pub record AreParts (r : ValidatorRecord F) (o : VoteOutcome F) (r' : ValidatorRecord F)
      (res : UpdateResult F) : Type 0 where
    pub valid : validate_outcome o ≡ ok tt
    pub old : res.old_score ≡ domain_score r (normalise o.domain)
    pub new :
        res.new_score
        ≡ clamp (res.old_score ⊕ (compute_delta o).0) reputation_floor reputation_ceiling
    pub record_eq :
        r' ≡ count_validation (with_updated_domain_score r (normalise o.domain) res.new_score)

  pub update-AreParts :
      (r : ValidatorRecord F) (o : VoteOutcome F) {r' : ValidatorRecord F} {res : UpdateResult F}
      → apply_post_finalization_update r o ≡ ok (r', res)
      → AreParts r o r' res
  unfolding apply_post_finalization_update
  update-AreParts r o h = ground arith

  -- The vote was in time and its verdict was right.
  abbrev pub gains : VoteOutcome F → Bool
  gains o = o.participated && not o.was_late && o.was_correct

  -- The size of the change in the specification's table.
  abbrev pub delta_size : VoteOutcome F → F
  delta_size o =
      if not o.participated
      then delta_absent
      else if o.was_late
      then delta_late
      else if high_confidence_threshold <? o.confidence
      then delta_high
      else delta_low

  -- The change is the table's size, up for a timely right vote and down for every other outcome.
  pub compute_delta_table :
      (o : VoteOutcome F)
      → (compute_delta o).0 ≡ (if gains o then delta_size o else fl.neg (delta_size o))
  unfolding compute_delta
  compute_delta_table o = ground arith

  module _ (laws : IsIeee F) (case_laws : IsCaseTable u) where
    delta_size-IsUnit : (o : VoteOutcome F) → IsUnit (delta_size o)
    delta_size-IsUnit o = ground (
      arith,
      ratio-IsUnit laws 2 100 (omega arith) (omega arith),
      ratio-IsUnit laws 1 100 (omega arith) (omega arith),
      ratio-IsUnit laws 5 100 (omega arith) (omega arith),
    )

    -- The sum before the clamp is a number, and lies on the right side of the old score.
    pub changed_score :
        (x : F) (o : VoteOutcome F)
        → IsUnit x
        → (if gains o then x ≼ (x ⊕ (compute_delta o).0) else (x ⊕ (compute_delta o).0) ≼ x)
    changed_score x o h =
        let size = delta_size-IsUnit o in
        ground (
          arith,
          compute_delta_table o,
          laws.le-add x (delta_size o) h.0 size.0,
          laws.add-neg-le x (delta_size o) h size,
        )

    pub clamped :
        (v : F)
        → v ≼ v
        → (reputation_floor ≼ clamp v reputation_floor reputation_ceiling)
          × (clamp v reputation_floor reputation_ceiling ≼ reputation_ceiling)
    clamped v h = clamp_bounds laws v reputation_floor reputation_ceiling h (floor-le-one laws)
