-- ===== src/Reputation/Updates.antt =====
-- ApplyPostFinalizationUpdate (updates.go).
use pulsesyn.Prelude.{ok, ◌||◌, fail_if, ◌>>◌, ◌^◌, ◌%◌, ◌+◌, not, if◌then◌else◌, Bool, Result}
use pulsesyn.Float.{one, nought, ◌⊕◌, ◌<?◌, Float64}
use pulsesyn.Text.{normalise, CaseTable, Text}
use pulsesyn.Reputation.Record.{
  invalid_reputation, with_updated_domain_score, reputation_ceiling, domain_empty, reputation_floor,
  validator_id_empty, domain_score, is_blank, clamp, ReputationError, ValidatorRecord,
}

pub record VoteOutcome (F : Type 0) : Type 0 where
  pub validator_id : Text
  pub domain : Text
  pub was_correct : Bool
  pub confidence : F
  pub participated : Bool
  pub was_late : Bool

pub data UpdateReason : Type 0 where
  correct_high_confidence correct_low_confidence correct_mid_confidence : UpdateReason
  incorrect_high_confidence incorrect_low_confidence incorrect_mid_confidence : UpdateReason
  absent late : UpdateReason

pub record UpdateResult (F : Type 0) : Type 0 where
  pub validator_id : Text
  pub domain : Text
  pub old_score : F
  pub new_score : F
  pub delta : F
  pub reason : UpdateReason

module _ {F : Type 0} ⦃fl : Float64 F⦄ where
  abbrev pub delta_high : F
  delta_high = fl.ratio 5 100

  abbrev pub delta_low : F
  delta_low = fl.ratio 1 100

  abbrev pub delta_absent : F
  delta_absent = fl.ratio 2 100

  abbrev pub delta_late : F
  delta_late = fl.ratio 1 100

  abbrev pub high_confidence_threshold : F
  high_confidence_threshold = fl.ratio 7 10

  abbrev pub low_confidence_threshold : F
  low_confidence_threshold = fl.ratio 3 10

  unfoldable pub compute_delta : VoteOutcome F → F × UpdateReason
  compute_delta o =
      if not o.participated
      then (fl.neg delta_absent, absent)
      else if o.was_late
      then (fl.neg delta_late, late)
      else if o.was_correct
      then (if high_confidence_threshold <? o.confidence
          then (delta_high, correct_high_confidence)
          else if o.confidence <? low_confidence_threshold
          then (delta_low, correct_low_confidence)
          else (delta_low, correct_mid_confidence))
      else if high_confidence_threshold <? o.confidence
      then (fl.neg delta_high, incorrect_high_confidence)
      else if o.confidence <? low_confidence_threshold
      then (fl.neg delta_low, incorrect_low_confidence)
      else (fl.neg delta_low, incorrect_mid_confidence)

  unfoldable pub validate_outcome : VoteOutcome F → Result ReputationError (Unit {0})
  validate_outcome o = do
    fail_if (is_blank o.validator_id) validator_id_empty
    fail_if (is_blank o.domain) domain_empty
    fail_if ((o.confidence <? nought) || (one <? o.confidence)) invalid_reputation

  -- `updated.TotalValidations++` on a uint64
  abbrev pub count_validation : ValidatorRecord F → ValidatorRecord F
  count_validation r = record r { total_validations = (r.total_validations + 1) % 2 ^ 64 }

  module _ ⦃u : CaseTable⦄ where
    unfoldable pub apply_post_finalization_update :
        ValidatorRecord F
        → VoteOutcome F
        → Result ReputationError (ValidatorRecord F × UpdateResult F)
    unfolding clamp
    apply_post_finalization_update r outcome = do
      validate_outcome outcome
      let domain = normalise outcome.domain
      let old_score = domain_score r domain
      let delta = (compute_delta outcome).0
      let new_score = clamp (old_score ⊕ delta) reputation_floor reputation_ceiling
      ok (
        count_validation (with_updated_domain_score r domain new_score),
        record {
          validator_id = r.validator_id;
          domain = domain;
          old_score = old_score;
          new_score = new_score;
          delta = delta;
          reason = (compute_delta outcome).1;
        },
      )
