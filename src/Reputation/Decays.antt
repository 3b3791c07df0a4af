-- ===== src/Reputation/Decays.antt =====
-- ApplyDecay (decay.go).
use pulsesyn.Prelude.{
  le_nat, if◌then◌else◌, ok, false, lt_nat, fail_if, ◌>>◌, ◌-◌, to_nat, Bool, ℤ, Result, ℕ,
}
use pulsesyn.Text.{normalise, CaseTable, Text}
use pulsesyn.Float.{◌<?◌, ◌⊗◌, to_float, Float64}
use pulsesyn.Reputation.Record.{
  with_updated_domain_score, days_negative, reputation_ceiling, reputation_floor, domain_empty,
  validator_id_empty, is_blank, domain_score, ValidatorRecord, clamp, ReputationError,
}

pub record DecayInput : Type 0 where
  pub validator_id : Text
  pub domain : Text
  pub days_inactive : ℤ

pub record DecayResult (F : Type 0) : Type 0 where
  pub validator_id : Text
  pub domain : Text
  pub old_score : F
  pub new_score : F
  pub days_inactive : ℤ
  pub applied : Bool

abbrev pub decay_inactivity_days : ℕ
decay_inactivity_days = 30

unfoldable pub validate_decay_input : DecayInput → Result ReputationError (Unit {0})
validate_decay_input input = do
  fail_if (is_blank input.validator_id) validator_id_empty
  fail_if (is_blank input.domain) domain_empty
  fail_if (lt_nat input.days_inactive 0) days_negative

module _ {F : Type 0} ⦃fl : Float64 F⦄ where
  -- `math.Pow(1.0-DecayRate, float64(effectiveDays))`, past the threshold
  abbrev pub decay_factor : ℤ → F
  decay_factor days = fl.pow (fl.ratio 999 1000) (to_float (to_nat days - decay_inactivity_days))

  module _ ⦃u : CaseTable⦄ where
    unfoldable pub apply_decay :
        ValidatorRecord F → DecayInput → Result ReputationError (ValidatorRecord F × DecayResult F)
    unfolding clamp
    apply_decay r input = do
      validate_decay_input input
      let domain = normalise input.domain
      let old_score = domain_score r domain
      let new_score =
          clamp (old_score ⊗ decay_factor input.days_inactive) reputation_floor reputation_ceiling
      let untouched : DecayResult F = record {
        validator_id = r.validator_id;
        domain = domain;
        old_score = old_score;
        new_score = old_score;
        days_inactive = input.days_inactive;
        applied = false;
      }
      ok (
          if le_nat input.days_inactive decay_inactivity_days then (r, untouched) else (
            with_updated_domain_score r domain new_score,
            record untouched { new_score = new_score; applied = new_score <? old_score },
          ))
