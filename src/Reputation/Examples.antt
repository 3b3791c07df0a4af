-- ===== src/Reputation/Examples.antt =====
-- The theorems on core/reputation at a concrete validator, and tests.
use pulsesyn.Prelude.{
  if◌then◌else◌, ◌^◌, ◌%◌, some, pos, ◌⊎◌, ◌↔◌, refl, ok, [], ◌∷◌, true, false, ◌≡◌, arith,
}
use pulsesyn.Reputation.Record.{
  reputation_ceiling, is_eligible_for_domain, sum_scores, domain_score, clamp, active,
  reputation_floor, with_updated_domain_score, compute_global_reputation, genesis_scores,
  ValidatorRecord, new_genesis_validator_record, new_validator_record,
}
use pulsesyn.Reputation.Updates.{
  absent, delta_absent, count_validation, compute_delta, validate_outcome, UpdateResult,
  VoteOutcome, apply_post_finalization_update,
}
use pulsesyn.Reputation.Scores.{IsValid}
use pulsesyn.Float.Fixed.{fixed_pow, fixed_float}
use pulsesyn.Text.{text_eq, ascii-IsCaseTable, normalise, trim_space, ascii}
use pulsesyn.Float.WithNan.{num-IsIeee, with_nan, Num}
use pulsesyn.Text.{codes}
use pulsesyn.Float.{◌⊕◌, ◌<?◌, ◌≼◌, nought}
use pulsesyn.Dict.{lookup, insert}
use pulsesyn.Reputation.Decays.{
  validate_decay_input, DecayResult, DecayInput, decay_factor, apply_decay,
}
use pulsesyn.Reputation.History.{
  genesis, updated, registered, decayed, Reached-eligible, Reached-IsSound, Reached,
}
use pulsesyn.Reputation.Sound.{IsSound}
use pulsesyn.Reputation.Changes.{update_effect, update_direction, update_eligible}
use pulsesyn.Reputation.Writes.{IsWrite}
use pulsesyn.Reputation.Fading.{decay_effect}
use pulsesyn.Reputation.Effects.{delta_size, gains}

abbrev newcomer : ValidatorRecord Num
newcomer = record {
  validator_id = codes "v1";
  genesis_validator = false;
  registration_epoch = 4;
  domain_scores = [];
  global_reputation = nought;
  total_validations = 0;
  status = active;
}

newcomer_registered : new_validator_record (codes " v1") 4 ≡ ok newcomer
unfolding new_validator_record trim_space
newcomer_registered = refl

abbrev founder : ValidatorRecord Num
founder = record {
  validator_id = codes "g1";
  genesis_validator = true;
  registration_epoch = 0;
  domain_scores = (codes "health", with_nan.ratio 75 100) ∷ [];
  global_reputation = with_nan.ratio 75 100;
  total_validations = 0;
  status = active;
}

founder_registered :
    new_genesis_validator_record (codes "g1") (codes "Health " ∷ codes "health" ∷ []) 0 ≡ ok founder
unfolding new_genesis_validator_record genesis_scores compute_global_reputation trim_space normalise
    insert sum_scores
founder_registered = refl

-- An abstention.
abbrev absence : VoteOutcome Num
absence = record {
  validator_id = codes "v1";
  domain = codes " Health";
  was_correct = false;
  confidence = nought;
  participated = false;
  was_late = false;
}

abbrev admitted : ValidatorRecord Num
admitted = count_validation (with_updated_domain_score newcomer (codes "health") reputation_floor)

abbrev admission : UpdateResult Num
admission = record {
  validator_id = codes "v1";
  domain = codes "health";
  old_score = nought;
  new_score = reputation_floor;
  delta = with_nan.neg delta_absent;
  reason = absent;
}

absence_accepted : apply_post_finalization_update newcomer absence ≡ ok (admitted, admission)
unfolding apply_post_finalization_update validate_outcome compute_delta trim_space normalise clamp
    domain_score lookup
absence_accepted = refl

-- The absence counts as a validation.
absence_counted : admitted.total_validations ≡ 1
unfolding with_updated_domain_score
absence_counted = refl

newcomer-IsValid : IsValid newcomer
newcomer-IsValid = ground arith

update_effect_example :
    (nought ≡ domain_score newcomer (codes " Health"))
    × (reputation_floor ≼ admission.new_score)
    × (admission.new_score ≼ reputation_ceiling)
    × IsWrite newcomer admitted (codes " Health") admission.new_score
    × (1 ≡ 1 % 2 ^ 64)
    × (admission.new_score
        ≡ clamp
            (domain_score newcomer (codes " Health")
              ⊕ (if gains absence then delta_size absence else with_nan.neg (delta_size absence)))
            reputation_floor
            reputation_ceiling)
unfolding with_updated_domain_score
update_effect_example =
    update_effect num-IsIeee ascii-IsCaseTable newcomer absence newcomer-IsValid absence_accepted

update_direction_example :
    (admission.new_score ≼ admission.old_score) ⊎ (admission.new_score ≡ reputation_floor)
update_direction_example =
    update_direction num-IsIeee ascii-IsCaseTable newcomer absence newcomer-IsValid absence_accepted

update_eligible_example : is_eligible_for_domain admitted (codes " Health") ≡ true
update_eligible_example =
    update_eligible num-IsIeee ascii-IsCaseTable newcomer absence newcomer-IsValid absence_accepted

founder-IsValid : IsValid founder
founder-IsValid = ground arith

-- 31 days of inactivity.
abbrev pause : DecayInput
pause = record { validator_id = codes "g1"; domain = codes "HEALTH"; days_inactive = pos 31 }

abbrev faded_score : Num
faded_score = with_nan.mul (with_nan.ratio 75 100) (decay_factor (pos 31))

abbrev faded : ValidatorRecord Num
faded = with_updated_domain_score founder (codes "health") faded_score

abbrev fade : DecayResult Num
fade = record {
  validator_id = codes "g1";
  domain = codes "health";
  old_score = with_nan.ratio 75 100;
  new_score = faded_score;
  days_inactive = pos 31;
  applied = true;
}

pause_accepted : apply_decay founder pause ≡ ok (faded, fade)
unfolding apply_decay validate_decay_input trim_space normalise clamp domain_score lookup fixed_pow
pause_accepted = refl

decay_effect_example :
    (fade.old_score ≡ domain_score founder (codes "HEALTH"))
    × (reputation_floor ≼ fade.new_score)
    × (fade.new_score ≼ reputation_ceiling)
    × ((fade.new_score ≼ fade.old_score) ⊎ (fade.new_score ≡ reputation_floor))
    × (true ≡ (fade.new_score <? fade.old_score))
    × IsWrite founder faded (codes "HEALTH") fade.new_score
    × (founder.total_validations ≡ 0)
unfolding with_updated_domain_score
decay_effect_example =
    decay_effect num-IsIeee ascii-IsCaseTable founder pause founder-IsValid refl pause_accepted

-- Thirty days are not enough.
abbrev holiday : DecayInput
holiday = record pause { days_inactive = pos 30 }

holiday_accepted :
    apply_decay founder holiday
    ≡ ok (
      founder,
      record fade { new_score = fade.old_score; days_inactive = pos 30; applied = false },
    )
unfolding apply_decay validate_decay_input trim_space normalise clamp domain_score lookup
holiday_accepted = refl

founder-Reached : Reached founder 2 0
founder-Reached = genesis (codes "g1") (codes "Health " ∷ codes "health" ∷ []) 0 founder_registered

admitted-Reached : Reached admitted 1 1
admitted-Reached = updated absence (registered (codes " v1") 4 newcomer_registered) absence_accepted

Reached-IsSound_example : IsSound faded 3 0
Reached-IsSound_example =
    Reached-IsSound num-IsIeee ascii-IsCaseTable faded 3 0 (omega arith)
      (decayed pause founder-Reached pause_accepted)

Reached-eligible_example :
    (is_eligible_for_domain admitted (codes "Health") ≡ true)
    ↔ ((s : Num) × (lookup (normalise (codes "Health")) admitted.domain_scores ≡ some s))
Reached-eligible_example =
    Reached-eligible num-IsIeee ascii-IsCaseTable admitted 1 1 (codes "Health") (omega arith)
      admitted-Reached
