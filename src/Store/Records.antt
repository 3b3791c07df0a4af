-- ===== src/Store/Records.antt =====
-- The errors, VoteRecord and ValidationRecord, and their validation (store.go, vote.go, validation.go).
use pulsesyn.Prelude.{le_nat, not, [], ◌==◌, ◌||◌, fail_if, ◌>>◌, ℤ, Bool, Result, ℕ}
use pulsesyn.Text.{trim_space, Text, text_eq}
use pulsesyn.Float.{one, nought, ◌<?◌, Float64}
use pulsesyn.Verdict.{is_recognised, VerdictState}

-- What is wrong with a record; each is an ErrInvalidRecord.
pub data InvalidRecord : Type 0 where
  claim_id_empty validator_id_empty domain_empty verdict_unrecognised : InvalidRecord
  confidence_range reputation_range bias_range set_size_range : InvalidRecord
  participation_range finalized_at_zero : InvalidRecord

-- The last two are the failures of Badger and of encoding/json.
pub data StoreError : Type 0 where
  claim_not_found validator_not_found validation_not_found vote_not_found : StoreError
  already_exists record_nil : StoreError
  invalid_record : InvalidRecord → StoreError
  db_failed json_failed : Text → StoreError

-- `T` is time.Time.
pub record VoteRecord (F T : Type 0) : Type 0 where
  pub claim_id : Text
  pub validator_id : Text
  pub verdict : VerdictState
  pub confidence : F
  pub domain_reputation : F
  pub bias_coefficient : F
  pub validator_set_size : ℤ
  pub epoch : ℕ
  pub recorded_at : T

pub record ValidationRecord (F T : Type 0) : Type 0 where
  pub claim_id : Text
  pub domain : Text
  pub verdict : VerdictState
  pub confidence_score : F
  pub participation_rate : F
  pub validator_count : ℤ
  pub epoch : ℕ
  pub merkle_root : Text
  pub finalized_at : T

module _ {F : Type 0} ⦃fl : Float64 F⦄ where
  abbrev pub out_of_range : F → Bool
  out_of_range x = (x <? nought) || (one <? x)

  unfoldable pub validate_vote_record : {T : Type 0} → VoteRecord F T → Result StoreError (Unit {0})
  validate_vote_record v = do
    fail_if (trim_space v.claim_id == []) (invalid_record claim_id_empty)
    fail_if (trim_space v.validator_id == []) (invalid_record validator_id_empty)
    fail_if (not (is_recognised v.verdict)) (invalid_record verdict_unrecognised)
    fail_if (out_of_range v.confidence) (invalid_record confidence_range)
    fail_if (out_of_range v.domain_reputation) (invalid_record reputation_range)
    fail_if (out_of_range v.bias_coefficient) (invalid_record bias_range)
    fail_if (le_nat v.validator_set_size 0) (invalid_record set_size_range)

  unfoldable pub validate_validation_record :
      {T : Type 0} → (T → Bool) → ValidationRecord F T → Result StoreError (Unit {0})
  validate_validation_record is_zero r = do
    fail_if (trim_space r.claim_id == []) (invalid_record claim_id_empty)
    fail_if (trim_space r.domain == []) (invalid_record domain_empty)
    fail_if (not (is_recognised r.verdict)) (invalid_record verdict_unrecognised)
    fail_if (out_of_range r.confidence_score) (invalid_record confidence_range)
    fail_if (out_of_range r.participation_rate) (invalid_record participation_range)
    fail_if (is_zero r.finalized_at) (invalid_record finalized_at_zero)
