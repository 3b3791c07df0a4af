-- ===== src/Chain/Adapter.antt =====
-- The records, their Validate methods, the interface of an adapter, and NullAdapter (adapter.go).
use pulsesyn.Prelude.{[], ◌==◌, ◌||◌, fail_if, err, ◌>>◌, Bool, ok, Result, ℕ}
use pulsesyn.Text.{trim_space, codes, Text, text_eq}
use pulsesyn.Float.{one, nought, ◌<?◌, Float64}

-- What is wrong with a record; each is an ErrInvalidRecord.
pub data InvalidRecord : Type 0 where
  claim_id_empty content_hash_empty submitter_id_empty claim_type_empty : InvalidRecord
  domain_empty verdict_empty merkle_root_empty validator_id_empty : InvalidRecord
  confidence_range old_score_range new_score_range : InvalidRecord

pub data ChainError : Type 0 where
  validation_not_found reputation_not_found : ChainError
  invalid_record : InvalidRecord → ChainError

-- `T` is time.Time.
pub record ClaimRecord (T : Type 0) : Type 0 where
  pub claim_id : Text
  pub content_hash : Text
  pub submitter_id : Text
  pub claim_type : Text
  pub domain : Text
  pub epoch : ℕ
  pub submitted_at : T

pub record ValidationRecord (F T : Type 0) : Type 0 where
  pub claim_id : Text
  pub verdict : Text
  pub confidence_score : F
  pub merkle_root : Text
  pub epoch : ℕ
  pub finalized_at : T

pub record ReputationUpdate (F : Type 0) : Type 0 where
  pub validator_id : Text
  pub domain : Text
  pub old_score : F
  pub new_score : F
  pub reason : Text
  pub epoch : ℕ

pub record ReputationState (F T : Type 0) : Type 0 where
  pub validator_id : Text
  pub domain : Text
  pub score : F
  pub epoch : ℕ
  pub updated_at : T

unfoldable pub validate_claim_record : {T : Type 0} → ClaimRecord T → Result ChainError (Unit {0})
validate_claim_record r = do
  fail_if (trim_space r.claim_id == []) (invalid_record claim_id_empty)
  fail_if (trim_space r.content_hash == []) (invalid_record content_hash_empty)
  fail_if (trim_space r.submitter_id == []) (invalid_record submitter_id_empty)
  fail_if (trim_space r.claim_type == []) (invalid_record claim_type_empty)
  fail_if (trim_space r.domain == []) (invalid_record domain_empty)

module _ {F : Type 0} ⦃fl : Float64 F⦄ where
  abbrev pub outside : F → Bool
  outside x = (x <? nought) || (one <? x)

  unfoldable pub validate_validation_record :
      {T : Type 0} → ValidationRecord F T → Result ChainError (Unit {0})
  validate_validation_record r = do
    fail_if (trim_space r.claim_id == []) (invalid_record claim_id_empty)
    fail_if (trim_space r.verdict == []) (invalid_record verdict_empty)
    fail_if (outside r.confidence_score) (invalid_record confidence_range)
    fail_if (trim_space r.merkle_root == []) (invalid_record merkle_root_empty)

  unfoldable pub validate_reputation_update : ReputationUpdate F → Result ChainError (Unit {0})
  validate_reputation_update u = do
    fail_if (trim_space u.validator_id == []) (invalid_record validator_id_empty)
    fail_if (trim_space u.domain == []) (invalid_record domain_empty)
    fail_if (outside u.old_score) (invalid_record old_score_range)
    fail_if (outside u.new_score) (invalid_record new_score_range)

-- The interface `Adapter`, over the state of an implementation.
pub record Adapter (F T : Type 0) : Type 1 where
  pub State : Type 0
  pub write_claim_record : State → ClaimRecord T → State × Result ChainError Text
  pub write_validation_record : State → ValidationRecord F T → State × Result ChainError Text
  pub update_reputation : State → ReputationUpdate F → State × Result ChainError Text
  pub read_validation_record : State → Text → Result ChainError (ValidationRecord F T)
  pub read_reputation : State → Text → Text → Result ChainError (ReputationState F T)

abbrev pub null_tx_hash : Text
null_tx_hash = codes "0x0000000000000000000000000000000000000000000000000000000000000000"

-- It has no state.
abbrev pub null_adapter : {F T : Type 0} → Adapter F T
null_adapter = record {
  State = Unit;
  write_claim_record = λ s r. (s, ok null_tx_hash);
  write_validation_record = λ s r. (s, ok null_tx_hash);
  update_reputation = λ s u. (s, ok null_tx_hash);
  read_validation_record = λ s claim_id. err validation_not_found;
  read_reputation = λ s validator_id domain. err reputation_not_found;
}
