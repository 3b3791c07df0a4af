-- ===== src/Chain/Examples.antt =====
-- The theorem on the chain's records at concrete records, and tests of the null adapter.
use pulsesyn.Prelude.{refl, err, ok, ◌≡◌, ℕ, []}
use pulsesyn.Text.{codes, text_eq}
use pulsesyn.Float.Fixed.{fixed_float, Fixed}
use pulsesyn.Chain.Adapter.{
  new_score_range, submitter_id_empty, invalid_record, validation_not_found, null_adapter,
  validate_validation_record, validate_reputation_update, Adapter, ReputationUpdate,
  validate_claim_record, ClaimRecord, ValidationRecord,
}
use pulsesyn.Chain.Rules.{
  validate-rules, reputation_update_rules, validation_record_rules, claim_record_rules, wrong,
}

abbrev unsubmitted : ClaimRecord ℕ
unsubmitted = record {
  claim_id = codes "c1";
  content_hash = codes "ab";
  submitter_id = codes " ";
  claim_type = codes "FACTUAL";
  domain = [];
  epoch = 4;
  submitted_at = 9;
}

abbrev settled : ValidationRecord Fixed ℕ
settled = record {
  claim_id = codes "c1";
  verdict = codes "SUPPORTED";
  confidence_score = fixed_float.ratio 3 4;
  merkle_root = codes "00ff";
  epoch = 4;
  finalized_at = 9;
}

abbrev raised : ReputationUpdate Fixed
raised = record {
  validator_id = codes "v1";
  domain = codes "health";
  old_score = fixed_float.ratio 1 2;
  new_score = fixed_float.ratio 3 2;
  reason = codes "CORRECT_HIGH_CONFIDENCE";
  epoch = 4;
}

validate-rules_example :
    (validate_claim_record unsubmitted ≡ wrong (claim_record_rules unsubmitted))
    × (validate_validation_record settled ≡ wrong (validation_record_rules settled))
    × (validate_reputation_update raised ≡ wrong (reputation_update_rules raised))
validate-rules_example = validate-rules unsubmitted settled raised

blank_submitter : validate_claim_record unsubmitted ≡ err (invalid_record submitter_id_empty)
unfolding validate_claim_record pulsesyn.Text.trim_space
blank_submitter = refl

settled_accepted : validate_validation_record settled ≡ ok tt
unfolding validate_validation_record pulsesyn.Text.trim_space
settled_accepted = refl

score_above_one : validate_reputation_update raised ≡ err (invalid_record new_score_range)
unfolding validate_reputation_update pulsesyn.Text.trim_space
score_above_one = refl

abbrev offline : Adapter Fixed ℕ
offline = null_adapter

-- The null adapter keeps nothing: what was written is not found.
written_not_found :
    offline.read_validation_record (offline.write_validation_record tt settled).0 (codes "c1")
    ≡ err validation_not_found
written_not_found = refl
