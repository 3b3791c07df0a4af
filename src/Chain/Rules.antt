-- ===== src/Chain/Rules.antt =====
-- The checks of the records (adapter.go), against the lists of their rules.
use pulsesyn.Prelude.{
  arith, ◌≡◌, ◌∷◌, ◌||◌, map, first_broken, report, [], ◌==◌, Result, Bool, List,
}
use pulsesyn.Text.{trim_space, Text, text_eq}
use pulsesyn.Float.{◌<?◌, one, nought, Float64}
use pulsesyn.Chain.Adapter.{
  merkle_root_empty, new_score_range, claim_type_empty, submitter_id_empty, confidence_range,
  old_score_range, content_hash_empty, verdict_empty, domain_empty, validate_reputation_update,
  claim_id_empty, validate_validation_record, validator_id_empty, ValidationRecord,
  ReputationUpdate, validate_claim_record, ClaimRecord, invalid_record, ChainError, InvalidRecord,
}

abbrev blank : Text → Bool
blank s = trim_space s == []

-- A rule that is broken, and what is wrong then.
abbrev pub wrong : List (Bool × InvalidRecord) → Result ChainError (Unit {0})
wrong rules = report (first_broken (map (λ r. (r.0, invalid_record r.1)) rules))

abbrev pub claim_record_rules : {T : Type 0} → ClaimRecord T → List (Bool × InvalidRecord)
claim_record_rules r =
    (blank r.claim_id, claim_id_empty)
    ∷ (blank r.content_hash, content_hash_empty)
    ∷ (blank r.submitter_id, submitter_id_empty)
    ∷ (blank r.claim_type, claim_type_empty)
    ∷ (blank r.domain, domain_empty)
    ∷ []

module _ {F : Type 0} ⦃fl : Float64 F⦄ where
  -- A number that is not in [0, 1]; NaN passes.
  abbrev beyond : F → Bool
  beyond x = (x <? nought) || (one <? x)

  abbrev pub validation_record_rules :
      {T : Type 0} → ValidationRecord F T → List (Bool × InvalidRecord)
  validation_record_rules r =
      (blank r.claim_id, claim_id_empty)
      ∷ (blank r.verdict, verdict_empty)
      ∷ (beyond r.confidence_score, confidence_range)
      ∷ (blank r.merkle_root, merkle_root_empty)
      ∷ []

  abbrev pub reputation_update_rules : ReputationUpdate F → List (Bool × InvalidRecord)
  reputation_update_rules u =
      (blank u.validator_id, validator_id_empty)
      ∷ (blank u.domain, domain_empty)
      ∷ (beyond u.old_score, old_score_range)
      ∷ (beyond u.new_score, new_score_range)
      ∷ []

  -- The three Validate methods return the error of the first rule that the record breaks, in the order
  -- of its list of rules, and nil if it breaks none.
  pub validate-rules :
      {T : Type 0} (r : ClaimRecord T) (v : ValidationRecord F T) (u : ReputationUpdate F)
      → (validate_claim_record r ≡ wrong (claim_record_rules r))
        × (validate_validation_record v ≡ wrong (validation_record_rules v))
        × (validate_reputation_update u ≡ wrong (reputation_update_rules u))
  unfolding validate_claim_record validate_validation_record validate_reputation_update
  validate-rules r v u = (ground arith, ground arith, ground arith)
