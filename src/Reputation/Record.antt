-- ===== src/Reputation/Record.antt =====
-- ValidatorRecord (reputation.go): construction, queries and the internal write.
use pulsesyn.Prelude.{
  Option, some, none, ok, fail_if, ◌>>◌, nat_eq, [], false, not, length, ◌∷◌, ◌==◌, if◌then◌else◌,
  Result, true, Bool, List, ℕ,
}
use pulsesyn.Text.{normalise, text_eq, CaseTable, trim_space, Text}
use pulsesyn.Float.{to_float, ◌⊕◌, ◌≤?◌, ◌⊘◌, ◌<?◌, nought, one, Float64}
use pulsesyn.Dict.{lookup, insert}

pub data ValidatorStatus : Type 0 where
  active suspended retired : ValidatorStatus
  -- any other string
  unknown : Text → ValidatorStatus

-- ErrValidatorIDEmpty, ErrDomainEmpty, ErrInvalidReputation, and the error of a negative number of days.
pub data ReputationError : Type 0 where
  validator_id_empty domain_empty invalid_reputation days_negative : ReputationError

abbrev pub DomainReputation : Type 0 → Type 0
DomainReputation F = List (Text × F)

pub record ValidatorRecord (F : Type 0) : Type 0 where
  pub validator_id : Text
  pub genesis_validator : Bool
  pub registration_epoch : ℕ
  pub domain_scores : DomainReputation F
  pub global_reputation : F
  pub total_validations : ℕ
  pub status : ValidatorStatus

-- `strings.TrimSpace(s) == ""`
abbrev pub is_blank : Text → Bool
is_blank s = trim_space s == []

-- `r.Status == ValidatorStatusActive`
abbrev pub is_active : ValidatorStatus → Bool
is_active active = true
is_active _ = false

module _ {F : Type 0} ⦃fl : Float64 F⦄ where
  abbrev pub eligibility_threshold : F
  eligibility_threshold = fl.ratio 15 100

  abbrev pub genesis_starting_reputation : F
  genesis_starting_reputation = fl.ratio 75 100

  abbrev pub reputation_floor : F
  reputation_floor = eligibility_threshold

  abbrev pub reputation_ceiling : F
  reputation_ceiling = one

  unfoldable pub clamp : F → F → F → F
  clamp v min max = if v <? min then min else if max <? v then max else v

  -- The score that a lookup found, or 0.0.
  abbrev pub score_or_nought : Option F → F
  score_or_nought none = nought
  score_or_nought (some score) = score

  -- `for _, v := range scores { sum += v }`
  unfoldable pub sum_scores : F → DomainReputation F → F
  sum_scores sum [] = sum
  sum_scores sum ((d, v) ∷ scores) = sum_scores (sum ⊕ v) scores

  unfoldable pub compute_global_reputation : DomainReputation F → F
  unfolding sum_scores
  compute_global_reputation scores =
      if length scores == 0 then nought else sum_scores nought scores ⊘ to_float (length scores)

  unfoldable pub new_validator_record : Text → ℕ → Result ReputationError (ValidatorRecord F)
  new_validator_record id epoch = do
    fail_if (is_blank id) validator_id_empty
    ok (record {
      validator_id = trim_space id;
      genesis_validator = false;
      registration_epoch = epoch;
      domain_scores = [];
      global_reputation = nought;
      total_validations = 0;
      status = active;
    })

  module _ ⦃u : CaseTable⦄ where
    -- The loop over the registered domains.
    unfoldable pub genesis_scores : DomainReputation F → List Text → DomainReputation F
    genesis_scores scores [] = scores
    genesis_scores scores (d ∷ domains) =
        let d' = normalise d in
        genesis_scores (if d' == [] then scores else insert d' genesis_starting_reputation scores)
          domains

    unfoldable pub new_genesis_validator_record :
        Text → List Text → ℕ → Result ReputationError (ValidatorRecord F)
    unfolding genesis_scores
    new_genesis_validator_record id domains epoch = do
      fail_if (is_blank id) validator_id_empty
      fail_if (length domains == 0) domain_empty
      let scores = genesis_scores [] domains
      ok (record {
        validator_id = trim_space id;
        genesis_validator = true;
        registration_epoch = epoch;
        domain_scores = scores;
        global_reputation = compute_global_reputation scores;
        total_validations = 0;
        status = active;
      })

    -- 0.0 where there is no history.
    unfoldable pub domain_score : ValidatorRecord F → Text → F
    domain_score r domain = elim (lookup (normalise domain) r.domain_scores) [
      | none ↦ nought
      | some score ↦ score
    ]

    unfoldable pub is_eligible_for_domain : ValidatorRecord F → Text → Bool
    is_eligible_for_domain r domain =
        if not (is_active r.status) then false else eligibility_threshold ≤? domain_score r domain

  unfoldable pub with_updated_domain_score : ValidatorRecord F → Text → F → ValidatorRecord F
  with_updated_domain_score r domain new_score =
      let scores = insert domain (clamp new_score nought reputation_ceiling) r.domain_scores in
      record r { domain_scores = scores; global_reputation = compute_global_reputation scores }
