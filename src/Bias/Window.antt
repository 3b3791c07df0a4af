-- ===== src/Bias/Window.antt =====
-- A sliding window of observations, its bias coefficient and its response tier (bias.go).
use pulsesyn.Prelude.{
  negsuc, nat_beq, to_nat, ◌++◌, ◌||◌, lt_nat, ◌==◌, ok, drop, [], ltb, false, none, fail_if, leb,
  true, ◌>>◌, some, ◌∷◌, List, Result, pos, length, if◌then◌else◌, Option, Bool, ℤ, ℕ,
}
use pulsesyn.Float.{◌⊕◌, to_float, ◌<?◌, ◌≤?◌, ◌⊘◌, one, nought, ◌⊖◌, Float64}
use pulsesyn.Text.{text_eq, normalise, trim_space, CaseTable, Text}
use pulsesyn.Verdict.{indeterminate, misleading, unsupported, supported, other, VerdictState}

abbrev pub default_window_size : ℕ
default_window_size = 50

abbrev pub min_observations_for_bias : ℕ
min_observations_for_bias = 5

pub data ResponseTier : Type 0 where
  negligible moderate high severe : ResponseTier

-- The sentinel errors, and the error of an average outside the range.
pub data BiasError : Type 0 where
  validator_id_empty domain_empty claim_id_empty invalid_verdict_string : BiasError
  invalid_window_size average_range : BiasError

pub record ValidationObservation (F : Type 0) : Type 0 where
  pub claim_id : Text
  pub validator_verdict : VerdictState
  pub population_average_score : F

pub record BiasResult (F : Type 0) : Type 0 where
  pub validator_id : Text
  pub domain : Text
  pub coefficient : F
  pub tier : ResponseTier
  pub correction_factor : F
  pub observation_count : ℕ

-- The oldest observation is the first.
pub record Window (F : Type 0) : Type 0 where
  pub validator_id : Text
  pub domain : Text
  pub max_size : ℕ
  pub entries : List (ValidationObservation F)

pub record WindowConfig : Type 0 where
  pub validator_id : Text
  pub domain : Text
  pub max_size : ℤ

-- `if size == 0 { size = DefaultWindowSize }`
abbrev pub size_or_default : ℤ → ℤ
size_or_default (pos n) = pos (if nat_beq n 0 then default_window_size else n)
size_or_default (negsuc n) = negsuc n

unfoldable pub new_window :
    {F : Type 0} → ⦃u : CaseTable⦄ → WindowConfig → Result BiasError (Window F)
new_window cfg = do
  fail_if (trim_space cfg.validator_id == []) validator_id_empty
  fail_if (trim_space cfg.domain == []) domain_empty
  let size = size_or_default cfg.max_size
  fail_if (lt_nat size min_observations_for_bias) invalid_window_size
  ok (record {
    validator_id = trim_space cfg.validator_id;
    domain = normalise cfg.domain;
    max_size = to_nat size;
    entries = [];
  })

module _ {F : Type 0} ⦃fl : Float64 F⦄ where
  abbrev pub bias_exclusion_threshold : F
  bias_exclusion_threshold = fl.ratio 70 100

  abbrev pub bias_high_threshold : F
  bias_high_threshold = fl.ratio 50 100

  abbrev pub bias_moderate_threshold : F
  bias_moderate_threshold = fl.ratio 30 100

  -- A key that is missing from the map.
  abbrev pub verdict_score : VerdictState → Option F
  verdict_score supported = some one
  verdict_score unsupported = some nought
  verdict_score misleading = some (fl.ratio 1 2)
  verdict_score indeterminate = some (fl.ratio 1 2)
  verdict_score (other s) = none

  -- The zero value of a missing key.
  abbrev pub score_or_zero : Option F → F
  score_or_zero none = nought
  score_or_zero (some score) = score

  abbrev pub is_missing : Option F → Bool
  is_missing none = true
  is_missing (some score) = false

  unfoldable pub validate_observation : ValidationObservation F → Result BiasError (Unit {0})
  validate_observation obs = do
    fail_if (trim_space obs.claim_id == []) claim_id_empty
    fail_if (is_missing (verdict_score obs.validator_verdict)) invalid_verdict_string
    fail_if ((obs.population_average_score <? nought) || (one <? obs.population_average_score))
        average_range

  -- The window after `Add`, which is the same window where it fails.
  unfoldable pub add : Window F → ValidationObservation F → Result BiasError (Window F)
  add w obs = do
    validate_observation obs
    let kept = if leb w.max_size (length w.entries) then drop 1 w.entries else w.entries
    ok (record w { entries = kept ++ (obs ∷ []) })

  unfoldable pub deviation : ValidationObservation F → F
  deviation obs =
      let d = score_or_zero (verdict_score obs.validator_verdict) ⊖ obs.population_average_score in
      if d <? nought then fl.neg d else d

  -- The loop over the entries.
  unfoldable pub total_deviation : F → List (ValidationObservation F) → F
  total_deviation total [] = total
  total_deviation total (obs ∷ entries) = total_deviation (total ⊕ deviation obs) entries

  -- `a >= b` is `b <= a`
  unfoldable pub classify_tier : F → ResponseTier
  classify_tier coefficient =
      if bias_exclusion_threshold ≤? coefficient
      then severe
      else if bias_high_threshold ≤? coefficient
      then high
      else if bias_moderate_threshold ≤? coefficient
      then moderate
      else negligible

  -- The result of a validator of whom too little is known.
  abbrev pub no_bias : Text → Text → ℕ → BiasResult F
  no_bias validator_id domain count = record {
    validator_id = validator_id;
    domain = domain;
    coefficient = nought;
    tier = negligible;
    correction_factor = one;
    observation_count = count;
  }

  unfoldable pub compute_bias : Window F → BiasResult F
  compute_bias w =
      let count = length w.entries in
      let mean = total_deviation nought w.entries ⊘ to_float count in
      let capped = if one <? mean then one else mean in
      let coefficient = if capped <? nought then nought else capped in
      if ltb count min_observations_for_bias
      then no_bias w.validator_id w.domain count
      else record {
        validator_id = w.validator_id;
        domain = w.domain;
        coefficient = coefficient;
        tier = classify_tier coefficient;
        correction_factor = one ⊖ coefficient;
        observation_count = count;
      }

  unfoldable pub is_eligible_for_domain : BiasResult F → Bool
  is_eligible_for_domain result = result.coefficient <? bias_high_threshold
