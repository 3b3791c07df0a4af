-- ===== src/Simulation/Pool.antt =====
-- The pool of validators (validator.go), and the random source.
use pulsesyn.Prelude.{
  ◌+ℤ◌, pos, int_lt, not, ◌++◌, ◌&&◌, false, nat_eq, ◌==◌, take, ◌>>=◌, to_nat, true, err, ◌%◌,
  if◌then◌else◌, length, ◌∷◌, List, ◌-◌, ok, Bool, ◌/◌, suc, ◌+◌, ℤ, Result, ℕ, zero, [],
}
use pulsesyn.Text.{codes, CaseTable, Text, text_eq}
use pulsesyn.Float.{nought, ◌⊘◌, ◌≤?◌, ◌⊕◌, ◌<?◌, ◌⊖◌, ◌⊗◌, to_float, Float64}
use pulsesyn.Reputation.{
  apply_post_finalization_update, new_validator_record, eligibility_threshold, VoteOutcome,
  domain_score, ReputationError, ValidatorRecord,
}
use pulsesyn.Simulation.Config.{Config, ConfigError}
use pulsesyn.Bias.{BiasError}
use pulsesyn.Consensus.{ConsensusError}

-- `math/rand`, as functions of the source's state, and `int(x)`.
pub record Random (F : Type 0) : Type 1 where
  pub Rand : Type 0
  pub new_source : ℤ → Rand
  -- a number of [0.0, 1.0)
  pub float64 : Rand → F × Rand
  -- a permutation of 0, 1, …, n - 1
  pub perm : ℕ → Rand → List ℕ × Rand
  pub truncate : F → ℤ

-- An error of a core package, of the configuration, or a panic on an index.
pub data SimulationError : Type 0 where
  config_error : ConfigError → SimulationError
  reputation_error : ReputationError → SimulationError
  bias_error : BiasError → SimulationError
  consensus_error : ConsensusError → SimulationError
  index_out_of_range : SimulationError

abbrev pub raise : {E A : Type 0} → (E → SimulationError) → Result E A → Result SimulationError A
raise wrap (ok a) = ok a
raise wrap (err e) = err (wrap e)

pub record SimValidator (F : Type 0) : Type 0 where
  pub sim_record : ValidatorRecord F
  pub is_colluder : Bool
  pub bias_direction : F

-- The decimal digits of `n` in front of `rest`; `fuel` is above their number.
unfoldable pub decimal : ℕ → ℕ → Text → Text
decimal zero n rest = rest
decimal (suc fuel) n rest =
    let more = decimal fuel (n / 10) ((n % 10 + 48) ∷ rest) in
    if n / 10 == 0 then (n % 10 + 48) ∷ rest else more

abbrev pub zeros : ℕ → Text → Text
zeros zero s = s
zeros (suc n) s = 48 ∷ zeros n s

-- `%04d` and `%06d`
unfoldable pub padded_decimal : ℕ → ℕ → Text
unfolding decimal
padded_decimal width n = let digits = decimal (n + 1) n [] in zeros (width - length digits) digits

module _ {F : Type 0} ⦃fl : Float64 F⦄ ⦃u : CaseTable⦄ where
  -- The outcome that brings a score up.
  abbrev pub rising : ValidatorRecord F → Text → VoteOutcome F
  rising r domain = record {
    validator_id = r.validator_id;
    domain = domain;
    was_correct = true;
    confidence = fl.ratio 9 10;
    participated = true;
    was_late = false;
  }

  -- The loop of injectDomainReputation, with the iterations that are left.
  unfoldable pub raise_score : ℕ → ValidatorRecord F → Text → F → ValidatorRecord F
  raise_score zero r domain target = r
  raise_score (suc left) r domain target =
      if domain_score r domain <? (target ⊖ fl.ratio 5 100)
      then elim (apply_post_finalization_update r (rising r domain)) [
        | ok (updated, res) ↦ raise_score left updated domain target
        | err e ↦ r
      ]
      else r

  unfoldable pub inject_domain_reputation : ValidatorRecord F → Text → F → ValidatorRecord F
  unfolding raise_score
  inject_domain_reputation r domain target =
      let current = domain_score r domain in
      if ((target ⊖ fl.ratio 10 100) ≤? current) && (current ≤? (target ⊕ fl.ratio 10 100))
      then r
      else raise_score 40 r domain target

  module _ (random : Random F) where
    -- The reputation that validator `i` is to have: the mean of two uniform draws.
    abbrev pub target_reputation : random.Rand → F × random.Rand
    target_reputation rng =
        let (x, rng1) = random.float64 rng in
        let (y, rng2) = random.float64 rng1 in
        let rep_a = (x ⊗ fl.ratio 85 100) ⊕ eligibility_threshold in
        let rep_b = (y ⊗ fl.ratio 85 100) ⊕ eligibility_threshold in
        ((rep_a ⊕ rep_b) ⊘ to_float 2, rng2)

    -- `colluderCount` and `biasedCount`
    abbrev pub fraction_of : ℤ → F → ℤ
    fraction_of size rate = random.truncate (to_float (to_nat size) ⊗ rate)

    -- The body of the loop for validator `i`.
    abbrev pub make_validator : Config F → ℕ → F → Result SimulationError (SimValidator F)
    make_validator cfg i domain_rep = do
      r ← raise reputation_error (new_validator_record (codes "validator-" ++ padded_decimal 4 i) 0)
      let colluders = fraction_of cfg.validator_pool_size cfg.collusion_rate
      let biased = fraction_of cfg.validator_pool_size cfg.bias_rate
      let is_biased = not (int_lt (pos i) colluders) && int_lt (pos i) (colluders +ℤ biased)
      ok (record {
        sim_record = inject_domain_reputation r cfg.domain domain_rep;
        is_colluder = int_lt (pos i) colluders;
        bias_direction = if is_biased then cfg.bias_strength else nought;
      })

    -- The loop from validator `i` on, for the `left` that are left.
    unfoldable pub build_from :
        Config F
        → ℕ
        → ℕ
        → random.Rand
        → Result SimulationError (List (SimValidator F) × random.Rand)
    build_from cfg i zero rng = ok ([], rng)
    build_from cfg i (suc left) rng = do
      let (domain_rep, rng1) = target_reputation rng
      sv ← make_validator cfg i domain_rep
      rest ← build_from cfg (i + 1) left rng1
      ok (sv ∷ rest.0, rest.1)

    unfoldable pub build_validator_pool :
        Config F → random.Rand → Result SimulationError (List (SimValidator F) × random.Rand)
    unfolding build_from
    build_validator_pool cfg rng = build_from cfg 0 (to_nat cfg.validator_pool_size) rng

    -- The places in the pool of the validators that are drawn; a pointer is a place.
    unfoldable pub select_validators :
        List (SimValidator F) → ℕ → random.Rand → List ℕ × random.Rand
    select_validators pool set_size rng =
        let (indices, rng1) = random.perm (length pool) rng in (take set_size indices, rng1)
