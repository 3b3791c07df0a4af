-- ===== src/Simulation/Config.antt =====
-- The configuration of a run, its validation, and the standard scenarios (config.go).
use pulsesyn.Prelude.{
  ok, if◌then◌else◌, ◌==◌, int_lt, lt_nat, not, Result, Bool, pos, ℤ, ℕ, [], ◌||◌, fail_if, ◌>>◌,
}
use pulsesyn.Text.{codes, Text, text_eq}
use pulsesyn.Verdict.{other, is_recognised, supported, VerdictState}
use pulsesyn.Float.{one, ◌<?◌, nought, Float64}

-- The last stands for every other string.
pub data ScenarioName : Type 0 where
  honest_network collusion_15 collusion_30 high_bias : ScenarioName
  other_scenario : Text → ScenarioName

pub record Config (F : Type 0) : Type 0 where
  pub scenario : ScenarioName
  pub validator_pool_size : ℤ
  pub validator_set_size : ℤ
  pub rounds : ℤ
  pub collusion_rate : F
  pub collusion_verdict : VerdictState
  pub bias_rate : F
  pub bias_strength : F
  pub domain : Text
  pub seed : ℤ

pub data ConfigError : Type 0 where
  pool_size_range set_size_range set_exceeds_pool rounds_range collusion_rate_range : ConfigError
  bias_rate_range bias_strength_range domain_required collusion_verdict_unrecognised : ConfigError

abbrev pub min_validator_pool_size : ℕ
min_validator_pool_size = 11

abbrev pub min_validator_set_size : ℕ
min_validator_set_size = 3

abbrev pub min_rounds : ℕ
min_rounds = 1

unfoldable pub validate_verdict_string : VerdictState → Result ConfigError (Unit {0})
validate_verdict_string v = fail_if (not (is_recognised v)) collusion_verdict_unrecognised

module _ {F : Type 0} ⦃fl : Float64 F⦄ where
  -- `x < 0.0 || x > 1.0`
  abbrev pub out_of_range : F → Bool
  out_of_range x = (x <? nought) || (one <? x)

  unfoldable pub validate : Config F → Result ConfigError (Unit {0})
  unfolding validate_verdict_string
  validate c = do
    fail_if (lt_nat c.validator_pool_size min_validator_pool_size) pool_size_range
    fail_if (lt_nat c.validator_set_size min_validator_set_size) set_size_range
    fail_if (int_lt c.validator_pool_size c.validator_set_size) set_exceeds_pool
    fail_if (lt_nat c.rounds min_rounds) rounds_range
    fail_if (out_of_range c.collusion_rate) collusion_rate_range
    fail_if (out_of_range c.bias_rate) bias_rate_range
    fail_if (out_of_range c.bias_strength) bias_strength_range
    fail_if (c.domain == []) domain_required
    if nought <? c.collusion_rate then validate_verdict_string c.collusion_verdict else ok tt

  abbrev pub base_config : ScenarioName → Config F
  base_config scenario = record {
    scenario = scenario;
    validator_pool_size = pos 100;
    validator_set_size = pos 11;
    rounds = pos 1000;
    collusion_rate = nought;
    collusion_verdict = other [];
    bias_rate = nought;
    bias_strength = nought;
    domain = codes "science";
    seed = pos 42;
  }

  unfoldable pub default_scenario_config : ScenarioName → Config F
  default_scenario_config honest_network = base_config honest_network
  default_scenario_config collusion_15 = record (base_config collusion_15) {
    collusion_rate = fl.ratio 15 100;
    collusion_verdict = supported;
  }
  default_scenario_config collusion_30 = record (base_config collusion_30) {
    collusion_rate = fl.ratio 30 100;
    collusion_verdict = supported;
  }
  default_scenario_config high_bias = record (base_config high_bias) {
    bias_rate = fl.ratio 40 100;
    bias_strength = fl.ratio 75 100;
  }
  default_scenario_config (other_scenario s) = base_config (other_scenario s)
