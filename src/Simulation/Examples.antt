-- ===== src/Simulation/Examples.antt =====
-- The theorems on the simulation at a small run, and tests.
use pulsesyn.Prelude.{
  map, true, false, Bool, arith, ◌⊎◌, ◌^◌, ◌/◌, zero, ◌-◌, first_broken, ◌+◌, err, pos, refl, ◌%◌,
  ◌≢◌, report, ok, ◌∷◌, suc, to_nat, ◌≡◌, List, ℕ, [],
}
use pulsesyn.Text.{codes, trim_space, text_eq, ascii}
use pulsesyn.Float.Fixed.{fixed_float, Fixed}
use pulsesyn.Float.Fixed.{fixed-IsIeee}
use pulsesyn.Simulation.Report.{new_report, Report, run, run_rounds}
use pulsesyn.Simulation.Config.{collusion_30, default_scenario_config, Config, validate}
use pulsesyn.Simulation.Pool.{SimulationError, Random, SimValidator}
use pulsesyn.Verdict.{supported, unsupported, misleading, VerdictState}
use pulsesyn.Float.{IsUnit}
use pulsesyn.Consensus.{Vote}
use pulsesyn.Bias.{validate_observation, Tracker}
use pulsesyn.Reputation.{active}
use pulsesyn.Simulation.Profiles.{profile, run_rounds-profile}
use pulsesyn.Simulation.Round.{generate_claim_id, population_average}
use pulsesyn.Simulation.Averages.{observation_accepted}
use pulsesyn.Simulation.Blank.{blank_domain-fails}
use pulsesyn.Simulation.Rules.{validate_config-rules, config_rules}
use pulsesyn.Simulation.Tallies.{IsConsistent}
use pulsesyn.Simulation.Runs.{run-IsConsistent}

abbrev range : ℕ → ℕ → List ℕ
range start zero = []
range start (suc n) = start ∷ range (start + 1) n

-- A source that counts: its numbers are tenths, and its permutations change nothing.
abbrev counter : Random Fixed
counter = record {
  Rand = ℕ;
  new_source = to_nat;
  float64 = λ s. (fixed_float.ratio (s % 10) 10, s + 7);
  perm = λ n s. (range 0 n, s + 1);
  truncate = λ x. pos ((x.plus - x.minus) / 2 ^ 53);
}

abbrev small : Config Fixed
small = record (default_scenario_config collusion_30) {
  validator_pool_size = pos 11;
  validator_set_size = pos 3;
  rounds = pos 1;
  domain = codes "d";
}

abbrev unnamed : Config Fixed
unnamed = record small { domain = codes " " }

validate_config-rules_example : validate small ≡ report (first_broken (config_rules small))
validate_config-rules_example = validate_config-rules small

unnamed_accepted : validate unnamed ≡ ok tt
unfolding validate default_scenario_config
unnamed_accepted = refl

blank_domain-fails_example : run counter unnamed ≢ ok (new_report unnamed)
unfolding trim_space default_scenario_config
blank_domain-fails_example =
    blank_domain-fails fixed-IsIeee counter unnamed refl (new_report unnamed)

run-IsConsistent_example :
    ((e : SimulationError) × (run counter small ≡ err e))
    ⊎ ((report : Report Fixed) × (run counter small ≡ ok report) × IsConsistent 1 report)
run-IsConsistent_example = run-IsConsistent fixed-IsIeee counter small omega arith omega arith

abbrev ballot : VerdictState → Vote Fixed
ballot verdict = record {
  validator_id = codes "v";
  verdict = verdict;
  confidence = fixed_float.ratio 1 2;
  domain_reputation = fixed_float.ratio 1 2;
  bias_coefficient = fixed_float.ratio 0 1;
  validator_set_size = pos 3;
}

abbrev ballots : List (Vote Fixed)
ballots = ballot supported ∷ ballot unsupported ∷ ballot misleading ∷ []

observation_accepted_example :
    IsUnit (population_average ballots)
    × (validate_observation (record {
      claim_id = generate_claim_id 7;
      validator_verdict = supported;
      population_average_score = population_average ballots;
    })
        ≡ ok tt)
observation_accepted_example =
    observation_accepted fixed-IsIeee ballots supported 7 omega arith refl

abbrev member : ℕ → Bool → SimValidator Fixed
member i is_colluder = record {
  sim_record = record {
    validator_id = i ∷ [];
    genesis_validator = false;
    domain_scores = (codes "d", fixed_float.ratio 1 2) ∷ [];
    global_reputation = fixed_float.ratio 1 2;
    registration_epoch = 0;
    total_validations = 0;
    status = active;
  };
  is_colluder = is_colluder;
  bias_direction = fixed_float.ratio 0 1;
}

abbrev members : List (SimValidator Fixed)
members = member 97 true ∷ member 98 false ∷ member 99 false ∷ []

abbrev unused : Tracker Fixed
unused = record { window_size = 30; windows = [] }

run_rounds-profile_example :
    ((e : SimulationError) × (run_rounds counter small 2 0 members unused 4 (new_report small)
        ≡ err e))
    ⊎ ((ended : Report Fixed × (List (SimValidator Fixed) × Tracker Fixed)) × (run_rounds counter
            small 2 0 members unused 4
            (new_report small)
          ≡ ok ended)
        × (map profile ended.1.0 ≡ map profile members))
run_rounds-profile_example =
    run_rounds-profile fixed-IsIeee counter small 2 0 members unused 4 (new_report small)
