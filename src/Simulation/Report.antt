-- ===== src/Simulation/Report.antt =====
-- The report of a run, and the runs (report.go, simulation.go).
use pulsesyn.Prelude.{
  to_nat, pos, nat_eq, length, ltb, ◌>>=◌, suc, ◌&&◌, not, ok, if◌then◌else◌, ◌-◌, ◌∷◌, ℤ, Result,
  ◌+◌, ◌==◌, none, some, List, Option, ℕ, zero, [], ◌>>◌,
}
use pulsesyn.Text.{CaseTable, Text, text_eq}
use pulsesyn.Verdict.{verdict_eq, indeterminate, VerdictState}
use pulsesyn.Simulation.Config.{
  high_bias, validate, default_scenario_config, collusion_30, collusion_15, honest_network, Config,
  ScenarioName,
}
use pulsesyn.Float.{one, ◌≤?◌, ◌⊘◌, ◌⊕◌, to_float, nought, Float64}
use pulsesyn.Dict.{lookup, insert}
use pulsesyn.Simulation.Round.{simulate_round, RoundResult}
use pulsesyn.Simulation.Pool.{
  bias_error, build_validator_pool, config_error, raise, SimulationError, SimValidator, Random,
}
use pulsesyn.Bias.{new_tracker, bias_for, bias_moderate_threshold, Tracker}
use pulsesyn.Reputation.{domain_score}

-- A count for each verdict that was met.
abbrev pub Distribution : Type 0
Distribution = List (VerdictState × ℕ)

pub record Report (F : Type 0) : Type 0 where
  pub scenario : ScenarioName
  pub config : Config F
  pub total_rounds : ℕ
  pub correct_rounds : ℕ
  pub indeterminate_rounds : ℕ
  pub verdict_accuracy : F
  pub indeterminate_rate : F
  pub mean_participation_rate : F
  pub bias_detection_rate : F
  pub biased_validators_detected : ℕ
  pub verdict_distribution : Distribution
  pub reputation_convergence : F

abbrev pub count_or_zero : Option ℕ → ℕ
count_or_zero none = 0
count_or_zero (some n) = n

-- `r.VerdictDistribution[v]++`
abbrev pub count_verdict : VerdictState → Distribution → Distribution
count_verdict v counts = insert v (count_or_zero (lookup v counts) + 1) counts

module _ {F : Type 0} ⦃fl : Float64 F⦄ where
  unfoldable pub new_report : Config F → Report F
  new_report cfg = record {
    scenario = cfg.scenario;
    config = cfg;
    total_rounds = 0;
    correct_rounds = 0;
    indeterminate_rounds = 0;
    verdict_accuracy = nought;
    indeterminate_rate = nought;
    mean_participation_rate = nought;
    bias_detection_rate = nought;
    biased_validators_detected = 0;
    verdict_distribution = [];
    reputation_convergence = nought;
  }

  unfoldable pub accumulate : Report F → RoundResult F → Report F
  accumulate r result =
      let undecided = result.consensus_verdict == indeterminate in
      record r {
        total_rounds = r.total_rounds + 1;
        verdict_distribution = count_verdict result.consensus_verdict r.verdict_distribution;
        indeterminate_rounds =
            if undecided then r.indeterminate_rounds + 1 else r.indeterminate_rounds;
        correct_rounds =
            if not undecided && result.correct then r.correct_rounds + 1 else r.correct_rounds;
        mean_participation_rate = r.mean_participation_rate ⊕ result.participation_rate;
        bias_detection_rate =
            if ltb 0 result.bias_detection_events
            then r.bias_detection_rate ⊕ one
            else r.bias_detection_rate;
      }

  module _ ⦃u : CaseTable⦄ where
    -- `repSum += sv.record.DomainScore(domain)`
    unfoldable pub sum_reputation : F → List (SimValidator F) → Text → F
    sum_reputation sum [] domain = sum
    sum_reputation sum (sv ∷ pool) domain =
        sum_reputation (sum ⊕ domain_score sv.sim_record domain) pool domain

    -- The closure that Run makes over its tracker.
    unfoldable pub count_biased_validators : Tracker F → List (SimValidator F) → Text → ℕ
    count_biased_validators tracker [] domain = 0
    count_biased_validators tracker (sv ∷ pool) domain =
        let count = count_biased_validators tracker pool domain in
        if bias_moderate_threshold
          ≤? (bias_for tracker sv.sim_record.validator_id domain).coefficient
        then count + 1
        else count

    unfoldable pub finalise : Report F → List (SimValidator F) → Tracker F → Report F
    unfolding sum_reputation count_biased_validators
    finalise r pool tracker =
        let total = to_float r.total_rounds in
        let decided = r.total_rounds - r.indeterminate_rounds in
        let reputation = sum_reputation nought pool r.config.domain in
        if r.total_rounds == 0 then r else record r {
          mean_participation_rate = r.mean_participation_rate ⊘ total;
          bias_detection_rate = r.bias_detection_rate ⊘ total;
          verdict_accuracy =
              if ltb 0 decided
              then to_float r.correct_rounds ⊘ to_float decided
              else r.verdict_accuracy;
          indeterminate_rate = to_float r.indeterminate_rounds ⊘ total;
          reputation_convergence =
              if ltb 0 (length pool)
              then reputation ⊘ to_float (length pool)
              else r.reputation_convergence;
          biased_validators_detected = count_biased_validators tracker pool r.config.domain;
        }

    module _ (random : Random F) where
      -- The rounds from `round` on, for the `left` that are left.
      unfoldable pub run_rounds :
          Config F
          → ℕ
          → ℕ
          → List (SimValidator F)
          → Tracker F
          → random.Rand
          → Report F
          → Result SimulationError (Report F × (List (SimValidator F) × Tracker F))
      run_rounds cfg zero round pool tracker rng report = ok (report, (pool, tracker))
      run_rounds cfg (suc left) round pool tracker rng report = do
        done ← simulate_round random cfg pool tracker rng round
        let (result, (pool', (tracker', rng'))) = done
        run_rounds cfg left (round + 1) pool' tracker' rng' (accumulate report result)

      unfoldable pub run : Config F → Result SimulationError (Report F)
      unfolding run_rounds
      run cfg = do
        raise config_error (validate cfg)
        built ← build_validator_pool random cfg (random.new_source cfg.seed)
        tracker ← raise bias_error (new_tracker (pos 0))
        ended ← run_rounds cfg (to_nat cfg.rounds) 0 built.0 tracker built.1 (new_report cfg)
        ok (finalise ended.0 ended.1.0 ended.1.1)

      abbrev pub run_all : ℤ → List ScenarioName → Result SimulationError (List (Report F))
      run_all rounds [] = ok []
      run_all rounds (scenario ∷ scenarios) = do
        report ← run (record (default_scenario_config scenario) { rounds = rounds })
        reports ← run_all rounds scenarios
        ok (report ∷ reports)

      abbrev pub run_scenarios : ℤ → Result SimulationError (List (Report F))
      run_scenarios rounds =
          run_all rounds (honest_network ∷ collusion_15 ∷ collusion_30 ∷ high_bias ∷ [])
