-- ===== src/Simulation/Blank.antt =====
-- A domain of white space (config.go).
use pulsesyn.Prelude.{
  pos, zero, to_nat, suc, true, arith, refl, inr, ◌==◌, ◌<◌, map, ap, inl, Result-cases, ok, ◌≢◌,
  List, ◌≡◌, ℕ, [], ◌∷◌,
}
use pulsesyn.Text.{trim_space, CaseTable, text_eq}
use pulsesyn.Float.{IsIeee, Float64}
use pulsesyn.Simulation.Pool.{build_validator_pool, SimValidator, Random}
use pulsesyn.Simulation.Config.{validate, Config}
use pulsesyn.Reputation.{apply_post_finalization_update, ValidatorRecord, validate_outcome}
use pulsesyn.Simulation.Round.{
  pool_at, simulate_round, outcome_of, RoundResult, GroundTruth, update_records,
}
use pulsesyn.Simulation.Report.{new_report, Report, run_rounds, run}
use pulsesyn.Bias.{new_tracker, Tracker}
use pulsesyn.Consensus.{Vote}
use pulsesyn.Simulation.Runs.{rounds_checked, positive, passed}
use pulsesyn.Consensus.Errors.{compute_consensus-eq-ok}
use pulsesyn.Reputation.Effects.{update-AreParts}

module _ {F : Type 0} ⦃fl : Float64 F⦄ ⦃u : CaseTable⦄ (laws : IsIeee F) (random : Random F)
    (cfg : Config F) (blank : trim_space cfg.domain ≡ []) where
  outcome_refused :
      (r : ValidatorRecord F) (truth : GroundTruth F) (v : Vote F)
      → validate_outcome (outcome_of random cfg r truth v) ≢ ok tt
  unfolding validate_outcome
  outcome_refused r truth v h =
      let empty : (trim_space cfg.domain == []) ≡ true = rw blank refl in absurd ground arith

  -- The first update of a round is refused.
  updates_refused :
      (pool : List (SimValidator F)) (truth : GroundTruth F) (votes : List (ℕ × Vote F))
      {pool' : List (SimValidator F)}
      → votes ≢ []
      → update_records random cfg pool truth votes ≢ ok pool'
  unfolding update_records
  updates_refused pool truth [] some_votes h = some_votes refl
  updates_refused pool truth ((i, v) ∷ votes) some_votes h = elim (Result-cases (pool_at pool i)) [
    | inl (sv, found) ↦
        let o = outcome_of random cfg sv.sim_record truth v in
        elim (Result-cases (apply_post_finalization_update sv.sim_record o)) [
          | inl ((r', res), accepted) ↦
              outcome_refused sv.sim_record truth v (update-AreParts sv.sim_record o accepted).valid
          | inr (e, failed) ↦ let clash = rw (found, failed) at h in cc
        ]
    | inr (e, failed) ↦ let clash = rw failed at h in cc
  ]

  round_fails :
      (pool : List (SimValidator F)) (tracker : Tracker F) (rng : random.Rand) (n : ℕ)
      {out : RoundResult F × (List (SimValidator F) × (Tracker F × random.Rand))}
      → simulate_round random cfg pool tracker rng n ≢ ok out
  round_fails pool tracker rng n h =
      let p = passed laws random cfg pool tracker rng n h in
      let (_, some_votes, _) = compute_consensus-eq-ok _ cfg.validator_set_size p.agreed in
      updates_refused pool p.truth p.votes (λ none_cast. some_votes (ap (map (λ q. q.1)) none_cast))
        p.updated

  rounds_fail :
      (left n : ℕ) (pool : List (SimValidator F)) (tracker : Tracker F) (rng : random.Rand)
      (r : Report F) {ended : Report F × (List (SimValidator F) × Tracker F)}
      → 0 < left
      → run_rounds random cfg left n pool tracker rng r ≢ ok ended
  unfolding run_rounds
  rounds_fail zero n pool tracker rng r some_left h = absurd omega arith
  rounds_fail (suc left) n pool tracker rng r some_left h =
      elim (Result-cases (simulate_round random cfg pool tracker rng n)) [
        | inl (out, done) ↦ round_fails pool tracker rng n done
        | inr (e, failed) ↦ let clash = rw failed at h in cc
      ]

  -- If the domain is white space, Run returns no report.
  pub blank_domain-fails : (report : Report F) → run random cfg ≢ ok report
  unfolding run
  blank_domain-fails report h = elim (Result-cases (validate cfg)) [
    | inl (_, valid) ↦
        let (rounds, counted, pos_rounds) =
          positive laws random cfg cfg.rounds 0 (rounds_checked laws random cfg valid) in
        elim (Result-cases (build_validator_pool random cfg (random.new_source cfg.seed))) [
          | inl (built, e1) ↦ elim (Result-cases (new_tracker {F = F} (pos 0))) [
            | inl (tracker, e2) ↦
                elim (Result-cases (
                  run_rounds random cfg (to_nat cfg.rounds) 0 built.0 tracker built.1
                    (new_report cfg))) [
                      | inl (ended, e3) ↦
                          rounds_fail (to_nat cfg.rounds) 0 built.0 tracker built.1 (new_report cfg)
                            omega (arith, ap to_nat counted) e3
                      | inr (e, failed) ↦ let clash = rw (valid, e1, e2, failed) at h in cc
                    ]
            | inr (e, failed) ↦ let clash = rw (valid, e1, failed) at h in cc
          ]
          | inr (e, failed) ↦ let clash = rw (valid, failed) at h in cc
        ]
    | inr (e, failed) ↦ let clash = rw failed at h in cc
  ]
