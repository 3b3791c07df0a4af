-- ===== src/Simulation/Profiles.antt =====
-- What a round keeps of the pool (round.go).
use pulsesyn.Prelude.{
  ◌⊎◌, err, refl, map, inr, ◌∙◌, inl, Result-cases, ok-injective, sym, zero, ap, ◌+◌, ok, suc, ◌≡◌,
  List, ℕ, [], ◌∷◌, Bool,
}
use pulsesyn.Text.{CaseTable, Text, normalise}
use pulsesyn.Float.{IsIeee, Float64}
use pulsesyn.Simulation.Pool.{SimulationError, SimValidator, Random}
use pulsesyn.Simulation.Config.{Config}
use pulsesyn.Consensus.{Vote}
use pulsesyn.Simulation.Round.{
  update_records, simulate_round, pool_at, pool_set, GroundTruth, outcome_of,
}
use pulsesyn.Bias.{Tracker}
use pulsesyn.Simulation.Report.{Report, accumulate, run_rounds}
use pulsesyn.Reputation.{
  apply_post_finalization_update, with_updated_domain_score, UpdateResult, ValidatorRecord,
  ValidatorStatus, VoteOutcome,
}
use pulsesyn.Reputation.Effects.{update-AreParts}
use pulsesyn.Simulation.Runs.{passed}

module _ {F : Type 0} ⦃fl : Float64 F⦄ where
  -- What a validator is, apart from its scores: its identity, epoch and status, whether it colludes,
  -- and its bias.
  abbrev pub identity : ValidatorRecord F → Text × (ℕ × ValidatorStatus)
  identity r = (r.validator_id, (r.registration_epoch, r.status))

  abbrev pub profile : SimValidator F → (Text × (ℕ × ValidatorStatus)) × (Bool × F)
  profile sv = (identity sv.sim_record, (sv.is_colluder, sv.bias_direction))

  pool_set-profile :
      (pool : List (SimValidator F)) (i : ℕ) (sv sv' : SimValidator F)
      → pool_at pool i ≡ ok sv
      → profile sv' ≡ profile sv
      → map profile (pool_set pool i sv') ≡ map profile pool
  pool_set-profile [] i sv sv' found same = refl
  pool_set-profile (x ∷ pool) zero sv sv' found same =
      ap (λ p. p ∷ map profile pool) (same ∙ ap profile (sym (ok-injective _ _ found)))
  pool_set-profile (x ∷ pool) (suc i) sv sv' found same =
      ap (λ ps. profile x ∷ ps) (pool_set-profile pool i sv sv' found same)

  written-identity :
      (r : ValidatorRecord F) (domain : Text) (s : F)
      → identity (with_updated_domain_score r domain s) ≡ identity r
  unfolding with_updated_domain_score
  written-identity r domain s = refl

  module _ ⦃u : CaseTable⦄ (laws : IsIeee F) (random : Random F) (cfg : Config F) where
    updated-identity :
        (r : ValidatorRecord F) (o : VoteOutcome F) {r' : ValidatorRecord F} {res : UpdateResult F}
        → apply_post_finalization_update r o ≡ ok (r', res)
        → identity r' ≡ identity r
    updated-identity r o {r' = r'} {res = res} h =
        ap identity (update-AreParts r o h).record_eq
        ∙ written-identity r (normalise o.domain) res.new_score

    update_records-profile :
        (pool : List (SimValidator F)) (truth : GroundTruth F) (votes : List (ℕ × Vote F))
        {pool' : List (SimValidator F)}
        → update_records random cfg pool truth votes ≡ ok pool'
        → map profile pool' ≡ map profile pool
    unfolding update_records
    update_records-profile pool truth [] h = ap (map profile) (sym (ok-injective _ _ h))
    update_records-profile pool truth ((i, v) ∷ votes) h = elim (Result-cases (pool_at pool i)) [
      | inl (sv, found) ↦
          let o = outcome_of random cfg sv.sim_record truth v in
          elim (Result-cases (apply_post_finalization_update sv.sim_record o)) [
            | inl ((r', res), accepted) ↦
                let sv' : SimValidator F = record sv { sim_record = r' } in
                let same =
                  ap (λ k. (k, (sv.is_colluder, sv.bias_direction)))
                    (updated-identity sv.sim_record o accepted) in
                update_records-profile (pool_set pool i sv') truth votes (rw (found, accepted) at h)
                ∙ pool_set-profile pool i sv sv' found same
            | inr (e, failed) ↦ let clash = rw (found, failed) at h in cc
          ]
      | inr (e, failed) ↦ let clash = rw failed at h in cc
    ]

    run_rounds-kept :
        (left n : ℕ) (pool : List (SimValidator F)) (tracker : Tracker F) (rng : random.Rand)
        (r : Report F) {ended : Report F × (List (SimValidator F) × Tracker F)}
        → run_rounds random cfg left n pool tracker rng r ≡ ok ended
        → map profile ended.1.0 ≡ map profile pool
    unfolding run_rounds
    run_rounds-kept zero n pool tracker rng r h =
        ap (λ e. map profile e.1.0) (sym (ok-injective _ _ h))
    run_rounds-kept (suc left) n pool tracker rng r h =
        elim (Result-cases (simulate_round random cfg pool tracker rng n)) [
          | inl (out, done) ↦
              let p = passed laws random cfg pool tracker rng n done in
              run_rounds-kept left (n + 1) out.1.0 out.1.1.0 out.1.1.1 (accumulate r out.0)
                (rw done at h)
              ∙ update_records-profile pool p.truth p.votes p.updated
          | inr (e, failed) ↦ let clash = rw failed at h in cc
        ]

    -- The rounds of a run, however many, end with an error, or with a pool of the same validators, in
    -- the same order, each with its identity, epoch, status, part in the collusion and bias.
    pub run_rounds-profile :
        (left n : ℕ) (pool : List (SimValidator F)) (tracker : Tracker F) (rng : random.Rand)
        (r : Report F)
        → ((e : SimulationError) × (run_rounds random cfg left n pool tracker rng r ≡ err e))
          ⊎ ((ended : Report F × (List (SimValidator F) × Tracker F)) × (run_rounds random cfg left
                  n pool tracker rng r
                ≡ ok ended)
              × (map profile ended.1.0 ≡ map profile pool))
    run_rounds-profile left n pool tracker rng r =
        elim (Result-cases (run_rounds random cfg left n pool tracker rng r)) [
          | inl (ended, done) ↦ inr (ended, done, run_rounds-kept left n pool tracker rng r done)
          | inr (e, failed) ↦ inl (e, failed)
        ]
