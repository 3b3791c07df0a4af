-- ===== src/Simulation/Runs.antt =====
-- The report of a run (simulation.go).
use pulsesyn.Prelude.{
  ◌⊎◌, err, negsuc, lt_nat, ℤ, length-map, ◌+◌, refl, false, leb, map, inr, to_nat, ◌∙◌, inl,
  Result-cases, ok-injective, sym, zero, ap, pos, ok, suc, arith, ◌≡◌, ◌<◌, ◌≤◌, take, length, List,
  ℕ, [], ◌∷◌,
}
use pulsesyn.Text.{CaseTable, text_eq}
use pulsesyn.Float.{IsUnit, max_exact, IsIeee, Float64}
use pulsesyn.Simulation.Pool.{
  SimulationError, build_validator_pool, select_validators, SimValidator, Random,
}
use pulsesyn.Simulation.Config.{validate, Config}
use pulsesyn.Consensus.{compute_consensus, ConsensusResult, Vote, participation}
use pulsesyn.Simulation.Round.{
  generate_claim_id, record_votes, population_average, update_records, build_vote,
  generate_ground_truth, RoundResult, simulate_round, pool_at, GroundTruth, build_votes,
}
use pulsesyn.Bias.{new_tracker, Tracker}
use pulsesyn.Simulation.Tallies.{
  finalise-IsConsistent, new_report-IsTally, IsConsistent, accumulate-IsTally, IsTally, count_share,
}
use mathlib.Core.Path.{subst}
use pulsesyn.Consensus.Errors.{compute_consensus-eq-ok}
use pulsesyn.Simulation.Report.{new_report, run, accumulate, Report, run_rounds}
use pulsesyn.Consensus.Outcome.{decide_verdict_cases}

module _ {F : Type 0} ⦃fl : Float64 F⦄ ⦃u : CaseTable⦄ (laws : IsIeee F) (random : Random F) where
  length-take : (n : ℕ) (xs : List ℕ) → length (take n xs) ≤ n
  length-take zero xs = omega arith
  length-take (suc n) [] = omega arith
  length-take (suc n) (x ∷ xs) = omega (arith, length-take n xs)

  module _ (cfg : Config F) where
    -- One vote for each selected place.
    length-build_votes :
        (pool : List (SimValidator F)) (truth : GroundTruth F) (selected : List ℕ)
        (rng : random.Rand) {built : List (ℕ × Vote F) × random.Rand}
        → build_votes random cfg pool truth selected rng ≡ ok built
        → length built.0 ≡ length selected
    unfolding build_votes
    length-build_votes pool truth [] rng h = ap (λ b. length b.0) (sym (ok-injective _ _ h))
    length-build_votes pool truth (i ∷ selected) rng h = elim (Result-cases (pool_at pool i)) [
      | inl (sv, found) ↦
          let rng1 = (build_vote random cfg sv truth rng).1 in
          elim (Result-cases (build_votes random cfg pool truth selected rng1)) [
            | inl (rest, others) ↦
                let same = ok-injective _ _ (rw (found, others) at h) in
                ap (λ b. length b.0) (sym same)
                ∙ ap suc (length-build_votes pool truth selected rng1 others)
            | inr (e, failed) ↦ let clash = rw (found, failed) at h in cc
          ]
      | inr (e, failed) ↦ let clash = rw failed at h in cc
    ]

    -- What a round that succeeded went through.
    pub record Passed (pool : List (SimValidator F)) (tracker : Tracker F) (rng : random.Rand)
        (n : ℕ) (result : RoundResult F) (pool' : List (SimValidator F)) : Type 0 where
      pub truth : GroundTruth F
      pub votes : List (ℕ × Vote F)
      pub outcome : ConsensusResult F
      pub few : length votes ≤ to_nat cfg.validator_set_size
      pub agreed : compute_consensus (map (λ p. p.1) votes) cfg.validator_set_size ≡ ok outcome
      pub rate : result.participation_rate ≡ outcome.participation_rate
      pub updated : update_records random cfg pool truth votes ≡ ok pool'

    pub passed :
        (pool : List (SimValidator F)) (tracker : Tracker F) (rng : random.Rand) (n : ℕ)
        {out : RoundResult F × (List (SimValidator F) × (Tracker F × random.Rand))}
        → simulate_round random cfg pool tracker rng n ≡ ok out
        → Passed pool tracker rng n out.0 out.1.0
    unfolding simulate_round select_validators
    passed pool tracker rng n {out = out} h =
        let truth = (generate_ground_truth random cfg rng).0 in
        let rng1 = (generate_ground_truth random cfg rng).1 in
        let drawn = random.perm (length pool) rng1 in
        let selected = take (to_nat cfg.validator_set_size) drawn.0 in
        elim (Result-cases (build_votes random cfg pool truth selected drawn.1)) [
          | inl (built, e1) ↦
              let votes = map (λ p. p.1) built.0 in
              elim (Result-cases (compute_consensus votes cfg.validator_set_size)) [
                | inl (outcome, e2) ↦
                    elim (Result-cases (update_records random cfg pool truth built.0)) [
                      | inl (pool', e3) ↦
                          let average = population_average votes in
                          elim (Result-cases (
                            record_votes random cfg pool' (generate_claim_id n) average tracker
                              built.0)) [
                                | inl (recorded, e4) ↦
                                    let same = ok-injective _ _ (rw (e1, e2, e3, e4) at h) in
                                    let drawn_few =
                                      length-take (to_nat cfg.validator_set_size) drawn.0 in
                                    let one_each =
                                      length-build_votes pool truth selected drawn.1 e1 in
                                    subst
                                      (λ (o : RoundResult F
                                          × (List (SimValidator F) × (Tracker F × random.Rand))).
                                        Passed pool tracker rng n o.0 o.1.0)
                                      same
                                      (record {
                                        truth = truth;
                                        votes = built.0;
                                        outcome = outcome;
                                        few = omega (arith, drawn_few, one_each);
                                        agreed = e2;
                                        rate = refl;
                                        updated = e3;
                                      })
                                | inr (e, failed) ↦ let clash = rw (e1, e2, e3, failed) at h in cc
                              ]
                      | inr (e, failed) ↦ let clash = rw (e1, e2, failed) at h in cc
                    ]
                | inr (e, failed) ↦ let clash = rw (e1, failed) at h in cc
              ]
          | inr (e, failed) ↦ let clash = rw failed at h in cc
        ]

    participation-IsUnit :
        (votes : List (Vote F)) (size : ℕ)
        → 0 < size
        → size ≤ max_exact
        → length votes ≤ size
        → cfg.validator_set_size ≡ pos size
        → IsUnit (participation votes cfg.validator_set_size)
    unfolding participation
    participation-IsUnit votes size pos_size hs few e =
        let above : leb size 0 ≡ false = ground arith in
        rw (e, above) (count_share laws (length votes) size few pos_size hs)

    module _ (size : ℕ) (pos_size : 0 < size) (hs : size ≤ max_exact)
        (sized : cfg.validator_set_size ≡ pos size) where
      participation_rate-IsUnit :
          (pool : List (SimValidator F)) (tracker : Tracker F) (rng : random.Rand) (n : ℕ)
          (result : RoundResult F) (pool' : List (SimValidator F))
          → Passed pool tracker rng n result pool'
          → IsUnit result.participation_rate
      participation_rate-IsUnit pool tracker rng n result pool' p =
          let votes = map (λ q. q.1) p.votes in
          let (_, _, decided) = compute_consensus-eq-ok votes cfg.validator_set_size p.agreed in
          let (_, _, rate, _) =
            decide_verdict_cases votes (participation votes cfg.validator_set_size) in
          let e : result.participation_rate ≡ participation votes cfg.validator_set_size =
            p.rate ∙ ap ConsensusResult.participation_rate decided ∙ rate in
          let few : length votes ≤ size =
            omega (arith, length-map p.votes (λ q. q.1), p.few, ap to_nat sized) in
          rw e (participation-IsUnit votes size pos_size hs few sized)

      run_rounds-IsTally :
          (left n : ℕ) (pool : List (SimValidator F)) (tracker : Tracker F) (rng : random.Rand)
          (r : Report F) {ended : Report F × (List (SimValidator F) × Tracker F)}
          → n + left ≤ max_exact
          → IsTally n r
          → run_rounds random cfg left n pool tracker rng r ≡ ok ended
          → IsTally (n + left) ended.0
      unfolding run_rounds
      run_rounds-IsTally zero n pool tracker rng r hn t h =
          let same = ok-injective _ _ h in
          subst (λ (e : Report F × (List (SimValidator F) × Tracker F)). IsTally (n + 0) e.0) same
            (subst (λ (k : ℕ). IsTally k r) (omega arith) t)
      run_rounds-IsTally (suc left) n pool tracker rng r {ended = ended} hn t h =
          elim (Result-cases (simulate_round random cfg pool tracker rng n)) [
            | inl (out, done) ↦
                let unit =
                  participation_rate-IsUnit pool tracker rng n out.0 out.1.0
                    (passed pool tracker rng n done) in
                let rest =
                  run_rounds-IsTally left (n + 1) out.1.0 out.1.1.0 out.1.1.1 (accumulate r out.0)
                    omega arith (accumulate-IsTally laws n r out.0 omega arith unit t)
                    (rw done at h) in
                let sum : n + 1 + left ≡ n + suc left = omega arith in
                subst (λ (k : ℕ). IsTally k ended.0) sum rest
            | inr (e, failed) ↦ let clash = rw failed at h in cc
          ]

    -- Validate has found both to be positive.
    set_size_checked : validate cfg ≡ ok tt → lt_nat cfg.validator_set_size 3 ≡ false
    unfolding validate
    set_size_checked h = ground arith

    pub rounds_checked : validate cfg ≡ ok tt → lt_nat cfg.rounds 1 ≡ false
    unfolding validate
    rounds_checked h = ground arith

    pub positive : (z : ℤ) (n : ℕ) → lt_nat z (suc n) ≡ false → (k : ℕ) × (z ≡ pos k) × (0 < k)
    positive (pos k) n h = (k, refl, ground arith)
    positive (negsuc k) n h = cc

    returned-IsConsistent :
        (report : Report F)
        → to_nat cfg.validator_set_size ≤ max_exact
        → to_nat cfg.rounds ≤ max_exact
        → run random cfg ≡ ok report
        → IsConsistent (to_nat cfg.rounds) report
    unfolding run
    returned-IsConsistent report hs hr h = elim (Result-cases (validate cfg)) [
      | inl (_, valid) ↦
          let (size, sized, pos_size) =
            positive cfg.validator_set_size 2 (set_size_checked valid) in
          let (rounds, counted, pos_rounds) = positive cfg.rounds 0 (rounds_checked valid) in
          elim (Result-cases (build_validator_pool random cfg (random.new_source cfg.seed))) [
            | inl (built, e1) ↦ elim (Result-cases (new_tracker {F = F} (pos 0))) [
              | inl (tracker, e2) ↦
                  elim (Result-cases (
                    run_rounds random cfg (to_nat cfg.rounds) 0 built.0 tracker built.1
                      (new_report cfg))) [
                        | inl (ended, e3) ↦
                            let same = ok-injective _ _ (rw (valid, e1, e2, e3) at h) in
                            let tally =
                              run_rounds-IsTally size pos_size omega (arith, ap to_nat sized) sized
                                (to_nat cfg.rounds) 0 built.0 tracker built.1 (new_report cfg) omega
                                arith (new_report-IsTally laws cfg) e3 in
                            subst (IsConsistent (to_nat cfg.rounds)) same (
                              finalise-IsConsistent laws (to_nat cfg.rounds) ended.0 ended.1.0
                                ended.1.1 omega (arith, ap to_nat counted) hr
                                (subst (λ (k : ℕ). IsTally k ended.0) omega arith tally))
                        | inr (e, failed) ↦ let clash = rw (valid, e1, e2, failed) at h in cc
                      ]
              | inr (e, failed) ↦ let clash = rw (valid, e1, failed) at h in cc
            ]
            | inr (e, failed) ↦ let clash = rw (valid, failed) at h in cc
          ]
      | inr (e, failed) ↦ let clash = rw failed at h in cc
    ]

    -- For at most 2^53 rounds with at most 2^53 votes each, Run returns an error, or a report of as many
    -- rounds as the configuration has, in which the rounds with the right verdict and the undecided ones
    -- are no more, the counts by verdict add up to them, with the undecided under INDETERMINATE, and the
    -- accuracy, the indeterminate rate, the mean participation and the bias detection rate are in [0, 1].
    pub run-IsConsistent :
        to_nat cfg.validator_set_size ≤ max_exact
        → to_nat cfg.rounds ≤ max_exact
        → ((e : SimulationError) × (run random cfg ≡ err e))
          ⊎ ((report : Report F) × (run random cfg ≡ ok report)
              × IsConsistent (to_nat cfg.rounds) report)
    run-IsConsistent hs hr = elim (Result-cases (run random cfg)) [
      | inl (report, done) ↦ inr (report, done, returned-IsConsistent report hs hr done)
      | inr (e, failed) ↦ inl (e, failed)
    ]
