-- ===== src/Reputation/Sound.antt =====
-- An invariant of reputation records, and that every operation of core/reputation keeps it.
use pulsesyn.Prelude.{
  ◌<◌, map, nat_beq, length-map, false, le_nat, inr, inl, ◌==◌, Bool-cases, refl, [], ◌^◌, sym, ◌%◌,
  ◌∷◌, length, arith, List, ◌+◌, ok, ◌≡◌, ◌≤◌, ℕ,
}
use mathlib.Core.List.{Perm}
use mathlib.Core.List.Perm
use pulsesyn.Float.Order.{nought-IsUnit}
use pulsesyn.Float.{◌⊕◌, ◌⊘◌, to_float, nought, max_exact, IsUnit, ◌≼◌, IsIeee, Float64}
use pulsesyn.Text.{normalise, text_eq, Text, IsCaseTable, CaseTable}
use pulsesyn.Reputation.Record.{
  sum_scores, active, new_genesis_validator_record, clamp, compute_global_reputation,
  with_updated_domain_score, genesis_scores, reputation_ceiling, genesis_starting_reputation,
  new_validator_record, DomainReputation, reputation_floor, ValidatorRecord,
}
use pulsesyn.Dict.{insert, length-insert, insert-AllValues, AllValues}
use pulsesyn.Reputation.Scores.{
  compute_global_reputation-IsUnit, clamp_inside, nought-le-floor, IsValid,
}
use pulsesyn.Reputation.Updates.{
  count_validation, apply_post_finalization_update, UpdateResult, VoteOutcome,
}
use mathlib.Core.Path.{subst}
use pulsesyn.Reputation.Decays.{decay_inactivity_days, apply_decay, DecayResult, DecayInput}
use pulsesyn.Reputation.Changes.{update_effect}
use pulsesyn.Reputation.Effects.{update-AreParts}
use pulsesyn.Reputation.Fading.{decay-IsDecayed, decay_effect, decay_early}

module _ {F : Type 0} ⦃fl : Float64 F⦄ ⦃u : CaseTable⦄ where
  abbrev pub IsEarned : F → Type 0
  IsEarned s = (reputation_floor ≼ s) × (s ≼ reputation_ceiling)

  abbrev total : F → List F → F
  total sum [] = sum
  total sum (x ∷ xs) = total (sum ⊕ x) xs

  abbrev pub average : List F → F
  average [] = nought
  average (x ∷ xs) = total nought (x ∷ xs) ⊘ to_float (length (x ∷ xs))

  -- The average of the scores on file, added up in some order: the order of a range loop is open, and
  -- rounding depends on it.
  abbrev pub IsMean : F → DomainReputation F → Type 0
  IsMean g scores =
      ∥ ((order : List F) × Perm order (map (λ p. p.1) scores) × (g ≡ average order)) ∥₁

  -- The state of a record after at most `n` domains registered and operations, `m` of them updates.
  pub record IsSound (r : ValidatorRecord F) (n m : ℕ) : Type 0 where
    pub scores : AllValues IsEarned r.domain_scores
    pub mean : IsMean r.global_reputation r.domain_scores
    pub global : IsUnit r.global_reputation
    pub bounded : length r.domain_scores ≤ n
    pub is_active : r.status ≡ active
    pub counted : r.total_validations ≡ m % 2 ^ 64

  sum_scores-eq-total :
      (sum : F) (m : DomainReputation F) → sum_scores sum m ≡ total sum (map (λ p. p.1) m)
  unfolding sum_scores
  sum_scores-eq-total sum [] = refl
  sum_scores-eq-total sum ((d, v) ∷ m) = sum_scores-eq-total (sum ⊕ v) m

  compute_global_reputation-eq-average :
      (m : DomainReputation F) → compute_global_reputation m ≡ average (map (λ p. p.1) m)
  unfolding compute_global_reputation
  compute_global_reputation-eq-average [] = refl
  compute_global_reputation-eq-average ((d, v) ∷ m) =
      let some_scores : nat_beq (length ((d, v) ∷ m)) 0 ≡ false = ground arith in
      rw
        (some_scores, sum_scores-eq-total nought ((d, v) ∷ m), length-map m (λ (p : Text × F). p.1))
        refl

  compute_global_reputation-IsMean :
      (m : DomainReputation F) → IsMean (compute_global_reputation m) m
  compute_global_reputation-IsMean m =
      ∣ (map (λ p. p.1) m, Perm.refl _, compute_global_reputation-eq-average m) ∣₁

  module _ (laws : IsIeee F) (case_laws : IsCaseTable u) where
    earned-IsUnit : (s : F) → IsEarned s → IsUnit s
    earned-IsUnit s (lo, hi) =
        (laws.le_trans nought reputation_floor s (nought-le-floor laws) lo, hi)

    scores-IsUnit : (m : DomainReputation F) → AllValues IsEarned m → AllValues IsUnit m
    scores-IsUnit [] h = tt
    scores-IsUnit ((d, s) ∷ m) (h, hs) = (earned-IsUnit s h, scores-IsUnit m hs)

    pub sound-IsValid : (r : ValidatorRecord F) {n m : ℕ} → IsSound r n m → IsValid r
    sound-IsValid r h = record {
      scores = scores-IsUnit r.domain_scores h.scores;
      global = h.global;
    }

    write-IsSound :
        (r : ValidatorRecord F) (d : Text) (s : F) {n m : ℕ}
        → n < max_exact
        → IsEarned s
        → IsSound r n m
        → IsSound (with_updated_domain_score r d s) (n + 1) m
    unfolding with_updated_domain_score
    write-IsSound r d s hn h sound =
        let c : clamp s nought reputation_ceiling ≡ s =
          clamp_inside laws s nought reputation_ceiling (earned-IsUnit s h).0 h.1 in
        let le = length-insert d (clamp s nought reputation_ceiling) r.domain_scores in
        let scores =
          insert-AllValues IsEarned d (clamp s nought reputation_ceiling) r.domain_scores (rw c h)
            sound.scores in
        record {
          scores = scores;
          mean =
              compute_global_reputation-IsMean
                (insert d (clamp s nought reputation_ceiling) r.domain_scores);
          global =
              compute_global_reputation-IsUnit laws
                (insert d (clamp s nought reputation_ceiling) r.domain_scores)
                (omega (arith, le, sound.bounded)) (scores-IsUnit _ scores);
          bounded = omega (arith, sound.bounded, le);
          is_active = sound.is_active;
          counted = sound.counted;
        }

    genesis-IsEarned : IsEarned genesis_starting_reputation
    genesis-IsEarned = (
      laws.ratio_le 15 100 75 100 (omega arith) (omega arith) (omega arith),
      laws.ratio_le 75 100 1 1 (omega arith) (omega arith) (omega arith),
    )

    genesis_scores-IsEarned :
        (m : DomainReputation F) (domains : List Text)
        → AllValues IsEarned m
        → AllValues IsEarned (genesis_scores m domains)
          × (length (genesis_scores m domains) ≤ length m + length domains)
    unfolding genesis_scores
    genesis_scores-IsEarned m [] h = (h, omega arith)
    genesis_scores-IsEarned m (d ∷ domains) h = elim (Bool-cases (normalise d == [])) [
      | inl blank ↦
          let (all, le) = genesis_scores-IsEarned m domains h in rw blank (all, omega arith)
      | inr named ↦
          let (all, le) =
            genesis_scores-IsEarned (insert (normalise d) genesis_starting_reputation m) domains (
              insert-AllValues IsEarned (normalise d) genesis_starting_reputation m genesis-IsEarned
                h) in
          let bound = length-insert (normalise d) genesis_starting_reputation m in
          rw named (all, omega arith)
    ]

    registered-eq :
        (id : Text) (epoch : ℕ) {r : ValidatorRecord F}
        → new_validator_record id epoch ≡ ok r
        → (r.domain_scores ≡ [])
          × (r.global_reputation ≡ nought)
          × (r.status ≡ active)
          × (r.total_validations ≡ 0)
    unfolding new_validator_record
    registered-eq id epoch h = ground arith

    pub registered-IsSound :
        (id : Text) (epoch : ℕ) {r : ValidatorRecord F}
        → new_validator_record id epoch ≡ ok r
        → IsSound r 0 0
    registered-IsSound id epoch h =
        let (scores, mean, status, count) = registered-eq id epoch h in
        record {
          scores = subst (AllValues IsEarned) (sym scores) tt;
          mean = rw (scores, mean) (∣ ([], Perm.refl _, refl) ∣₁);
          global = rw mean (nought-IsUnit laws);
          bounded = rw scores (omega arith);
          is_active = status;
          counted = count;
        }

    genesis-eq :
        (id : Text) (domains : List Text) (epoch : ℕ) {r : ValidatorRecord F}
        → new_genesis_validator_record id domains epoch ≡ ok r
        → (r.domain_scores ≡ genesis_scores [] domains)
          × (r.global_reputation ≡ compute_global_reputation r.domain_scores)
          × (r.status ≡ active)
          × (r.total_validations ≡ 0)
    unfolding new_genesis_validator_record
    genesis-eq id domains epoch h = ground arith

    pub genesis-IsSound :
        (id : Text) (domains : List Text) (epoch : ℕ) {r : ValidatorRecord F}
        → new_genesis_validator_record id domains epoch ≡ ok r
        → length domains ≤ max_exact
        → IsSound r (length domains) 0
    genesis-IsSound id domains epoch {r = r} h hn =
        let (scores, mean, status, count) = genesis-eq id domains epoch h in
        let (earned, le) = genesis_scores-IsEarned [] domains tt in
        let all = subst (AllValues IsEarned) (sym scores) earned in
        let few : length r.domain_scores ≤ length domains = rw scores (omega (arith, le)) in
        record {
          scores = all;
          mean = rw mean (compute_global_reputation-IsMean r.domain_scores);
          global = rw mean (
              compute_global_reputation-IsUnit laws r.domain_scores omega arith
                (scores-IsUnit r.domain_scores all));
          bounded = few;
          is_active = status;
          counted = count;
        }

    counted-IsSound :
        (r : ValidatorRecord F) {n m : ℕ} → IsSound r n m → IsSound (count_validation r) n (m + 1)
    counted-IsSound r {n} {m} sound = record {
      scores = sound.scores;
      mean = sound.mean;
      global = sound.global;
      bounded = sound.bounded;
      is_active = sound.is_active;
      counted = omega (arith, sound.counted);
    }

    later-IsSound : (r : ValidatorRecord F) {n m : ℕ} → IsSound r n m → IsSound r (n + 1) m
    later-IsSound r sound = record {
      scores = sound.scores;
      mean = sound.mean;
      global = sound.global;
      bounded = omega (arith, sound.bounded);
      is_active = sound.is_active;
      counted = sound.counted;
    }

    pub updated-IsSound :
        (r : ValidatorRecord F) (o : VoteOutcome F) {r' : ValidatorRecord F} {res : UpdateResult F}
        {n m : ℕ}
        → n < max_exact
        → IsSound r n m
        → apply_post_finalization_update r o ≡ ok (r', res)
        → IsSound r' (n + 1) (m + 1)
    updated-IsSound r o {res = res} {n} {m} hn sound h =
        let (_, lo, hi, _, _, _) = update_effect laws case_laws r o (sound-IsValid r sound) h in
        subst (λ x. IsSound x (n + 1) (m + 1)) (sym (update-AreParts r o h).record_eq)
          (counted-IsSound (with_updated_domain_score r (normalise o.domain) res.new_score)
            (write-IsSound r (normalise o.domain) res.new_score hn (lo, hi) sound))

    pub decayed-IsSound :
        (r : ValidatorRecord F) (input : DecayInput) {r' : ValidatorRecord F} {res : DecayResult F}
        {n m : ℕ}
        → n < max_exact
        → IsSound r n m
        → apply_decay r input ≡ ok (r', res)
        → IsSound r' (n + 1) m
    decayed-IsSound r input {res = res} {n} {m} hn sound h =
        elim (Bool-cases (le_nat input.days_inactive decay_inactivity_days)) [
          | inl early ↦
              subst (λ x. IsSound x (n + 1) m) (sym (decay_early laws case_laws r input early h).0)
                (later-IsSound r sound)
          | inr late ↦
              let (_, lo, hi, _, _, _, _) =
                decay_effect laws case_laws r input (sound-IsValid r sound) late h in
              subst (λ x. IsSound x (n + 1) m) (sym (decay-IsDecayed r input late h).record_eq)
                (write-IsSound r (normalise input.domain) res.new_score hn (lo, hi) sound)
        ]
