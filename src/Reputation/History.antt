-- ===== src/Reputation/History.antt =====
-- The records that the operations of core/reputation can build, from registration on.
use pulsesyn.Prelude.{
  refl, none, ◌+◌, false, arith, length, List, ◌↔◌, ok, some, true, ◌≡◌, ◌≤◌, Option, ℕ,
}
use pulsesyn.Float.{nought, ◌≤?◌, max_exact, IsIeee, Float64}
use pulsesyn.Text.{text_eq, normalise, IsCaseTable, Text, CaseTable}
use pulsesyn.Reputation.Record.{
  score_or_nought, new_genesis_validator_record, eligibility_threshold, active, domain_score,
  is_eligible_for_domain, new_validator_record, ValidatorRecord,
}
use pulsesyn.Reputation.Sound.{
  decayed-IsSound, updated-IsSound, genesis-IsSound, IsEarned, registered-IsSound, IsSound,
}
use pulsesyn.Dict.{lookup-AllValues, lookup}
use pulsesyn.Reputation.Updates.{apply_post_finalization_update, UpdateResult, VoteOutcome}
use pulsesyn.Float.Order.{not-le_of_lt}
use pulsesyn.Reputation.Decays.{apply_decay, DecayResult, DecayInput}

module _ {F : Type 0} ⦃fl : Float64 F⦄ ⦃u : CaseTable⦄ where
  -- `Reached r n m`: `r` comes from a registration by updates and decays; `n` counts the domains
  -- registered and the operations, `m` the updates.
  pub data Reached : ValidatorRecord F → ℕ → ℕ → Type 0 where
    registered :
        (id : Text) (epoch : ℕ) {r : ValidatorRecord F}
        → new_validator_record id epoch ≡ ok r
        → Reached r 0 0
    genesis :
        (id : Text) (domains : List Text) (epoch : ℕ) {r : ValidatorRecord F}
        → new_genesis_validator_record id domains epoch ≡ ok r
        → Reached r (length domains) 0
    updated :
        {r r' : ValidatorRecord F} {n m : ℕ} (o : VoteOutcome F) {res : UpdateResult F}
        → Reached r n m
        → apply_post_finalization_update r o ≡ ok (r', res)
        → Reached r' (n + 1) (m + 1)
    decayed :
        {r r' : ValidatorRecord F} {n m : ℕ} (input : DecayInput) {res : DecayResult F}
        → Reached r n m
        → apply_decay r input ≡ ok (r', res)
        → Reached r' (n + 1) m

  module _ (laws : IsIeee F) (case_laws : IsCaseTable u) where
    -- Whatever updates and decays follow a registration, every score on file is between the floor and
    -- the ceiling; the global reputation is in [0, 1], 0 where there is no score, and otherwise the sum
    -- of the scores, added up from 0 in some order, divided by their number; the validator is active;
    -- there are no more scores than domains registered and operations; and the count of validations is
    -- the number of updates, those for an absence or a late vote included, modulo 2^64: for up to 2^53
    -- domains and operations.
    pub Reached-IsSound :
        (r : ValidatorRecord F) (n m : ℕ) → n ≤ max_exact → Reached r n m → IsSound r n m
    Reached-IsSound r n m hn (registered id epoch h) = registered-IsSound laws case_laws id epoch h
    Reached-IsSound r n m hn (genesis id domains epoch h) =
        genesis-IsSound laws case_laws id domains epoch h hn
    Reached-IsSound r n m hn (updated {r = before} o reached h) =
        updated-IsSound laws case_laws before o (omega arith)
          (Reached-IsSound before _ _ (omega arith) reached) h
    Reached-IsSound r n m hn (decayed {r = before} input reached h) =
        decayed-IsSound laws case_laws before input (omega arith)
          (Reached-IsSound before _ _ (omega arith) reached) h

    active_eligible :
        (r : ValidatorRecord F) (d : Text)
        → r.status ≡ active
        → is_eligible_for_domain r d
          ≡ (eligibility_threshold ≤? score_or_nought (lookup (normalise d) r.domain_scores))
    unfolding is_eligible_for_domain domain_score
    active_eligible r d h = ground arith

    eligible_found :
        (o : Option F)
        → ((s : F) → o ≡ some s → IsEarned s)
        → ((eligibility_threshold ≤? score_or_nought o) ≡ true) ↔ ((s : F) × (o ≡ some s))
    eligible_found none h =
        let below : ◌≤?◌ {F = F} eligibility_threshold nought ≡ false =
          not-le_of_lt laws nought eligibility_threshold (
            laws.ratio_lt 0 1 15 100 (omega arith) (omega arith) (omega arith) (omega arith)
              (omega arith)) in
        rw below ground arith
    eligible_found (some s) h = (λ _. (s, refl), λ _. (h s refl).0)

    -- Whatever updates and decays follow a registration, up to 2^53 domains and operations, the
    -- validator is eligible for a domain exactly if a score of the domain is on file.
    pub Reached-eligible :
        (r : ValidatorRecord F) (n m : ℕ) (d : Text)
        → n ≤ max_exact
        → Reached r n m
        → (is_eligible_for_domain r d ≡ true)
          ↔ ((s : F) × (lookup (normalise d) r.domain_scores ≡ some s))
    Reached-eligible r n m d hn reached =
        let sound = Reached-IsSound r n m hn reached in
        rw (active_eligible r d sound.is_active) (
          eligible_found (lookup (normalise d) r.domain_scores)
            (λ s. lookup-AllValues IsEarned (normalise d) r.domain_scores {v = s} sound.scores))
