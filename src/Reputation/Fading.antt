-- ===== src/Reputation/Fading.antt =====
-- What ApplyDecay (decay.go) does to a record.
use pulsesyn.Prelude.{
  ap, inr, sym, inl, Bool-cases, ◌+◌, ◌≤◌, ◌∙◌, ◌-◌, ◌<◌, ◌⊎◌, to_nat, length, arith, ok, true,
  false, ◌≡◌, le_nat, ℤ,
}
use pulsesyn.Float.{nought, max_exact, ◌≼◌, to_float, ◌<?◌, ◌⊗◌, IsUnit, IsIeee, Float64}
use pulsesyn.Text.{text_eq, normalise, IsCaseTable, CaseTable}
use pulsesyn.Reputation.Decays.{
  decay_inactivity_days, decay_factor, DecayResult, DecayInput, apply_decay,
}
use pulsesyn.Reputation.Record.{
  with_updated_domain_score, reputation_ceiling, reputation_floor, clamp, domain_score,
  ValidatorRecord,
}
use pulsesyn.Reputation.Scores.{clamp-le, nought-le-floor, with_updated-IsValid, IsValid}
use pulsesyn.Float.Order.{ratio-IsUnit}
use pulsesyn.Reputation.Writes.{domain_score-IsUnit, domain_score-normalise, IsWrite}
use mathlib.Core.Path.{subst}
use pulsesyn.Reputation.Effects.{clamped}
use pulsesyn.Dict.{length-insert}
use pulsesyn.Reputation.Changes.{IsWrite-with_updated}

module _ {F : Type 0} ⦃fl : Float64 F⦄ ⦃u : CaseTable⦄ where
  -- The parts of a successful decay past the threshold.
  pub record IsDecayed (r : ValidatorRecord F) (input : DecayInput) (r' : ValidatorRecord F)
      (res : DecayResult F) : Type 0 where
    pub old : res.old_score ≡ domain_score r (normalise input.domain)
    pub new :
        res.new_score
        ≡ clamp
            (res.old_score ⊗ decay_factor input.days_inactive)
            reputation_floor
            reputation_ceiling
    pub applied : res.applied ≡ (res.new_score <? res.old_score)
    pub record_eq : r' ≡ with_updated_domain_score r (normalise input.domain) res.new_score

  pub decay-IsDecayed :
      (r : ValidatorRecord F) (input : DecayInput) {r' : ValidatorRecord F} {res : DecayResult F}
      → le_nat input.days_inactive decay_inactivity_days ≡ false
      → apply_decay r input ≡ ok (r', res)
      → IsDecayed r input r' res
  unfolding apply_decay
  decay-IsDecayed r input late h = ground arith

  module _ (laws : IsIeee F) (case_laws : IsCaseTable u) where
    -- Up to 30 days nothing is changed, and the result says so.
    pub decay_early :
        (r : ValidatorRecord F) (input : DecayInput) {r' : ValidatorRecord F} {res : DecayResult F}
        → le_nat input.days_inactive decay_inactivity_days ≡ true
        → apply_decay r input ≡ ok (r', res)
        → (r' ≡ r) × (res.applied ≡ false) × (res.new_score ≡ res.old_score)
    unfolding apply_decay
    decay_early r input early h = ground arith

    factor-IsUnit : (days : ℤ) → IsUnit {F = F} (decay_factor days)
    factor-IsUnit days =
        laws.pow_unit (fl.ratio 999 1000) (to_float (to_nat days - decay_inactivity_days))
          (ratio-IsUnit laws 999 1000 (omega arith) (omega arith))
          (laws.ratio_le 0 1 (to_nat days - decay_inactivity_days) 1 (omega arith) (omega arith)
            (omega arith))

    -- Past 30 days of inactivity an accepted decay of a valid record leaves a score between the floor
    -- and the ceiling, not above the old one, except at the floor; `applied` says whether the score fell; in
    -- every spelling of the domain the score is the new one, and the rest of the record is as before, the count of validations
    -- included.
    pub decay_effect :
        (r : ValidatorRecord F) (input : DecayInput) {r' : ValidatorRecord F} {res : DecayResult F}
        → IsValid r
        → le_nat input.days_inactive decay_inactivity_days ≡ false
        → apply_decay r input ≡ ok (r', res)
        → (res.old_score ≡ domain_score r input.domain)
          × (reputation_floor ≼ res.new_score)
          × (res.new_score ≼ reputation_ceiling)
          × ((res.new_score ≼ res.old_score) ⊎ (res.new_score ≡ reputation_floor))
          × (res.applied ≡ (res.new_score <? res.old_score))
          × IsWrite r r' input.domain res.new_score
          × (r'.total_validations ≡ r.total_validations)
    unfolding with_updated_domain_score
    decay_effect r input {r'} {res} v late h =
        let p = decay-IsDecayed r input late h in
        let e : res.old_score ≡ domain_score r input.domain =
          p.old ∙ domain_score-normalise laws case_laws r input.domain in
        let old : IsUnit res.old_score =
          subst IsUnit (sym e) (domain_score-IsUnit laws case_laws r input.domain v) in
        let product = res.old_score ⊗ decay_factor input.days_inactive in
        let (ge, le, _) =
          laws.mul_unit res.old_score (decay_factor input.days_inactive) old
            (factor-IsUnit input.days_inactive) in
        let (lo, hi) : (reputation_floor ≼ res.new_score) × (res.new_score ≼ reputation_ceiling) =
          rw p.new (clamped laws case_laws product (laws.refl_of_le _ _ le).0) in
        let unit : IsUnit res.new_score =
          (laws.le_trans nought reputation_floor res.new_score (nought-le-floor laws) lo, hi) in
        (
          e,
          lo,
          hi,
          rw p.new
              (clamp-le laws res.old_score product reputation_floor reputation_ceiling le old.1),
          p.applied,
          subst (λ x. IsWrite r x input.domain res.new_score) (sym p.record_eq)
              (IsWrite-with_updated laws case_laws r input.domain res.new_score unit),
          ap ValidatorRecord.total_validations p.record_eq,
        )

    pub decay-IsValid :
        (r : ValidatorRecord F) (input : DecayInput) {r' : ValidatorRecord F} {res : DecayResult F}
        → IsValid r
        → length r.domain_scores < max_exact
        → apply_decay r input ≡ ok (r', res)
        → IsValid r' × (length r'.domain_scores ≤ length r.domain_scores + 1)
    unfolding with_updated_domain_score
    decay-IsValid r input {r'} {res} v hl h =
        elim (Bool-cases (le_nat input.days_inactive decay_inactivity_days)) [
          | inl early ↦
              subst (λ x. IsValid x × (length x.domain_scores ≤ length r.domain_scores + 1))
                (sym (decay_early r input early h).0) (v, omega arith)
          | inr late ↦
              let (_, lo, _, _, _, _, _) = decay_effect r input v late h in
              subst (λ x. IsValid x × (length x.domain_scores ≤ length r.domain_scores + 1))
                (sym (decay-IsDecayed r input late h).record_eq)
                (
                  with_updated-IsValid laws r (normalise input.domain) res.new_score v
                      (laws.refl_of_le _ _ lo).1 hl,
                  length-insert (normalise input.domain)
                      (clamp res.new_score nought reputation_ceiling) r.domain_scores,
                )
        ]
