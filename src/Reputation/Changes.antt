-- ===== src/Reputation/Changes.antt =====
-- Accepted updates (updates.go): their direction, their bounds, and what they leave alone.
use pulsesyn.Prelude.{
  ==_refl, arith, ap, ◌≤◌, ◌<◌, ◌⊎◌, length, if◌then◌else◌, inr, ◌^◌, inl, ◌%◌, Bool-cases, ◌+◌,
  refl, ◌∙◌, ok, sym, ◌≡◌,
}
use pulsesyn.Float.{max_exact, nought, ◌≼◌, ◌⊕◌, IsUnit, IsIeee, Float64}
use pulsesyn.Text.{text_eq, normalise, Text, IsCaseTable, CaseTable}
use pulsesyn.Reputation.Record.{
  is_active, is_eligible_for_domain, clamp, reputation_ceiling, domain_score, reputation_floor,
  with_updated_domain_score, ValidatorRecord,
}
use pulsesyn.Reputation.Updates.{
  count_validation, compute_delta, apply_post_finalization_update, UpdateResult, VoteOutcome,
}
use pulsesyn.Reputation.Writes.{
  domain_score-normalise, domain_score-IsUnit, domain_score-with_updated, IsWrite,
}
use pulsesyn.Reputation.Scores.{
  with_updated-IsValid, clamp-le, le-clamp, nought-le-floor, clamp_inside, IsValid,
}
use pulsesyn.Reputation.Effects.{
  compute_delta_table, delta_size, update-AreParts, gains, clamped, changed_score, AreParts,
}
use mathlib.Core.Path.{subst}
use pulsesyn.Dict.{length-insert}

module _ {F : Type 0} ⦃fl : Float64 F⦄ ⦃u : CaseTable⦄ (laws : IsIeee F)
    (case_laws : IsCaseTable u) where
  -- A score inside [0, 1] is written as it is.
  pub IsWrite-with_updated :
      (r : ValidatorRecord F) (d : Text) (s : F)
      → IsUnit s
      → IsWrite r (with_updated_domain_score r (normalise d) s) d s
  unfolding with_updated_domain_score
  IsWrite-with_updated r d s h = record {
    scores = λ j.
        rw
          (
            domain_score-with_updated laws case_laws r d j s,
            clamp_inside laws s nought reputation_ceiling h.0 h.1,
          )
          refl;
    same_id = refl;
    same_genesis = refl;
    same_epoch = refl;
    same_status = refl;
  }

  counted-IsWrite :
      (r : ValidatorRecord F) (d : Text) (s : F)
      → IsUnit s
      → IsWrite r (count_validation (with_updated_domain_score r (normalise d) s)) d s
        × ((count_validation (with_updated_domain_score r (normalise d) s)).total_validations
            ≡ (r.total_validations + 1) % 2 ^ 64)
  unfolding with_updated_domain_score domain_score
  counted-IsWrite r d s h =
      let w = IsWrite-with_updated r d s h in
      (
        record {
          scores = w.scores;
          same_id = refl;
          same_genesis = refl;
          same_epoch = refl;
          same_status = refl;
        },
        refl,
      )

  module _ (r : ValidatorRecord F) (o : VoteOutcome F) {r' : ValidatorRecord F}
      {res : UpdateResult F} (v : IsValid r) (p : AreParts r o r' res) where
    old_score-eq : res.old_score ≡ domain_score r o.domain
    old_score-eq = p.old ∙ domain_score-normalise laws case_laws r o.domain

    old_score-IsUnit : IsUnit res.old_score
    old_score-IsUnit =
        subst IsUnit (sym old_score-eq) (domain_score-IsUnit laws case_laws r o.domain v)

    sum_refl : (res.old_score ⊕ (compute_delta o).0) ≼ (res.old_score ⊕ (compute_delta o).0)
    sum_refl =
        let c = changed_score laws case_laws res.old_score o old_score-IsUnit in
        elim (Bool-cases (gains o)) [
          | inl e ↦ (laws.refl_of_le _ _ (rw e at c)).1
          | inr e ↦ (laws.refl_of_le _ _ (rw e at c)).0
        ]

    -- The score after an accepted update is between the floor and the ceiling.
    new_score-InRange : (reputation_floor ≼ res.new_score) × (res.new_score ≼ reputation_ceiling)
    new_score-InRange =
        rw p.new (clamped laws case_laws (res.old_score ⊕ (compute_delta o).0) sum_refl)

  -- After an accepted update of a valid record the domain's score, in every spelling of the domain,
  -- is the new score, which is the old one moved by the table's size, up for a timely right vote and
  -- down for any other outcome, and clamped between the floor and the ceiling; every other domain's
  -- score, the identity, the epoch and the status are as before, and one more validation is counted,
  -- for an absence or a late vote too, modulo 2^64.
  pub update_effect :
      (r : ValidatorRecord F) (o : VoteOutcome F) {r' : ValidatorRecord F} {res : UpdateResult F}
      → IsValid r
      → apply_post_finalization_update r o ≡ ok (r', res)
      → (res.old_score ≡ domain_score r o.domain)
        × (reputation_floor ≼ res.new_score)
        × (res.new_score ≼ reputation_ceiling)
        × IsWrite r r' o.domain res.new_score
        × (r'.total_validations ≡ (r.total_validations + 1) % 2 ^ 64)
        × (res.new_score
            ≡ clamp
                (domain_score r o.domain
                  ⊕ (if gains o then delta_size o else fl.neg (delta_size o)))
                reputation_floor
                reputation_ceiling)
  update_effect r o {r'} {res} v h =
      let p = update-AreParts r o h in
      let (lo, hi) = new_score-InRange r o v p in
      let unit : IsUnit res.new_score =
        (laws.le_trans nought reputation_floor res.new_score (nought-le-floor laws) lo, hi) in
      let (w, n) = counted-IsWrite r o.domain res.new_score unit in
      (
        old_score-eq r o v p,
        lo,
        hi,
        subst (λ x. IsWrite r x o.domain res.new_score) (sym p.record_eq) w,
        ap ValidatorRecord.total_validations p.record_eq ∙ n,
        rw (p.new, old_score-eq r o v p, compute_delta_table o) refl,
      )

  -- On a valid record, a timely right vote does not lower the score of its domain; every other
  -- accepted outcome does not raise it, except to the floor.
  pub update_direction :
      (r : ValidatorRecord F) (o : VoteOutcome F) {r' : ValidatorRecord F} {res : UpdateResult F}
      → IsValid r
      → apply_post_finalization_update r o ≡ ok (r', res)
      → (if gains o
          then res.old_score ≼ res.new_score
          else (res.new_score ≼ res.old_score)
          ⊎ (res.new_score ≡ reputation_floor))
  update_direction r o {r'} {res} v h =
      let p = update-AreParts r o h in
      let old = old_score-IsUnit r o v p in
      let sum = res.old_score ⊕ (compute_delta o).0 in
      let c = changed_score laws case_laws res.old_score o old in
      elim (Bool-cases (gains o)) [
        | inl e ↦
            rw (e, p.new)
              (le-clamp laws res.old_score sum reputation_floor reputation_ceiling (rw e at c)
                old.1)
        | inr e ↦
            rw (e, p.new)
              (clamp-le laws res.old_score sum reputation_floor reputation_ceiling (rw e at c)
                old.1)
      ]

  pub update-IsValid :
      (r : ValidatorRecord F) (o : VoteOutcome F) {r' : ValidatorRecord F} {res : UpdateResult F}
      → IsValid r
      → length r.domain_scores < max_exact
      → apply_post_finalization_update r o ≡ ok (r', res)
      → IsValid r' × (length r'.domain_scores ≤ length r.domain_scores + 1)
  unfolding with_updated_domain_score
  update-IsValid r o {r'} {res} v hl h =
      let p = update-AreParts r o h in
      let (lo, hi) = new_score-InRange r o v p in
      let ok_r =
        with_updated-IsValid laws r (normalise o.domain) res.new_score v (laws.refl_of_le _ _ lo).1
          hl in
      subst (λ r'. IsValid r' × (length r'.domain_scores ≤ length r.domain_scores + 1))
        (sym p.record_eq)
        (
          record { scores = ok_r.scores; global = ok_r.global },
          length-insert (normalise o.domain) (clamp res.new_score nought reputation_ceiling)
              r.domain_scores,
        )

  -- After an accepted update of a valid record, whatever the outcome, the validator is eligible for
  -- the outcome's domain exactly if its status is active.
  pub update_eligible :
      (r : ValidatorRecord F) (o : VoteOutcome F) {r' : ValidatorRecord F} {res : UpdateResult F}
      → IsValid r
      → apply_post_finalization_update r o ≡ ok (r', res)
      → is_eligible_for_domain r' o.domain ≡ is_active r.status
  unfolding is_eligible_for_domain
  update_eligible r o v h =
      let (_, lo, _, w, _, _) = update_effect r o v h in
      ground (arith, w.scores o.domain, w.same_status, ==_refl (normalise o.domain))
