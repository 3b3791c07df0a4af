-- ===== src/Reputation/Writes.antt =====
-- What the internal write of a domain score leaves in the record.
use pulsesyn.Prelude.{
  refl, false, true, some, ◌∙◌, sym, Option, Bool, ap, inr, inl, ◌==◌, Option-cases, if◌then◌else◌,
  ◌≡◌,
}
use pulsesyn.Float.{nought, IsUnit, IsIeee, Float64}
use pulsesyn.Text.{text_eq, normalise, IsCaseTable, Text, CaseTable}
use pulsesyn.Reputation.Record.{
  score_or_nought, reputation_ceiling, clamp, with_updated_domain_score, domain_score,
  ValidatorRecord,
}
use pulsesyn.Reputation.Scores.{IsValid}
use pulsesyn.Text.Trim.{normalise_idem}
use pulsesyn.Dict.{lookup-AllValues, lookup-insert, lookup}
use pulsesyn.Float.Order.{nought-IsUnit}
use mathlib.Core.Path.{subst}

module _ {F : Type 0} ⦃fl : Float64 F⦄ ⦃u : CaseTable⦄ where
  -- `r'` is `r` with the score `s` in the domain `d`, in every spelling of the domain, the global
  -- reputation and the count of validations aside.
  pub record IsWrite (r r' : ValidatorRecord F) (d : Text) (s : F) : Type 0 where
    pub scores :
        (j : Text)
        → domain_score r' j ≡ (if normalise d == normalise j then s else domain_score r j)
    pub same_id : r'.validator_id ≡ r.validator_id
    pub same_genesis : r'.genesis_validator ≡ r.genesis_validator
    pub same_epoch : r'.registration_epoch ≡ r.registration_epoch
    pub same_status : r'.status ≡ r.status

  module _ (laws : IsIeee F) (case_laws : IsCaseTable u) where
    pub domain_score-IsUnit :
        (r : ValidatorRecord F) (d : Text) → IsValid r → IsUnit (domain_score r d)
    unfolding domain_score
    domain_score-IsUnit r d v = elim (Option-cases (lookup (normalise d) r.domain_scores)) [
      | inl e ↦ subst (λ o. IsUnit (score_or_nought o)) (sym e) (nought-IsUnit laws)
      | inr (s, e) ↦
          subst (λ o. IsUnit (score_or_nought o)) (sym e)
            (lookup-AllValues IsUnit (normalise d) r.domain_scores v.scores e)
    ]

    -- Every spelling of a domain has the same score.
    pub domain_score-normalise :
        (r : ValidatorRecord F) (d : Text) → domain_score r (normalise d) ≡ domain_score r d
    unfolding domain_score
    domain_score-normalise r d =
        ap (λ k. score_or_nought (lookup k r.domain_scores)) (normalise_idem case_laws d)

    score_or_nought-if :
        (b : Bool) (s : F) (o : Option F)
        → score_or_nought (if b then some s else o) ≡ (if b then s else score_or_nought o)
    score_or_nought-if true s o = refl
    score_or_nought-if false s o = refl

    pub domain_score-with_updated :
        (r : ValidatorRecord F) (d j : Text) (s : F)
        → domain_score (with_updated_domain_score r (normalise d) s) j ≡ (
            if normalise d == normalise j
            then clamp s nought reputation_ceiling
            else domain_score r j)
    unfolding domain_score with_updated_domain_score
    domain_score-with_updated r d j s =
        ap score_or_nought (
          lookup-insert (normalise d) (normalise j) (clamp s nought reputation_ceiling)
            r.domain_scores)
        ∙ score_or_nought-if (normalise d == normalise j) _ _
