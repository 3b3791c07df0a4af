-- ===== src/Store/Errors.antt =====
-- Which error a write returns (vote.go, validation.go, claim.go).
use pulsesyn.Prelude.{
  bind_assoc, negsuc, Result-cases, pos, le_nat, ℤ, to_nat, nat_beq, refl, none, not, map, inl, inr,
  some, ◌||◌, first_broken, ◌>>◌, ◌>>=◌, arith, err, ◌==◌, ok, report, ◌≡◌, Option, Result, Bool,
  List, [], ◌∷◌,
}
use pulsesyn.Text.{normalise, CaseTable, trim_space, Text, text_eq}
use pulsesyn.Store.Badger.{IsBadger, Engine}
use pulsesyn.Float.{one, nought, ◌<?◌, Float64}
use pulsesyn.Store.Records.{
  json_failed, set_size_range, finalized_at_zero, bias_range, reputation_range, participation_range,
  confidence_range, verdict_unrecognised, invalid_record, already_exists, domain_empty,
  validator_id_empty, db_failed, claim_id_empty, validate_validation_record, StoreError,
  validate_vote_record, VoteRecord, ValidationRecord, InvalidRecord,
}
use pulsesyn.Store.Effects.{Reads}
use pulsesyn.Store.Base.{Node, set, save, settle, require_absent, update, absent, failing}
use pulsesyn.Verdict.{is_recognised}
use pulsesyn.Store.Claims.{write_claim}
use pulsesyn.Store.Validations.{write_validation_record, write_vote}
use pulsesyn.Claim.{Claim}
use pulsesyn.Store.Keys.{validation_key, vote_key, claim_key}

abbrev blank : Text → Bool
blank s = trim_space s == []

-- The error of the first rule that is broken.
abbrev pub wrong : List (Bool × InvalidRecord) → Result StoreError (Unit {0})
wrong rules = report (first_broken (map (λ r. (r.0, invalid_record r.1)) rules))

-- Not in [0, 1]; NaN passes.
abbrev beyond : {F : Type 0} → ⦃fl : Float64 F⦄ → F → Bool
beyond x = (x <? nought) || (one <? x)

-- An int that is not positive.
not_positive : (z : ℤ) → le_nat z 0 ≡ nat_beq (to_nat z) 0
not_positive (pos n) = ground arith
not_positive (negsuc n) = refl

module _ {F T : Type 0} ⦃fl : Float64 F⦄ where
  abbrev pub vote_rules : VoteRecord F T → List (Bool × InvalidRecord)
  vote_rules v =
      (blank v.claim_id, claim_id_empty)
      ∷ (blank v.validator_id, validator_id_empty)
      ∷ (not (is_recognised v.verdict), verdict_unrecognised)
      ∷ (beyond v.confidence, confidence_range)
      ∷ (beyond v.domain_reputation, reputation_range)
      ∷ (beyond v.bias_coefficient, bias_range)
      ∷ (nat_beq (to_nat v.validator_set_size) 0, set_size_range)
      ∷ []

  abbrev pub validation_rules : (T → Bool) → ValidationRecord F T → List (Bool × InvalidRecord)
  validation_rules is_zero r =
      (blank r.claim_id, claim_id_empty)
      ∷ (blank r.domain, domain_empty)
      ∷ (not (is_recognised r.verdict), verdict_unrecognised)
      ∷ (beyond r.confidence_score, confidence_range)
      ∷ (beyond r.participation_rate, participation_range)
      ∷ (is_zero r.finalized_at, finalized_at_zero)
      ∷ []

  validate_vote-rules : (v : VoteRecord F T) → validate_vote_record v ≡ wrong (vote_rules v)
  unfolding validate_vote_record
  validate_vote-rules v = rw (← not_positive v.validator_set_size) ground arith

  validate_validation-rules :
      (is_zero : T → Bool) (r : ValidationRecord F T)
      → validate_validation_record is_zero r ≡ wrong (validation_rules is_zero r)
  unfolding validate_validation_record
  validate_validation-rules is_zero r = ground arith

-- The result of a step, without the database after it.
abbrev forget : {A : Type 0} → Result StoreError A → Result StoreError (Unit {0})
forget (ok a) = ok tt
forget (err e) = err e

-- The error that a record is there already.
abbrev pub taken : {V : Type 0} → Option V → Result StoreError (Unit {0})
taken none = ok tt
taken (some b) = err already_exists

Reads-then :
    {A : Type 0} (g e : Result StoreError (Unit {0})) (k : Result StoreError A)
    → Reads g e
    → Reads (forget k) (ok tt)
    → Reads (forget (g >> k)) e
Reads-then g e k (inl (m, failed)) h = rw failed (inl (m, refl))
Reads-then g (ok tt) k (inr passed) h = rw passed h
Reads-then g (err e) k (inr failed) h = rw failed (inr refl)

Reads-next :
    {A B : Type 0} (m : Result StoreError A) (f : A → Result StoreError B)
    → Reads (forget m) (ok tt)
    → ((a : A) → Reads (forget (f a)) (ok tt))
    → Reads (forget (m >>= f)) (ok tt)
Reads-next (ok a) f h k = k a
Reads-next (err e) f h k = h

failing-Reads : {A : Type 0} (m : Result Text A) → Reads (forget (failing db_failed m)) (ok tt)
failing-Reads (ok a) = inr refl
failing-Reads (err m) = inl (m, refl)

module _ {badger : Engine} (laws : IsBadger badger) where
  absent-Reads :
      (t : badger.State) (k : Text) (got : Result Text (Option badger.Item))
      → badger.get t k ≡ got
      → Reads (absent badger got) (taken (laws.at t k))
  absent-Reads t k (ok (some item)) g =
      let (b, at, _) = laws.get_some t k item g in rw at (inr refl)
  absent-Reads t k (ok none) g = rw (laws.get_none t k g) (inr refl)
  absent-Reads t k (err m) g = inl (m, refl)

  settle-forget :
      (s : badger.State) (done : Result StoreError badger.State)
      → (settle badger s done).1 ≡ forget done
  settle-forget s (ok s') = refl
  settle-forget s (err e) = refl

  module _ (s : badger.State) (k : Text) (write : badger.State → Result StoreError badger.State)
      (writing : (t : badger.State) → Reads (forget (write t)) (ok tt)) where
    abbrev commit : badger.State → Result StoreError badger.State
    commit t = failing db_failed (badger.commit t)

    guarded-Reads :
        (t : badger.State)
        → laws.at t k ≡ laws.at s k
        → Reads (forget ((require_absent badger t k >> write t) >>= commit)) (taken (laws.at s k))
    unfolding require_absent
    guarded-Reads t same =
        let guard = absent badger (badger.get t k) in
        rw (bind_assoc guard (λ _. write t) commit, ← same)
          (Reads-then guard (taken (laws.at t k)) (write t >>= commit)
            (absent-Reads t k (badger.get t k) refl)
            (Reads-next (write t) commit (writing t) (λ t'. failing-Reads (badger.commit t'))))

    update-Reads :
        Reads (update badger s (λ t. require_absent badger t k >> write t)).1 (taken (laws.at s k))
    unfolding update require_absent
    update-Reads = elim (Result-cases (badger.begin s)) [
      | inl (t, begun) ↦
          rw (begun, update)
            (rw (settle-forget s (require_absent badger t k >> write t >>= commit))
              (guarded-Reads t (laws.at-begin s t begun k)))
      | inr (m, failed) ↦ rw (failed, update) (inl (m, refl))
    ]

  save-Reads :
      (s : badger.State) (k : Text) (encoded : Result StoreError badger.Value)
      (write : badger.Value → badger.State → Result StoreError badger.State)
      → ((val : badger.Value) (t : badger.State) → Reads (forget (write val t)) (ok tt))
      → Reads
          (save badger s encoded (λ val t. require_absent badger t k >> write val t)).1
          (encoded >>= λ _. taken (laws.at s k))
  save-Reads s k (err e) write h = inr refl
  save-Reads s k (ok val) write h = update-Reads s k (write val) (h val)

  set-Reads :
      (t : badger.State) (k : Text) (val : badger.Value)
      → Reads (forget (set badger t k val)) (ok tt)
  set-Reads t k val = failing-Reads (badger.set t k val)

module _ {F T : Type 0} ⦃fl : Float64 F⦄ ⦃u : CaseTable⦄ (node : Node F T)
    (laws : IsBadger node.badger) where
  -- Unless Badger fails, WriteClaim, WriteVote and WriteValidationRecord return the error of the first
  -- rule that the record breaks, else the error of its encoding, else ErrAlreadyExists if its key is
  -- taken, else nil.
  pub write_errors :
      (s : node.badger.State) (c : Claim T) (v : VoteRecord F T) (r : ValidationRecord F T)
      → Reads (write_claim node s (some c)).1 (
          failing json_failed (node.claims.marshal c) >>= λ _.
          taken (laws.at s (claim_key c.claim_id)))
        × Reads (write_vote node s v).1 (
            (wrong (vote_rules v) >> failing json_failed (node.votes.marshal v)) >>= λ _.
            taken (laws.at s (vote_key v.claim_id v.validator_id)))
        × Reads (write_validation_record node s r).1 (
            (wrong (validation_rules node.is_zero r)
              >> failing json_failed
                  (node.validations.marshal (record r { domain = normalise r.domain })))
            >>= λ _. taken (laws.at s (validation_key r.claim_id)))
  unfolding write_claim write_vote write_validation_record
  write_errors s c v r =
      rw (← validate_vote-rules v, ← validate_validation-rules node.is_zero r)
        (
          save-Reads laws s (claim_key c.claim_id) _
              (λ val t. set node.badger t (claim_key c.claim_id) val)
              (λ val t. set-Reads laws t _ val),
          save-Reads laws s (vote_key v.claim_id v.validator_id) _ _
              (λ val t. Reads-next _ _ (set-Reads laws t _ val) (λ t'. set-Reads laws t' _ _)),
          save-Reads laws s (validation_key r.claim_id) _ _ (λ val t.
              Reads-next _ _ (set-Reads laws t _ val)
                (λ t'. Reads-next _ _ (set-Reads laws t' _ _) (λ t''. set-Reads laws t'' _ _))),
        )
