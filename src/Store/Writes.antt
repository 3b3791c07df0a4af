-- ===== src/Store/Writes.antt =====
-- What each write and each deletion leaves behind.
use pulsesyn.Prelude.{◌>>◌, sym, ap, ◌∙◌, bind-ok, some, none, ◌≡◌, ok}
use pulsesyn.Text.{normalise, CaseTable, Text, text_eq}
use pulsesyn.Store.Effects.{
  delete-at, failing-ok, save-Outcome, set-at, require_absent-none, update-Outcome, Outcome, put,
  Contents,
}
use pulsesyn.Store.Base.{delete, require_present, set, require_absent, Node}
use pulsesyn.Store.Badger.{IsBadger}
use pulsesyn.Store.Claims.{
  delete_claim, write_validator_record, delete_validator_record, write_claim,
}
use pulsesyn.Claim.{Claim}
use pulsesyn.Store.Keys.{
  validation_key, idx_domain_key, vote_key, idx_epoch_key, idx_vote_by_validator_key, validator_key,
  claim_key,
}
use pulsesyn.Store.Records.{
  claim_not_found, StoreError, validator_not_found, validate_validation_record,
  validate_vote_record, ValidationRecord, VoteRecord, json_failed,
}
use pulsesyn.Float.{Float64}
use pulsesyn.Store.Validations.{write_validation_record, write_vote}
use pulsesyn.Reputation.{ValidatorRecord}

-- A write that keeps what is there: the key was free, and holds the value.
abbrev pub Added : {V : Type 0} → Text → V → Contents V → Contents V → Type 0
Added k val m m' = (m k ≡ none) × (m' ≡ put k (some val) m)

module _ {F T : Type 0} (node : Node F T) (laws : IsBadger node.badger) where
  added :
      (t t' s : node.badger.State) (k : Text) (val : node.badger.Value)
      → laws.at t ≡ laws.at s
      → require_absent node.badger t k ≡ ok tt
      → set node.badger t k val ≡ ok t'
      → Added k val (laws.at s) (laws.at t')
  added t t' s k val begun free done = (
    ap (λ (m : Contents node.badger.Value). m k) (sym begun) ∙ require_absent-none laws t k free,
    set-at laws t t' k val done ∙ ap (put k (some val)) begun,
  )

  abbrev pub ClaimAdded : Claim T → Contents node.badger.Value → Contents node.badger.Value → Type 0
  ClaimAdded c m m' =
      (val : node.badger.Value) × (node.claims.marshal c ≡ ok val)
      × Added (claim_key c.claim_id) val m m'

  abbrev pub Deleted : Text → Contents node.badger.Value → Contents node.badger.Value → Type 0
  Deleted k m m' = m' ≡ put k none m

  removed :
      (t t' s : node.badger.State) (k : Text) (e : StoreError)
      → laws.at t ≡ laws.at s
      → (require_present node.badger t k e >> delete node.badger t k) ≡ ok t'
      → Deleted k (laws.at s) (laws.at t')
  removed t t' s k e begun done =
      let (_, there, gone) =
        bind-ok (require_present node.badger t k e) (λ _. delete node.badger t k) done in
      delete-at laws t t' k gone ∙ ap (put k none) begun

  abbrev pub ValidatorPut :
      ValidatorRecord F → Contents node.badger.Value → Contents node.badger.Value → Type 0
  ValidatorPut r m m' =
      (val : node.badger.Value) × (node.validators.marshal r ≡ ok val)
      × (m' ≡ put (validator_key r.validator_id) (some val) m)

  pub write_claim-Outcome :
      (s : node.badger.State) (c : Claim T)
      → Outcome laws s (write_claim node s (some c)) (ClaimAdded c (laws.at s))
  unfolding write_claim
  write_claim-Outcome s c =
      save-Outcome laws s _ _ (ClaimAdded c (laws.at s)) (λ val t t' encoded begun done.
        let (_, free, put_there) = bind-ok _ _ done in
        (val, failing-ok laws json_failed _ encoded, added t t' s _ val begun free put_there))

  pub delete_claim-Outcome :
      (s : node.badger.State) (claim_id : Text)
      → Outcome laws s (delete_claim node s claim_id) (Deleted (claim_key claim_id) (laws.at s))
  unfolding delete_claim
  delete_claim-Outcome s claim_id =
      update-Outcome laws s _ (Deleted (claim_key claim_id) (laws.at s))
        (λ t t' begun done. removed t t' s (claim_key claim_id) claim_not_found begun done)

  pub write_validator-Outcome :
      (s : node.badger.State) (r : ValidatorRecord F)
      → Outcome laws s (write_validator_record node s (some r)) (ValidatorPut r (laws.at s))
  unfolding write_validator_record
  write_validator-Outcome s r =
      save-Outcome laws s _ _ (ValidatorPut r (laws.at s)) (λ val t t' encoded begun done. (
        val,
        failing-ok laws json_failed _ encoded,
        set-at laws t t' (validator_key r.validator_id) val done
            ∙ ap (put (validator_key r.validator_id) (some val)) begun,
      ))

  pub delete_validator-Outcome :
      (s : node.badger.State) (validator_id : Text)
      → Outcome laws s
          (delete_validator_record node s validator_id)
          (Deleted (validator_key validator_id) (laws.at s))
  unfolding delete_validator_record
  delete_validator-Outcome s validator_id =
      update-Outcome laws s _ (Deleted (validator_key validator_id) (laws.at s)) (λ t t' begun done.
        removed t t' s (validator_key validator_id) validator_not_found begun done)

  module _ ⦃fl : Float64 F⦄ where
    -- A vote on file, and its entry in the index.
    abbrev pub VoteAdded :
        VoteRecord F T → Contents node.badger.Value → Contents node.badger.Value → Type 0
    VoteAdded v m m' =
        (validate_vote_record v ≡ ok tt)
        × (val : node.badger.Value) × (node.votes.marshal v ≡ ok val)
        × (m (vote_key v.claim_id v.validator_id) ≡ none)
        × (m'
            ≡ put (idx_vote_by_validator_key v.validator_id v.claim_id) (some node.badger.empty)
                (put (vote_key v.claim_id v.validator_id) (some val) m))

    pub write_vote-Outcome :
        (s : node.badger.State) (v : VoteRecord F T)
        → Outcome laws s (write_vote node s v) (VoteAdded v (laws.at s))
    unfolding write_vote
    write_vote-Outcome s v =
        save-Outcome laws s _ _ (VoteAdded v (laws.at s)) (λ val t t' encoded begun done.
          let (_, valid, marshalled) = bind-ok _ _ encoded in
          let (_, free, rest) = bind-ok _ _ done in
          let (t1, first, second) = bind-ok _ _ rest in
          let (none_before, now) = added t t1 s _ val begun free first in
          (
            valid,
            val,
            failing-ok laws json_failed _ marshalled,
            none_before,
            set-at laws t1 t' _ node.badger.empty second
                ∙ ap
                    (put (idx_vote_by_validator_key v.validator_id v.claim_id)
                      (some node.badger.empty))
                    now,
          ))

    module _ ⦃u : CaseTable⦄ where
      -- A validation on file, and its entries in the two indexes.
      abbrev pub ValidationAdded :
          ValidationRecord F T → Contents node.badger.Value → Contents node.badger.Value → Type 0
      ValidationAdded given m m' =
          let r = record given { domain = normalise given.domain } in
          (validate_validation_record node.is_zero given ≡ ok tt)
          × (val : node.badger.Value) × (node.validations.marshal r ≡ ok val)
          × (m (validation_key r.claim_id) ≡ none)
          × (m'
              ≡ put (idx_epoch_key r.epoch r.claim_id) (some node.badger.empty) (
                  put (idx_domain_key r.domain r.claim_id) (some node.badger.empty)
                    (put (validation_key r.claim_id) (some val) m)))

      pub write_validation-Outcome :
          (s : node.badger.State) (r : ValidationRecord F T)
          → Outcome laws s (write_validation_record node s r) (ValidationAdded r (laws.at s))
      unfolding write_validation_record
      write_validation-Outcome s r =
          save-Outcome laws s _ _ (ValidationAdded r (laws.at s)) (λ val t t' encoded begun done.
            let (_, valid, marshalled) = bind-ok _ _ encoded in
            let (_, free, rest) = bind-ok _ _ done in
            let (t1, first, more) = bind-ok _ _ rest in
            let (t2, second, third) = bind-ok _ _ more in
            let (none_before, now) = added t t1 s _ val begun free first in
            (
              valid,
              val,
              failing-ok laws json_failed _ marshalled,
              none_before,
              set-at laws t2 t' _ node.badger.empty third
                  ∙ ap (put (idx_epoch_key r.epoch r.claim_id) (some node.badger.empty)) (
                      set-at laws t1 t2 _ node.badger.empty second
                      ∙ ap
                          (put (idx_domain_key (normalise r.domain) r.claim_id)
                            (some node.badger.empty))
                          now),
            ))
