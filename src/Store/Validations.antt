-- ===== src/Store/Validations.antt =====
-- The votes and the finalized validations on file, with their indexes (vote.go, validation.go).
use pulsesyn.Prelude.{[], ◌∷◌, ◌>>◌, ok, ◌>>=◌, ℕ, Result, List}
use pulsesyn.Text.{normalise, CaseTable, Text}
use pulsesyn.Float.{Float64}
use pulsesyn.Store.Base.{save, set, require_absent, failing, prefix_scan_keys, read_as, view, Node}
use pulsesyn.Store.Records.{
  vote_not_found, db_failed, json_failed, validation_not_found, validate_validation_record,
  validate_vote_record, StoreError, ValidationRecord, VoteRecord,
}
use pulsesyn.Store.Keys.{
  idx_epoch_key, idx_domain_key, idx_vote_by_validator_key, claim_id_from_index, vote_key,
  by_validator_prefix, epoch_prefix, validation_key, domain_prefix, vote_prefix,
}

module _ {F T : Type 0} ⦃fl : Float64 F⦄ (node : Node F T) where
  unfoldable pub write_vote :
      node.badger.State → VoteRecord F T → node.badger.State × Result StoreError (Unit {0})
  write_vote s v =
      save node.badger s (validate_vote_record v >> failing json_failed (node.votes.marshal v))
        (λ val txn. do
          require_absent node.badger txn (vote_key v.claim_id v.validator_id)
          txn' ← set node.badger txn (vote_key v.claim_id v.validator_id) val
          set node.badger txn' (idx_vote_by_validator_key v.validator_id v.claim_id)
              node.badger.empty)

  unfoldable pub read_vote : node.badger.State → Text → Text → Result StoreError (VoteRecord F T)
  read_vote s claim_id validator_id =
      view node.badger s
        (λ txn. read_as node.badger node.votes txn (vote_key claim_id validator_id) vote_not_found)

  -- The loop over the iterator.
  unfoldable pub decode_votes :
      List (Text × node.badger.Item) → Result StoreError (List (VoteRecord F T))
  decode_votes [] = ok []
  decode_votes ((key, item) ∷ found) = do
    val ← failing db_failed (node.badger.value item)
    v ← failing json_failed (node.votes.unmarshal val)
    votes ← decode_votes found
    ok (v ∷ votes)

  unfoldable pub votes_for_claim :
      node.badger.State → Text → Result StoreError (List (VoteRecord F T))
  votes_for_claim s claim_id =
      view node.badger s (λ txn. decode_votes (node.badger.scan txn (vote_prefix claim_id)))

  -- The loop over the claims that the index names.
  unfoldable pub fetch_votes :
      node.badger.State → Text → List Text → Result StoreError (List (VoteRecord F T))
  fetch_votes txn validator_id [] = ok []
  fetch_votes txn validator_id (claim_id ∷ claim_ids) = do
    v ← read_as node.badger node.votes txn (vote_key claim_id validator_id) vote_not_found
    votes ← fetch_votes txn validator_id claim_ids
    ok (v ∷ votes)

  unfoldable pub votes_by_validator :
      node.badger.State → Text → Result StoreError (List (VoteRecord F T))
  votes_by_validator s validator_id = do
    claim_ids ←
        prefix_scan_keys node.badger s (by_validator_prefix validator_id)
          (claim_id_from_index (by_validator_prefix validator_id))
    view node.badger s (λ txn. fetch_votes txn validator_id claim_ids)

  unfoldable pub fetch_validations :
      node.badger.State → List Text → Result StoreError (List (ValidationRecord F T))
  fetch_validations txn [] = ok []
  fetch_validations txn (id ∷ claim_ids) = do
    r ← read_as node.badger node.validations txn (validation_key id) validation_not_found
    results ← fetch_validations txn claim_ids
    ok (r ∷ results)

  unfoldable pub fetch_validation_records :
      node.badger.State → List Text → Result StoreError (List (ValidationRecord F T))
  fetch_validation_records s claim_ids = view node.badger s (λ txn. fetch_validations txn claim_ids)

  unfoldable pub read_validation_record :
      node.badger.State → Text → Result StoreError (ValidationRecord F T)
  read_validation_record s claim_id = view node.badger s (λ txn.
      read_as node.badger node.validations txn (validation_key claim_id) validation_not_found)

  unfoldable pub validations_by_epoch :
      node.badger.State → ℕ → Result StoreError (List (ValidationRecord F T))
  validations_by_epoch s epoch = do
    claim_ids ←
        prefix_scan_keys node.badger s (epoch_prefix epoch)
          (claim_id_from_index (epoch_prefix epoch))
    fetch_validation_records s claim_ids

  module _ ⦃u : CaseTable⦄ where
    unfoldable pub write_validation_record :
        node.badger.State → ValidationRecord F T → node.badger.State × Result StoreError (Unit {0})
    write_validation_record s given =
        let r = record given { domain = normalise given.domain } in
        save node.badger s
          (validate_validation_record node.is_zero given
            >> failing json_failed (node.validations.marshal r))
          (λ val txn. do
            require_absent node.badger txn (validation_key r.claim_id)
            txn' ← set node.badger txn (validation_key r.claim_id) val
            txn'' ← set node.badger txn' (idx_domain_key r.domain r.claim_id) node.badger.empty
            set node.badger txn'' (idx_epoch_key r.epoch r.claim_id) node.badger.empty)

    unfoldable pub validations_by_domain :
        node.badger.State → Text → Result StoreError (List (ValidationRecord F T))
    validations_by_domain s given = do
      let domain = normalise given
      claim_ids ←
          prefix_scan_keys node.badger s (domain_prefix domain)
            (claim_id_from_index (domain_prefix domain))
      fetch_validation_records s claim_ids
