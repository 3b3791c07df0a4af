-- ===== src/Store/Claims.antt =====
-- The claims and the reputation records on file (claim.go, validator.go).
use pulsesyn.Prelude.{none, ◌>>◌, some, err, Result, Option}
use pulsesyn.Text.{Text}
use pulsesyn.Store.Base.{
  failing, save, require_absent, delete, set, require_present, read_as, update, view, Node,
}
use pulsesyn.Claim.{Claim}
use pulsesyn.Reputation.{ValidatorRecord}
use pulsesyn.Store.Records.{
  claim_not_found, validator_not_found, json_failed, record_nil, StoreError,
}
use pulsesyn.Store.Keys.{validator_key, claim_key}

-- A pointer is an option; `none` is nil.
module _ {F T : Type 0} (node : Node F T) where
  unfoldable pub write_claim :
      node.badger.State → Option (Claim T) → node.badger.State × Result StoreError (Unit {0})
  write_claim s none = (s, err record_nil)
  write_claim s (some c) =
      save node.badger s (failing json_failed (node.claims.marshal c)) (λ val txn.
        require_absent node.badger txn (claim_key c.claim_id)
        >> set node.badger txn (claim_key c.claim_id) val)

  unfoldable pub read_claim : node.badger.State → Text → Result StoreError (Claim T)
  read_claim s claim_id =
      view node.badger s
        (λ txn. read_as node.badger node.claims txn (claim_key claim_id) claim_not_found)

  unfoldable pub delete_claim :
      node.badger.State → Text → node.badger.State × Result StoreError (Unit {0})
  delete_claim s claim_id = update node.badger s (λ txn.
      require_present node.badger txn (claim_key claim_id) claim_not_found
      >> delete node.badger txn (claim_key claim_id))

  unfoldable pub write_validator_record :
      node.badger.State
      → Option (ValidatorRecord F)
      → node.badger.State × Result StoreError (Unit {0})
  write_validator_record s none = (s, err record_nil)
  write_validator_record s (some r) =
      save node.badger s (failing json_failed (node.validators.marshal r))
        (λ val txn. set node.badger txn (validator_key r.validator_id) val)

  unfoldable pub read_validator_record :
      node.badger.State → Text → Result StoreError (ValidatorRecord F)
  read_validator_record s validator_id = view node.badger s (λ txn.
      read_as node.badger node.validators txn (validator_key validator_id) validator_not_found)

  unfoldable pub delete_validator_record :
      node.badger.State → Text → node.badger.State × Result StoreError (Unit {0})
  delete_validator_record s validator_id = update node.badger s (λ txn.
      require_present node.badger txn (validator_key validator_id) validator_not_found
      >> delete node.badger txn (validator_key validator_id))
