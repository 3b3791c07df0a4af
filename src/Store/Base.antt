-- ===== src/Store/Base.antt =====
-- Transactions, encoding and the reading of one value (store.go).
use pulsesyn.Prelude.{Option, Bool, none, err, some, map, List, ok, ◌>>=◌, Result}
use pulsesyn.Text.{Text}
use pulsesyn.Store.Badger.{Engine}
use pulsesyn.Store.Records.{
  ValidationRecord, VoteRecord, already_exists, json_failed, db_failed, StoreError,
}
use pulsesyn.Claim.{Claim}
use pulsesyn.Reputation.{ValidatorRecord}

-- encoding/json at one type; a float64 that is NaN or infinite is not encoded.
pub record Codec (V A : Type 0) : Type 0 where
  pub marshal : A → Result Text V
  pub unmarshal : V → Result Text A

-- What a node runs on: Badger, encoding/json, and time.Time.IsZero.
pub record Node (F T : Type 0) : Type 1 where
  pub badger : Engine
  pub claims : Codec badger.Value (Claim T)
  pub validators : Codec badger.Value (ValidatorRecord F)
  pub votes : Codec badger.Value (VoteRecord F T)
  pub validations : Codec badger.Value (ValidationRecord F T)
  pub is_zero : T → Bool

-- A failure of Badger or of encoding/json, returned by the store.
abbrev pub failing : {A : Type 0} → (Text → StoreError) → Result Text A → Result StoreError A
failing wrap (ok a) = ok a
failing wrap (err m) = err (wrap m)

module _ (badger : Engine) where
  -- A transaction that returned an error or could not commit is discarded.
  abbrev pub settle :
      badger.State → Result StoreError badger.State → badger.State × Result StoreError (Unit {0})
  settle s (ok s') = (s', ok tt)
  settle s (err e) = (s, err e)

  -- `db.Update`
  unfoldable pub update :
      badger.State
      → (badger.State → Result StoreError badger.State)
      → badger.State × Result StoreError (Unit {0})
  update s change = settle s (
      (failing db_failed (badger.begin s) >>= change) >>= λ txn.
      failing db_failed (badger.commit txn))

  -- An update with a value, unless the checks and the encoding before it failed.
  abbrev pub save :
      badger.State
      → Result StoreError badger.Value
      → (badger.Value → badger.State → Result StoreError badger.State)
      → badger.State × Result StoreError (Unit {0})
  save s (err e) change = (s, err e)
  save s (ok val) change = update s (change val)

  -- `db.View`
  unfoldable pub view :
      {A : Type 0} → badger.State → (badger.State → Result StoreError A) → Result StoreError A
  view s read = failing db_failed (badger.begin s) >>= read

  -- `txn.Get` of a key that is not to be there yet: what it found is an error.
  abbrev pub absent : Result Text (Option badger.Item) → Result StoreError (Unit {0})
  absent (ok (some item)) = err already_exists
  absent (ok none) = ok tt
  absent (err m) = err (db_failed m)

  unfoldable pub require_absent : badger.State → Text → Result StoreError (Unit {0})
  require_absent txn pk = absent (badger.get txn pk)

  -- `txn.Get` of a key that is to be there.
  abbrev pub present : StoreError → Result Text (Option badger.Item) → Result StoreError (Unit {0})
  present not_found (ok (some item)) = ok tt
  present not_found (ok none) = err not_found
  present not_found (err m) = err (db_failed m)

  unfoldable pub require_present : badger.State → Text → StoreError → Result StoreError (Unit {0})
  require_present txn pk not_found = present not_found (badger.get txn pk)

  abbrev pub set : badger.State → Text → badger.Value → Result StoreError badger.State
  set txn key val = failing db_failed (badger.set txn key val)

  abbrev pub delete : badger.State → Text → Result StoreError badger.State
  delete txn key = failing db_failed (badger.delete txn key)

  abbrev pub value_of :
      StoreError → Result Text (Option badger.Item) → Result StoreError badger.Value
  value_of not_found (ok (some item)) = failing db_failed (badger.value item)
  value_of not_found (ok none) = err not_found
  value_of not_found (err m) = err (db_failed m)

  unfoldable pub read_value : badger.State → Text → StoreError → Result StoreError badger.Value
  read_value txn key not_found = value_of not_found (badger.get txn key)

  -- A value and its decoding, in a transaction.
  abbrev pub read_as :
      {A : Type 0} → Codec badger.Value A → badger.State → Text → StoreError → Result StoreError A
  read_as codec txn key not_found =
      read_value txn key not_found >>= λ val. failing json_failed (codec.unmarshal val)

  -- The identifiers in the keys with a prefix.
  unfoldable pub prefix_scan_keys :
      badger.State → Text → (Text → Text) → Result StoreError (List Text)
  prefix_scan_keys s prefix extract_id =
      view s (λ txn. ok (map (λ found. extract_id found.0) (badger.scan txn prefix)))
