-- ===== src/Store/History.antt =====
-- Sequences of writes and deletions, and what they leave in place.
use pulsesyn.Prelude.{refl, ok, ◌∙◌, ap, some, none, ◌≢◌, ◌≡◌, Result, Option, List, [], ◌∷◌}
use pulsesyn.Text.{normalise, CaseTable, Text, text_eq}
use pulsesyn.Float.{Float64}
use pulsesyn.Claim.{Claim}
use pulsesyn.Store.Base.{Node}
use pulsesyn.Reputation.{ValidatorRecord}
use pulsesyn.Store.Records.{ValidationRecord, StoreError, VoteRecord}
use pulsesyn.Store.Badger.{IsBadger}
use pulsesyn.Store.Spaces.{
  vote_key-IsPermanent, not_index, validation_key-IsPermanent, not_claim, put_other, IsPermanent,
}
use pulsesyn.Store.Effects.{Outcome-keeps, reading-some, reading-ok, Reads, put, Contents}
use pulsesyn.Store.Claims.{
  delete_validator_record, write_validator_record, delete_claim, write_claim,
}
use pulsesyn.Store.Writes.{
  write_validation-Outcome, ValidationAdded, write_vote-Outcome, VoteAdded,
  delete_validator-Outcome, write_validator-Outcome, ValidatorPut, delete_claim-Outcome, Deleted,
  write_claim-Outcome, ClaimAdded,
}
use pulsesyn.Store.Validations.{
  read_vote, read_validation_record, write_validation_record, write_vote,
}
use pulsesyn.Store.Keys.{
  idx_epoch_key, idx_vote_by_validator_key, idx_domain_key, validation_key, vote_key, validator_key,
  claim_key,
}

-- One call of an operation that changes the database.
pub data Operation (F T : Type 0) : Type 0 where
  claim_written : Option (Claim T) → Operation F T
  claim_deleted : Text → Operation F T
  validator_written : Option (ValidatorRecord F) → Operation F T
  validator_deleted : Text → Operation F T
  vote_written : VoteRecord F T → Operation F T
  validation_written : ValidationRecord F T → Operation F T

module _ {F T : Type 0} ⦃fl : Float64 F⦄ ⦃u : CaseTable⦄ (node : Node F T) where
  abbrev pub perform :
      node.badger.State → Operation F T → node.badger.State × Result StoreError (Unit {0})
  perform s (claim_written c) = write_claim node s c
  perform s (claim_deleted id) = delete_claim node s id
  perform s (validator_written r) = write_validator_record node s r
  perform s (validator_deleted id) = delete_validator_record node s id
  perform s (vote_written v) = write_vote node s v
  perform s (validation_written r) = write_validation_record node s r

  -- The calls one after another, whether they succeed or not.
  abbrev pub perform_all : node.badger.State → List (Operation F T) → node.badger.State
  perform_all s [] = s
  perform_all s (op ∷ ops) = perform_all (perform s op).0 ops

  module _ (laws : IsBadger node.badger) where
    -- The value under a key that no claim, validator or index has stays.
    module _ (k : Text) (b : node.badger.Value) (p : IsPermanent k) where
      abbrev Held : Contents node.badger.Value → Type 0
      Held m = m k ≡ some b

      put-Held :
          (j : Text) (o : Option node.badger.Value) (m m' : Contents node.badger.Value)
          → m' ≡ put j o m
          → j ≢ k
          → Held m
          → Held m'
      put-Held j o m m' e other h =
          ap (λ (n : Contents node.badger.Value). n k) e ∙ put_other j k o m other ∙ h

      -- A key that was free is another one.
      free-ne : (j : Text) (m : Contents node.badger.Value) → m j ≡ none → Held m → j ≢ k
      free-ne j m free h e = let same : m j ≡ m k = ap m e in cc

      perform-Held :
          (s : node.badger.State) (op : Operation F T)
          → Held (laws.at s)
          → Held (laws.at (perform s op).0)
      unfolding write_claim write_validator_record
      perform-Held s (claim_written none) h = h
      perform-Held s (claim_written (some c)) h =
          Outcome-keeps laws Held s _ (ClaimAdded node laws c (laws.at s)) h
            (λ m (val, e, (free, m-is)).
              put-Held _ (some val) (laws.at s) m m-is (not_claim k p c.claim_id) h)
            (write_claim-Outcome node laws s c)
      perform-Held s (claim_deleted id) h =
          Outcome-keeps laws Held s _ (Deleted node laws (claim_key id) (laws.at s)) h
            (λ m m-is. put-Held _ none (laws.at s) m m-is (not_claim k p id) h)
            (delete_claim-Outcome node laws s id)
      perform-Held s (validator_written none) h = h
      perform-Held s (validator_written (some r)) h =
          Outcome-keeps laws Held s _ (ValidatorPut node laws r (laws.at s)) h
            (λ m (val, e, m-is).
              put-Held _ (some val) (laws.at s) m m-is (p.not_validator r.validator_id) h)
            (write_validator-Outcome node laws s r)
      perform-Held s (validator_deleted id) h =
          Outcome-keeps laws Held s _ (Deleted node laws (validator_key id) (laws.at s)) h
            (λ m m-is. put-Held _ none (laws.at s) m m-is (p.not_validator id) h)
            (delete_validator-Outcome node laws s id)
      perform-Held s (vote_written v) h =
          Outcome-keeps laws Held s _ (VoteAdded node laws v (laws.at s)) h
            (λ m (valid, val, e, free, m-is).
              let pk = vote_key v.claim_id v.validator_id in
              let filed = put pk (some val) (laws.at s) in
              let first = put-Held pk (some val) _ filed refl (free-ne pk (laws.at s) free h) h in
              let index = idx_vote_by_validator_key v.validator_id v.claim_id in
              put-Held index (some node.badger.empty) filed m m-is (not_index k p index refl) first)
            (write_vote-Outcome node laws s v)
      perform-Held s (validation_written r) h =
          Outcome-keeps laws Held s _ (ValidationAdded node laws r (laws.at s)) h
            (λ m (valid, val, e, free, m-is).
              let pk = validation_key r.claim_id in
              let domain = idx_domain_key (normalise r.domain) r.claim_id in
              let filed = put pk (some val) (laws.at s) in
              let indexed = put domain (some node.badger.empty) filed in
              let first = put-Held pk (some val) _ filed refl (free-ne pk (laws.at s) free h) h in
              let second =
                put-Held domain (some node.badger.empty) filed indexed refl
                  (not_index k p domain refl) first in
              let epoch = idx_epoch_key r.epoch r.claim_id in
              put-Held epoch (some node.badger.empty) indexed m m-is (not_index k p epoch refl)
                second)
            (write_validation-Outcome node laws s r)

      pub perform_all-Held :
          (s : node.badger.State) (ops : List (Operation F T))
          → Held (laws.at s)
          → Held (laws.at (perform_all s ops))
      perform_all-Held s [] h = h
      perform_all-Held s (op ∷ ops) h = perform_all-Held (perform s op).0 ops (perform-Held s op h)

    -- A validation and a vote that were read once are read after any writes and deletions, whether
    -- these succeed or not, unchanged, unless Badger fails.
    pub read_forever :
        (s : node.badger.State) (ops : List (Operation F T)) (c : Text) (r : ValidationRecord F T)
        (claim_id validator_id : Text) (v : VoteRecord F T)
        → read_validation_record node s c ≡ ok r
        → read_vote node s claim_id validator_id ≡ ok v
        → Reads (read_validation_record node (perform_all s ops) c) (ok r)
          × Reads (read_vote node (perform_all s ops) claim_id validator_id) (ok v)
    unfolding read_validation_record read_vote
    read_forever s ops c r claim_id validator_id v read voted =
        let (b, held, decoded) = reading-ok laws node.validations s _ _ read in
        let (b', held', decoded') = reading-ok laws node.votes s _ _ voted in
        let kept = perform_all-Held _ b (validation_key-IsPermanent c) s ops held in
        let kept' =
          perform_all-Held _ b' (vote_key-IsPermanent claim_id validator_id) s ops held' in
        (
          reading-some laws node.validations (perform_all s ops) _ _ r kept decoded,
          reading-some laws node.votes (perform_all s ops) _ _ v kept' decoded',
        )
