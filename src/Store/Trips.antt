-- ===== src/Store/Trips.antt =====
-- Records are read back as they were written (claim.go, validator.go, validation.go).
use pulsesyn.Prelude.{inr, inl, none, some, ok, ◌⊎◌, ◌∙◌, ap, err, ◌≢◌, Result, ◌≡◌, Option}
use pulsesyn.Text.{Text, text_eq}
use pulsesyn.Store.Base.{Node}
use pulsesyn.Store.Badger.{IsBadger}
use pulsesyn.Store.Effects.{reading-none, reading-some, Reads, put, Contents}
use pulsesyn.Store.Claims.{
  delete_validator_record, write_validator_record, delete_claim, write_claim, read_validator_record,
  read_claim,
}
use pulsesyn.Store.Records.{validator_not_found, claim_not_found, StoreError}
use pulsesyn.Claim.{Claim}
use pulsesyn.Reputation.{ValidatorRecord}
use pulsesyn.Store.Spaces.{put_other, put_same}
use pulsesyn.Store.Reached.{RoundTrips}
use pulsesyn.Store.Keys.{validator_key, claim_key}
use pulsesyn.Store.Writes.{
  delete_validator-Outcome, write_validator-Outcome, delete_claim-Outcome, write_claim-Outcome,
}

-- What was found under a key after it was set, or deleted.
pub put_here :
    {V : Type 0} (k : Text) (o : Option V) (m m' : Contents V) → m' ≡ put k o m → m' k ≡ o
put_here k o m m' e = ap (λ (n : Contents _). n k) e ∙ put_same k o m

pub put_rest :
    {V : Type 0} (k : Text) (o : Option V) (m m' : Contents V)
    → m' ≡ put k o m
    → (j : Text) → k ≢ j
    → m' j ≡ m j
put_rest k o m m' e j other = ap (λ (n : Contents _). n j) e ∙ put_other k j o m other

module _ {F T : Type 0} (node : Node F T) (laws : IsBadger node.badger) where
  -- Every other key holds what it held.
  abbrev pub Untouched : Text → node.badger.State → node.badger.State → Type 0
  Untouched k s s' = (j : Text) → k ≢ j → laws.at s' j ≡ laws.at s j

  -- The call changed nothing and returned an error, or succeeded and left `P`.
  abbrev pub Either :
      node.badger.State
      → node.badger.State × Result StoreError (Unit {0})
      → (node.badger.State → Type 0)
      → Type 0
  Either s r P = ((e : StoreError) × (r ≡ (s, err e))) ⊎ ((r.1 ≡ ok tt) × P r.0)

  -- WriteClaim either fails and changes nothing, or there was no claim of the id, and the claim is read
  -- back; DeleteClaim either fails and changes nothing, or no claim of the id is found any more.
  -- WriteValidatorRecord and DeleteValidatorRecord are the same, but a write replaces the record that is
  -- there. What is under other keys stays. A read may fail where Badger does.
  pub read_back :
      (s : node.badger.State) (c : Claim T) (r : ValidatorRecord F) (id : Text)
      → RoundTrips node.claims
      → RoundTrips node.validators
      → Either s (write_claim node s (some c)) (λ s'.
        (laws.at s (claim_key c.claim_id) ≡ none)
        × Reads (read_claim node s' c.claim_id) (ok c)
        × Untouched (claim_key c.claim_id) s s')
        × Either s (delete_claim node s id) (λ s'.
          Reads (read_claim node s' id) (err claim_not_found) × Untouched (claim_key id) s s')
        × Either s (write_validator_record node s (some r)) (λ s'.
          Reads (read_validator_record node s' r.validator_id) (ok r)
          × Untouched (validator_key r.validator_id) s s')
        × Either s (delete_validator_record node s id) (λ s'.
          Reads (read_validator_record node s' id) (err validator_not_found)
          × Untouched (validator_key id) s s')
  unfolding read_claim read_validator_record
  read_back s c r id claims validators = (
    elim (write_claim-Outcome node laws s c) [
      | inl failed ↦ inl failed
      | inr (done, (val, encoded, (free, e))) ↦
          let k = claim_key c.claim_id in
          let there = put_here k (some val) (laws.at s) _ e in
          inr (
            done,
            (
              free,
              reading-some laws node.claims _ k claim_not_found c there (claims c val encoded),
              put_rest k (some val) (laws.at s) _ e,
            ),
          )
    ],
    elim (delete_claim-Outcome node laws s id) [
      | inl failed ↦ inl failed
      | inr (done, e) ↦
          let k = claim_key id in
          let gone = put_here k none (laws.at s) _ e in
          inr (
            done,
            (
              reading-none laws node.claims _ k claim_not_found gone,
              put_rest k none (laws.at s) _ e,
            ),
          )
    ],
    elim (write_validator-Outcome node laws s r) [
      | inl failed ↦ inl failed
      | inr (done, (val, encoded, e)) ↦
          let k = validator_key r.validator_id in
          let there = put_here k (some val) (laws.at s) _ e in
          inr (
            done,
            (
              reading-some laws node.validators _ k validator_not_found r there
                  (validators r val encoded),
              put_rest k (some val) (laws.at s) _ e,
            ),
          )
    ],
    elim (delete_validator-Outcome node laws s id) [
      | inl failed ↦ inl failed
      | inr (done, e) ↦
          let k = validator_key id in
          let gone = put_here k none (laws.at s) _ e in
          inr (
            done,
            (
              reading-none laws node.validators _ k validator_not_found gone,
              put_rest k none (laws.at s) _ e,
            ),
          )
    ],
  )
