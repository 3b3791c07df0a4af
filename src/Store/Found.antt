-- ===== src/Store/Found.antt =====
-- The queries of a database that calls of the store filled (validation.go, vote.go).
use pulsesyn.Prelude.{refl, ◌^◌, ◌<◌, some, ℕ, none, All, ◌≡◌, List, [], ◌∷◌}
use pulsesyn.Text.{normalise, CaseTable, Text, text_eq}
use pulsesyn.Float.{Float64}
use pulsesyn.Store.Base.{Node}
use pulsesyn.Store.Badger.{IsBadger}
use pulsesyn.Store.Reached.{
  validator-IsIndexed, claim-IsIndexed, empty-IsIndexed, IsIndexed, IsOrderly, RoundTrips,
}
use pulsesyn.Store.Claims.{write_validator_record, write_claim}
use pulsesyn.Store.History.{
  validation_written, vote_written, validator_deleted, validator_written, claim_deleted,
  claim_written, perform, perform_all, Operation,
}
use pulsesyn.Store.Validations.{
  fetch_validations, fetch_validation_records, fetch_votes, votes_by_validator,
  validations_by_domain, validations_by_epoch,
}
use pulsesyn.Store.Prefixes.{IsPlain}
use pulsesyn.Store.Queries.{query-Answers, Answers}
use pulsesyn.Store.Keys.{
  validator_key, claim_key, by_validator_prefix, epoch_prefix, domain_prefix, validation_key,
  vote_key,
}
use pulsesyn.Store.Effects.{Outcome-keeps}
use pulsesyn.Store.Writes.{
  write_validation-Outcome, ValidationAdded, write_vote-Outcome, VoteAdded,
  delete_validator-Outcome, write_validator-Outcome, ValidatorPut, delete_claim-Outcome, Deleted,
  write_claim-Outcome, ClaimAdded,
}
use pulsesyn.Store.Records.{validation_not_found, vote_not_found}
use pulsesyn.Store.Growth.{validation-IsIndexed, vote-IsIndexed}

module _ {F T : Type 0} ⦃fl : Float64 F⦄ ⦃u : CaseTable⦄ (node : Node F T)
    (laws : IsBadger node.badger) (votes : RoundTrips node.votes)
    (validations : RoundTrips node.validations) where
  perform-IsIndexed :
      (s : node.badger.State) (op : Operation F T)
      → IsOrderly node op
      → IsIndexed node (laws.at s)
      → IsIndexed node (laws.at (perform node s op).0)
  unfolding write_claim write_validator_record
  perform-IsIndexed s (claim_written none) o h = h
  perform-IsIndexed s (claim_written (some c)) o h =
      Outcome-keeps laws (IsIndexed node) s _ (ClaimAdded node laws c (laws.at s)) h
        (λ m (val, e, (free, m-is)).
          claim-IsIndexed node c.claim_id (some val) (laws.at s) m m-is h)
        (write_claim-Outcome node laws s c)
  perform-IsIndexed s (claim_deleted id) o h =
      Outcome-keeps laws (IsIndexed node) s _ (Deleted node laws (claim_key id) (laws.at s)) h
        (λ m m-is. claim-IsIndexed node id none (laws.at s) m m-is h)
        (delete_claim-Outcome node laws s id)
  perform-IsIndexed s (validator_written none) o h = h
  perform-IsIndexed s (validator_written (some r)) o h =
      Outcome-keeps laws (IsIndexed node) s _ (ValidatorPut node laws r (laws.at s)) h
        (λ m (val, e, m-is).
          validator-IsIndexed node r.validator_id (some val) (laws.at s) m m-is h)
        (write_validator-Outcome node laws s r)
  perform-IsIndexed s (validator_deleted id) o h =
      Outcome-keeps laws (IsIndexed node) s _ (Deleted node laws (validator_key id) (laws.at s)) h
        (λ m m-is. validator-IsIndexed node id none (laws.at s) m m-is h)
        (delete_validator-Outcome node laws s id)
  perform-IsIndexed s (vote_written v) o h =
      Outcome-keeps laws (IsIndexed node) s _ (VoteAdded node laws v (laws.at s)) h
        (λ m added. vote-IsIndexed node laws v (laws.at s) m h o added votes)
        (write_vote-Outcome node laws s v)
  perform-IsIndexed s (validation_written r) (plain, small) h =
      Outcome-keeps laws (IsIndexed node) s _ (ValidationAdded node laws r (laws.at s)) h
        (λ m added. validation-IsIndexed node laws r (laws.at s) m h plain small added validations)
        (write_validation-Outcome node laws s r)

  pub perform_all-IsIndexed :
      (s : node.badger.State) (ops : List (Operation F T))
      → All (IsOrderly node) ops
      → IsIndexed node (laws.at s)
      → IsIndexed node (laws.at (perform_all node s ops))
  perform_all-IsIndexed s [] o h = h
  perform_all-IsIndexed s (op ∷ ops) (o, os) h =
      perform_all-IsIndexed (perform node s op).0 ops os (perform-IsIndexed s op o h)

  module _ (s : node.badger.State) (empty : (k : Text) → laws.at s k ≡ none)
      (ops : List (Operation F T)) (orderly : All (IsOrderly node) ops) where
    abbrev now : node.badger.State
    now = perform_all node s ops

    indexed : IsIndexed node (laws.at now)
    indexed = perform_all-IsIndexed s ops orderly (empty-IsIndexed node (laws.at s) empty)

    -- From an empty database, after any writes and deletions, accepted or not, in which no domain of a
    -- validation has a '/', ValidationsByDomain of a domain without '/' and ValidationsByEpoch return,
    -- unless Badger fails, one record for each claim with a validation on file in that domain, in any
    -- spelling, or of that epoch, and it is the one on file; they never report that one is missing.
    pub validations_exact :
        (domain : Text) (epoch : ℕ)
        → IsPlain (normalise domain)
        → epoch < 2 ^ 64
        → Answers node.validations validation_key
            (laws.at now)
            (λ r. r.domain ≡ normalise domain)
            (validations_by_domain node now domain)
          × Answers node.validations validation_key
              (laws.at now)
              (λ r. r.epoch ≡ epoch)
              (validations_by_epoch node now epoch)
    unfolding validations_by_domain validations_by_epoch fetch_validation_records fetch_validations
    validations_exact domain epoch plain small = (
      query-Answers laws node.validations validation_key (λ r. r.domain ≡ normalise domain)
          validation_not_found (fetch_validations node) (λ t. refl) (λ t c ids. refl) now
          (domain_prefix (normalise domain)) (indexed.by_domain (normalise domain) plain),
      query-Answers laws node.validations validation_key (λ r. r.epoch ≡ epoch) validation_not_found
          (fetch_validations node) (λ t. refl) (λ t c ids. refl) now (epoch_prefix epoch)
          (indexed.by_epoch epoch small),
    )

    -- From an empty database, after any writes and deletions, accepted or not, in which no validator id
    -- of a vote has a '/', VotesByValidator of an id without '/' returns, unless Badger fails, one vote
    -- for each claim with a vote of that validator on file, and it is the one on file.
    pub by_validator_exact :
        (validator_id : Text)
        → IsPlain validator_id
        → Answers node.votes
            (λ c. vote_key c validator_id)
            (laws.at now)
            (λ v. v.validator_id ≡ validator_id)
            (votes_by_validator node now validator_id)
    unfolding votes_by_validator fetch_votes
    by_validator_exact validator_id plain =
        query-Answers laws node.votes (λ c. vote_key c validator_id)
          (λ v. v.validator_id ≡ validator_id) vote_not_found (λ t. fetch_votes node t validator_id)
          (λ t. refl) (λ t c ids. refl) now (by_validator_prefix validator_id)
          (indexed.by_validator validator_id plain)
