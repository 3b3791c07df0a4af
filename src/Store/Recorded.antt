-- ===== src/Store/Recorded.antt =====
-- Votes and validations are read back as they were written (vote.go, validation.go).
use pulsesyn.Prelude.{refl, ◌∙◌, some, inr, inl, ok, none, ◌≡◌}
use pulsesyn.Text.{normalise, CaseTable, text_eq}
use pulsesyn.Float.{Float64}
use pulsesyn.Store.Base.{Node}
use pulsesyn.Store.Badger.{IsBadger}
use pulsesyn.Store.Validations.{
  write_validation_record, write_vote, read_validation_record, read_vote,
}
use pulsesyn.Store.Records.{validation_not_found, vote_not_found, ValidationRecord, VoteRecord}
use pulsesyn.Store.Reached.{RoundTrips}
use pulsesyn.Store.Trips.{put_rest, Either}
use pulsesyn.Store.Keys.{
  idx_epoch_key, idx_domain_key, idx_vote_by_validator_key, validation_key, vote_key,
}
use pulsesyn.Store.Effects.{reading-some, put, Reads}
use pulsesyn.Store.Writes.{write_validation-Outcome, write_vote-Outcome}
use pulsesyn.Store.Spaces.{put_other, put_same, differ}

module _ {F T : Type 0} ⦃fl : Float64 F⦄ ⦃u : CaseTable⦄ (node : Node F T)
    (laws : IsBadger node.badger) where
  -- WriteVote either fails and changes nothing, or there was no vote of the validator for the claim, and
  -- the vote is read back; WriteValidationRecord either fails and changes nothing, or there was no
  -- validation of the claim, and the record is read back with its domain trimmed and in lower case. A
  -- read may fail where Badger does.
  pub recorded :
      (s : node.badger.State) (v : VoteRecord F T) (r : ValidationRecord F T)
      → RoundTrips node.votes
      → RoundTrips node.validations
      → Either node laws s (write_vote node s v) (λ s'.
        (laws.at s (vote_key v.claim_id v.validator_id) ≡ none)
        × Reads (read_vote node s' v.claim_id v.validator_id) (ok v))
        × Either node laws s (write_validation_record node s r) (λ s'.
          (laws.at s (validation_key r.claim_id) ≡ none)
          × Reads
              (read_validation_record node s' r.claim_id)
              (ok (record r { domain = normalise r.domain })))
  unfolding read_vote read_validation_record
  recorded s v r votes validations = (
    elim (write_vote-Outcome node laws s v) [
      | inl failed ↦ inl failed
      | inr (done, (valid, val, encoded, free, e)) ↦
          let k = vote_key v.claim_id v.validator_id in
          let index = idx_vote_by_validator_key v.validator_id v.claim_id in
          let filed = put k (some val) (laws.at s) in
          let there =
            put_rest index (some node.badger.empty) filed _ e k (differ 0 index k refl refl refl)
            ∙ put_same k (some val) (laws.at s) in
          inr (
            done,
            (free, reading-some laws node.votes _ k vote_not_found v there (votes v val encoded)),
          )
    ],
    elim (write_validation-Outcome node laws s r) [
      | inl failed ↦ inl failed
      | inr (done, (valid, val, encoded, free, e)) ↦
          let k = validation_key r.claim_id in
          let stored = record r { domain = normalise r.domain } in
          let by_domain = idx_domain_key (normalise r.domain) r.claim_id in
          let by_epoch = idx_epoch_key r.epoch r.claim_id in
          let filed = put k (some val) (laws.at s) in
          let listed = put by_domain (some node.badger.empty) filed in
          let there =
            put_rest by_epoch (some node.badger.empty) listed _ e k
              (differ 0 by_epoch k refl refl refl)
            ∙ put_other by_domain k (some node.badger.empty) filed
                (differ 0 by_domain k refl refl refl)
            ∙ put_same k (some val) (laws.at s) in
          inr (
            done,
            (
              free,
              reading-some laws node.validations _ k validation_not_found stored there
                  (validations stored val encoded),
            ),
          )
    ],
  )
