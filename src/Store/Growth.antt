-- ===== src/Store/Growth.antt =====
-- The indexes after a vote or a validation was added.
use pulsesyn.Prelude.{sym, ◌==◌, if◌then◌else◌, ◌^◌, ◌<◌, some, refl, ◌∙◌, ap, ◌≡◌, ◌≢◌}
use pulsesyn.Text.{normalise, CaseTable, Text, text_eq}
use pulsesyn.Float.{Float64}
use pulsesyn.Store.Base.{Node}
use pulsesyn.Store.Badger.{IsBadger}
use pulsesyn.Store.Records.{ValidationRecord, VoteRecord}
use pulsesyn.Store.Effects.{put, Contents}
use pulsesyn.Store.Reached.{RoundTrips, IsIndexed}
use pulsesyn.Store.Prefixes.{
  vote_key-claim, epoch-injective, validation_key-claim, parts-injective, IsPlain,
}
use pulsesyn.Store.Writes.{ValidationAdded, VoteAdded}
use pulsesyn.Store.Keys.{
  prefix_idx_vote_by_validator, prefix_idx_domain, by_validator_prefix, idx_epoch_key, epoch_prefix,
  idx_domain_key, domain_prefix, idx_vote_by_validator_key, vote_key, validation_key,
}
use pulsesyn.Store.Indexed.{Lists-put, Lists-ext}
use pulsesyn.Store.Spaces.{put_other, differ}

module _ {F T : Type 0} ⦃fl : Float64 F⦄ ⦃u : CaseTable⦄ (node : Node F T)
    (laws : IsBadger node.badger) where
  module _ (v : VoteRecord F T) (m m' : Contents node.badger.Value) (h : IsIndexed node m)
      (plain : IsPlain v.validator_id) (added : VoteAdded node laws v m m')
      (codec : RoundTrips node.votes) where
    abbrev own : Text
    own = idx_vote_by_validator_key v.validator_id v.claim_id

    abbrev new : Text
    new = vote_key v.claim_id v.validator_id

    abbrev val : node.badger.Value
    val = added.1

    abbrev filed : Contents node.badger.Value
    filed = put new (some val) m

    vote_elsewhere : (k : Text) → own ≢ k → new ≢ k → m' k ≡ m k
    vote_elsewhere k index_apart record_apart =
        ap (λ (n : Contents node.badger.Value). n k) added.4
        ∙ put_other own k (some node.badger.empty) filed index_apart
        ∙ put_other new k (some val) m record_apart

    vote_validation : (c : Text) → m' (validation_key c) ≡ m (validation_key c)
    vote_validation c =
        vote_elsewhere (validation_key c) (differ 0 own (validation_key c) refl refl refl)
          (differ 1 new (validation_key c) refl refl refl)

    pub vote-IsIndexed : IsIndexed node m'
    vote-IsIndexed = record {
      by_domain = λ d plain_d.
          Lists-ext node.validations validation_key (domain_prefix d) (λ r. r.domain ≡ d) m m'
            (λ c.
              vote_elsewhere (idx_domain_key d c) (differ 4 own (idx_domain_key d c) refl refl refl)
                (differ 0 new (idx_domain_key d c) refl refl refl))
            vote_validation (h.by_domain d plain_d);
      by_epoch = λ n small.
          Lists-ext node.validations validation_key (epoch_prefix n) (λ r. r.epoch ≡ n) m m'
            (λ c.
              vote_elsewhere (idx_epoch_key n c) (differ 4 own (idx_epoch_key n c) refl refl refl)
                (differ 0 new (idx_epoch_key n c) refl refl refl))
            vote_validation (h.by_epoch n small);
      by_validator = λ w plain_w.
          Lists-put node.votes (λ c. vote_key c w) (by_validator_prefix w) (λ x. x.validator_id ≡ w)
            m m' new own val node.badger.empty v added.3 (codec v val added.2)
            (λ c.
              let k = idx_vote_by_validator_key w c in
              ap (λ (n : Contents node.badger.Value). n k) added.4
              ∙ ap (λ o. if own == k then some node.badger.empty else o)
                  (put_other new k (some val) m (differ 0 new k refl refl refl)))
            (λ c.
              let k = vote_key c w in
              ap (λ (n : Contents node.badger.Value). n k) added.4
              ∙ put_other own k (some node.badger.empty) filed (differ 0 own k refl refl refl))
            (λ c e.
              let (ids, claims) =
                parts-injective prefix_idx_vote_by_validator v.validator_id w v.claim_id c plain
                  plain_w e in
              (λ i. vote_key (claims i) (ids i), ids))
            (λ c e q.
              let same = ap (vote_key c) (sym q) in
              let claims = vote_key-claim v.claim_id c v.validator_id (e ∙ same) in
              λ i. idx_vote_by_validator_key (q i) (claims i))
            (h.by_validator w plain_w);
    }

  module _ (r : ValidationRecord F T) (m m' : Contents node.badger.Value) (h : IsIndexed node m)
      (plain : IsPlain (normalise r.domain)) (small : r.epoch < 2 ^ 64)
      (added : ValidationAdded node laws r m m') (codec : RoundTrips node.validations) where
    abbrev filing : Text
    filing = validation_key r.claim_id

    abbrev domain_entry : Text
    domain_entry = idx_domain_key (normalise r.domain) r.claim_id

    abbrev epoch_entry : Text
    epoch_entry = idx_epoch_key r.epoch r.claim_id

    abbrev stored : ValidationRecord F T
    stored = record r { domain = normalise r.domain }

    abbrev recorded : Contents node.badger.Value
    recorded = put filing (some added.1) m

    abbrev listed : Contents node.badger.Value
    listed = put domain_entry (some node.badger.empty) recorded

    validation_elsewhere :
        (k : Text)
        → filing ≢ k
        → domain_entry ≢ k
        → m' k ≡ put epoch_entry (some node.badger.empty) m k
    validation_elsewhere k record_apart domain_apart =
        ap (λ (n : Contents node.badger.Value). n k) added.4
        ∙ ap (λ o. if epoch_entry == k then some node.badger.empty else o)
            (put_other domain_entry k (some node.badger.empty) recorded domain_apart
              ∙ put_other filing k (some added.1) m record_apart)

    validation_filing :
        (c : Text) → m' (validation_key c) ≡ put filing (some added.1) m (validation_key c)
    validation_filing c =
        let k = validation_key c in
        ap (λ (n : Contents node.badger.Value). n k) added.4
        ∙ put_other epoch_entry k (some node.badger.empty) listed
            (differ 0 epoch_entry k refl refl refl)
        ∙ put_other domain_entry k (some node.badger.empty) recorded
            (differ 0 domain_entry k refl refl refl)

    pub validation-IsIndexed : IsIndexed node m'
    validation-IsIndexed = record {
      by_domain = λ d plain_d.
          Lists-put node.validations validation_key (domain_prefix d) (λ x. x.domain ≡ d) m m'
            filing domain_entry added.1 node.badger.empty stored added.3
            (codec stored added.1 added.2)
            (λ c.
              let k = idx_domain_key d c in
              ap (λ (n : Contents node.badger.Value). n k) added.4
              ∙ put_other epoch_entry k (some node.badger.empty) listed
                  (differ 4 epoch_entry k refl refl refl)
              ∙ ap (λ o. if domain_entry == k then some node.badger.empty else o)
                  (put_other filing k (some added.1) m (differ 0 filing k refl refl refl)))
            validation_filing
            (λ c e.
              let (domains, claims) =
                parts-injective prefix_idx_domain (normalise r.domain) d r.claim_id c plain plain_d
                  e in
              (ap validation_key claims, domains))
            (λ c e q.
              let claims = validation_key-claim r.claim_id c e in
              λ i. idx_domain_key (q i) (claims i))
            (h.by_domain d plain_d);
      by_epoch = λ n small_n.
          Lists-put node.validations validation_key (epoch_prefix n) (λ x. x.epoch ≡ n) m m' filing
            epoch_entry added.1 node.badger.empty stored added.3 (codec stored added.1 added.2)
            (λ c.
              let k = idx_epoch_key n c in
              validation_elsewhere k (differ 0 filing k refl refl refl)
                (differ 4 domain_entry k refl refl refl))
            validation_filing
            (λ c e.
              let (epochs, claims) = epoch-injective r.epoch n r.claim_id c small small_n e in
              (ap validation_key claims, epochs))
            (λ c e q.
              let claims = validation_key-claim r.claim_id c e in
              λ i. idx_epoch_key (q i) (claims i))
            (h.by_epoch n small_n);
      by_validator = λ w plain_w.
          Lists-ext node.votes (λ c. vote_key c w) (by_validator_prefix w) (λ x. x.validator_id ≡ w)
            m m'
            (λ c.
              let k = idx_vote_by_validator_key w c in
              validation_elsewhere k (differ 0 filing k refl refl refl)
                (differ 4 domain_entry k refl refl refl)
              ∙ put_other epoch_entry k (some node.badger.empty) m
                  (differ 4 epoch_entry k refl refl refl))
            (λ c.
              let k = vote_key c w in
              validation_elsewhere k (differ 1 filing k refl refl refl)
                (differ 0 domain_entry k refl refl refl)
              ∙ put_other epoch_entry k (some node.badger.empty) m
                  (differ 0 epoch_entry k refl refl refl))
            (h.by_validator w plain_w);
    }
