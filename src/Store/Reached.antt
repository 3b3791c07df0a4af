-- ===== src/Store/Reached.antt =====
-- The indexes of a database that orderly writes and any deletions filled.
use pulsesyn.Prelude.{refl, ap, ℕ, some, ◌^◌, ◌∙◌, ◌<◌, get_elem?, ◌≢◌, sym, none, Option, ok, ◌≡◌}
use pulsesyn.Text.{normalise, CaseTable, Text, text_eq}
use pulsesyn.Float.{Float64}
use pulsesyn.Store.Base.{Node, Codec}
use pulsesyn.Store.Effects.{put, Contents}
use pulsesyn.Store.History.{vote_written, validation_written, Operation}
use pulsesyn.Store.Spaces.{
  vote_key-IsPermanent, validation_key-IsPermanent, differ, put_other, IsPermanent,
}
use pulsesyn.Store.Prefixes.{IsPlain}
use pulsesyn.Store.Indexed.{Lists-ext, Lists}
use pulsesyn.Store.Keys.{
  idx_vote_by_validator_key, idx_epoch_key, idx_domain_key, claim_key, validator_key,
  by_validator_prefix, vote_key, epoch_prefix, domain_prefix, validation_key,
}

-- Decoding gives back what was encoded. A value stands for what JSON carries of it: a time without its
-- monotonic reading, a map without an order.
abbrev pub RoundTrips : {V A : Type 0} → Codec V A → Type 0
RoundTrips {V = V} {A = A} codec =
    (a : A) (b : V) → codec.marshal a ≡ ok b → codec.unmarshal b ≡ ok a

module _ {F T : Type 0} ⦃fl : Float64 F⦄ ⦃u : CaseTable⦄ (node : Node F T) where
  -- The names that an index's key joins by '/' have none, and an epoch is a uint64.
  abbrev pub IsOrderly : Operation F T → Type 0
  IsOrderly (validation_written r) = IsPlain (normalise r.domain) × (r.epoch < 2 ^ 64)
  IsOrderly (vote_written v) = IsPlain v.validator_id
  IsOrderly _ = Unit

  -- The contents' indexes name what is filed.
  pub record IsIndexed (m : Contents node.badger.Value) : Type 0 where
    pub by_domain :
        (d : Text)
        → IsPlain d
        → Lists node.validations validation_key (domain_prefix d) (λ r. r.domain ≡ d) m
    pub by_epoch :
        (n : ℕ)
        → n < 2 ^ 64
        → Lists node.validations validation_key (epoch_prefix n) (λ r. r.epoch ≡ n) m
    pub by_validator :
        (v : Text)
        → IsPlain v
        → Lists node.votes (λ c. vote_key c v) (by_validator_prefix v) (λ w. w.validator_id ≡ v) m

  pub empty-IsIndexed : (m : Contents node.badger.Value) → ((k : Text) → m k ≡ none) → IsIndexed m
  empty-IsIndexed m h = record {
    by_domain = λ d _ c.
        (λ there. absurd (there (h _)), λ (a, (b, at, _), _) _. let e = sym at ∙ h _ in cc);
    by_epoch = λ n _ c.
        (λ there. absurd (there (h _)), λ (a, (b, at, _), _) _. let e = sym at ∙ h _ in cc);
    by_validator = λ v _ c.
        (λ there. absurd (there (h _)), λ (a, (b, at, _), _) _. let e = sym at ∙ h _ in cc);
  }

  -- A key that is neither a record's that an index names, nor an index's.
  module _ (j : Text) (o : Option node.badger.Value) (m m' : Contents node.badger.Value)
      (e : m' ≡ put j o m) (record_apart : (k : Text) → IsPermanent k → j ≢ k)
      (index_apart : (k : Text) → get_elem? k 0 ≡ some 105 → j ≢ k) where
    kept_record : (k : Text) → IsPermanent k → m' k ≡ m k
    kept_record k p =
        ap (λ (n : Contents node.badger.Value). n k) e ∙ put_other j k o m (record_apart k p)

    kept_index : (k : Text) → get_elem? k 0 ≡ some 105 → m' k ≡ m k
    kept_index k i =
        ap (λ (n : Contents node.badger.Value). n k) e ∙ put_other j k o m (index_apart k i)

    apart-IsIndexed : IsIndexed m → IsIndexed m'
    apart-IsIndexed h = record {
      by_domain = λ d plain.
          Lists-ext node.validations validation_key (domain_prefix d) (λ r. r.domain ≡ d) m m'
            (λ c. kept_index (idx_domain_key d c) refl)
            (λ c. kept_record (validation_key c) (validation_key-IsPermanent c))
            (h.by_domain d plain);
      by_epoch = λ n small.
          Lists-ext node.validations validation_key (epoch_prefix n) (λ r. r.epoch ≡ n) m m'
            (λ c. kept_index (idx_epoch_key n c) refl)
            (λ c. kept_record (validation_key c) (validation_key-IsPermanent c))
            (h.by_epoch n small);
      by_validator = λ v plain.
          Lists-ext node.votes (λ c. vote_key c v) (by_validator_prefix v) (λ w. w.validator_id ≡ v)
            m m' (λ c. kept_index (idx_vote_by_validator_key v c) refl)
            (λ c. kept_record (vote_key c v) (vote_key-IsPermanent c v)) (h.by_validator v plain);
    }

  pub claim-IsIndexed :
      (id : Text) (o : Option node.badger.Value) (m m' : Contents node.badger.Value)
      → m' ≡ put (claim_key id) o m
      → IsIndexed m
      → IsIndexed m'
  claim-IsIndexed id o m m' e =
      apart-IsIndexed (claim_key id) o m m' e
        (λ k p. differ 0 (claim_key id) k refl p.starts_v refl)
        (λ k i. differ 0 (claim_key id) k refl i refl)

  pub validator-IsIndexed :
      (id : Text) (o : Option node.badger.Value) (m m' : Contents node.badger.Value)
      → m' ≡ put (validator_key id) o m
      → IsIndexed m
      → IsIndexed m'
  validator-IsIndexed id o m m' e =
      apart-IsIndexed (validator_key id) o m m' e (λ k p. p.not_validator id)
        (λ k i. differ 0 (validator_key id) k refl i refl)
