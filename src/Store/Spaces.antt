-- ===== src/Store/Spaces.antt =====
-- Keys of different kinds are different (keys.go).
use pulsesyn.Prelude.{
  nat_beq_iff, arith, ap, ◌∙◌, sym, false, refl, nat_beq, ==_refl, ==-of-ne, some, ◌≢◌, ◌≡◌, ℕ,
  get_elem?, Option,
}
use pulsesyn.Text.{Text, text_eq}
use pulsesyn.Store.Keys.{validator_key, claim_key, validation_key, vote_key}
use pulsesyn.Store.Effects.{put, Contents}
use mathlib.Core.Option.{some-injective}

-- Two texts that differ at a place.
pub differ :
    (i : ℕ) {a b : ℕ} (k j : Text)
    → get_elem? k i ≡ some a
    → get_elem? j i ≡ some b
    → nat_beq a b ≡ false
    → k ≢ j
differ i {a = a} {b = b} k j at_k at_j other e =
    let same : a ≡ b = some-injective a b (sym at_k ∙ ap (λ (t : Text). get_elem? t i) e ∙ at_j) in
    ground (arith, nat_beq_iff a b)

pub put_other :
    {V : Type 0} (k j : Text) (o : Option V) (m : Contents V) → k ≢ j → put k o m j ≡ m j
put_other k j o m h = rw (put, ==-of-ne k j h) refl

pub put_same : {V : Type 0} (k : Text) (o : Option V) (m : Contents V) → put k o m k ≡ o
put_same k o m = rw (put, ==_refl k) refl

-- A key that no claim, no validator and no index has.
pub record IsPermanent (k : Text) : Type 0 where
  pub starts_v : get_elem? k 0 ≡ some 118
  pub not_validator : (v : Text) → validator_key v ≢ k

pub validation_key-IsPermanent : (c : Text) → IsPermanent (validation_key c)
validation_key-IsPermanent c = record {
  starts_v = refl;
  not_validator = λ v. differ 7 (validator_key v) (validation_key c) refl refl refl;
}

pub vote_key-IsPermanent : (c v : Text) → IsPermanent (vote_key c v)
vote_key-IsPermanent c v = record {
  starts_v = refl;
  not_validator = λ w. differ 1 (validator_key w) (vote_key c v) refl refl refl;
}

module _ (k : Text) (p : IsPermanent k) where
  pub not_claim : (c : Text) → claim_key c ≢ k
  not_claim c = differ 0 (claim_key c) k refl p.starts_v refl

  -- `j` is the key of an index.
  pub not_index : (j : Text) → get_elem? j 0 ≡ some 105 → j ≢ k
  not_index j i = differ 0 j k i p.starts_v refl
