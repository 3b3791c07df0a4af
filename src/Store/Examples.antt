-- ===== src/Store/Examples.antt =====
-- The theorems on the store at a database in memory, and tests.
use pulsesyn.Prelude.{
  refl, arith, ◌≢◌, All, none, ◌≡◌, ◌>>◌, ◌>>=◌, ok-injective, false, err, some, sym, nat_beq, pos,
  ap, ok, Result, List, [], ◌∷◌, ℕ,
}
use pulsesyn.Text.{normalise, codes, Text, text_eq, ascii}
use pulsesyn.Float.Fixed.{fixed_float, Fixed}
use pulsesyn.Store.Reached.{IsOrderly, RoundTrips}
use pulsesyn.Claim.{submitted, local, factual, Claim}
use pulsesyn.Store.History.{
  read_forever, claim_deleted, vote_written, validation_written, perform_all, Operation,
}
use pulsesyn.Store.Records.{
  validate_validation_record, validator_not_found, claim_not_found, json_failed, ValidationRecord,
  VoteRecord,
}
use pulsesyn.Store.Base.{require_absent, update, read_value, view, failing, Node}
use pulsesyn.Reputation.{ValidatorRecord}
use pulsesyn.Store.Effects.{Reads}
use pulsesyn.Store.Claims.{
  delete_validator_record, read_validator_record, write_validator_record, delete_claim, read_claim,
  write_claim,
}
use pulsesyn.Store.Memory.{memory-at, memory-IsBadger, memory}
use pulsesyn.Verdict.{supported}
use pulsesyn.Store.Errors.{write_errors, validation_rules, vote_rules, wrong, taken}
use pulsesyn.Dict.{insert, lookup}
use pulsesyn.Store.Keys.{hex16, validator_key, validation_key, vote_key, claim_key}
use pulsesyn.Store.Validations.{
  validations_by_epoch, read_vote, validations_by_domain, votes_by_validator,
  read_validation_record, write_validation_record, write_vote,
}
use pulsesyn.Store.Badger.{IsBadger}
use pulsesyn.Store.Queries.{Answers}
use pulsesyn.Store.Trips.{read_back, Untouched, Either}
use pulsesyn.Store.Prefixes.{IsPlain}
use pulsesyn.Store.Found.{validations_exact, by_validator_exact}
use pulsesyn.Store.Recorded.{recorded}
use pulsesyn.Store.Clash.{by_domain-fails}

-- Encoded records.
data Json : Type 0 where
  blank : Json
  claim_json : Claim ℕ → Json
  validator_json : ValidatorRecord Fixed → Json
  vote_json : VoteRecord Fixed ℕ → Json
  validation_json : ValidationRecord Fixed ℕ → Json

abbrev claim_of : Json → Result Text (Claim ℕ)
claim_of (claim_json c) = ok c
claim_of _ = err (codes "not a claim")

abbrev validator_of : Json → Result Text (ValidatorRecord Fixed)
validator_of (validator_json r) = ok r
validator_of _ = err (codes "not a validator")

abbrev vote_of : Json → Result Text (VoteRecord Fixed ℕ)
vote_of (vote_json v) = ok v
vote_of _ = err (codes "not a vote")

abbrev validation_of : Json → Result Text (ValidationRecord Fixed ℕ)
validation_of (validation_json r) = ok r
validation_of _ = err (codes "not a validation")

abbrev here : Node Fixed ℕ
here = record {
  badger = memory blank;
  claims = record { marshal = λ c. ok (claim_json c); unmarshal = claim_of };
  validators = record { marshal = λ r. ok (validator_json r); unmarshal = validator_of };
  votes = record { marshal = λ v. ok (vote_json v); unmarshal = vote_of };
  validations = record { marshal = λ r. ok (validation_json r); unmarshal = validation_of };
  is_zero = λ t. nat_beq t 0;
}

claims_round : RoundTrips here.claims
claims_round c b e = ap claim_of (sym (ok-injective _ _ e))

validators_round : RoundTrips here.validators
validators_round r b e = ap validator_of (sym (ok-injective _ _ e))

votes_round : RoundTrips here.votes
votes_round v b e = ap vote_of (sym (ok-injective _ _ e))

validations_round : RoundTrips here.validations
validations_round r b e = ap validation_of (sym (ok-injective _ _ e))

abbrev half : Fixed
half = fixed_float.ratio 1 2

abbrev vote_on : Text → VoteRecord Fixed ℕ
vote_on claim_id = record {
  claim_id = claim_id;
  validator_id = codes "v1";
  verdict = supported;
  confidence = half;
  domain_reputation = half;
  bias_coefficient = half;
  validator_set_size = pos 3;
  epoch = 7;
  recorded_at = 1;
}

abbrev settled : Text → Text → ValidationRecord Fixed ℕ
settled claim_id domain = record {
  claim_id = claim_id;
  domain = domain;
  verdict = supported;
  confidence_score = half;
  participation_rate = half;
  validator_count = pos 2;
  epoch = 7;
  merkle_root = [];
  finalized_at = 1;
}

abbrev claimed : Claim ℕ
claimed = record {
  claim_id = codes "c1";
  claim_text = codes "text";
  claim_type = factual;
  domain_tags = [];
  geographic_scope = local;
  time_reference = 1;
  content_hash = codes "h";
  content_url = codes "u";
  submitter_id = codes "s";
  submission_epoch = 7;
  state = submitted;
}

abbrev registered : ValidatorRecord Fixed
registered = record {
  validator_id = codes "v1";
  genesis_validator = false;
  registration_epoch = 7;
  domain_scores = [];
  global_reputation = half;
  total_validations = 0;
  status = pulsesyn.Reputation.active;
}

abbrev calls : List (Operation Fixed ℕ)
calls =
    validation_written (settled (codes "c1") (codes " Health "))
    ∷ vote_written (vote_on (codes "c1"))
    ∷ claim_deleted (codes "c1")
    ∷ []

abbrev laws : IsBadger here.badger
laws = memory-IsBadger blank

-- A database with one validation and one vote.
abbrev filled : List (Text × Json)
filled =
    (validation_key (codes "c1"), validation_json (settled (codes "c1") (codes "health")))
    ∷ (vote_key (codes "c1") (codes "v1"), vote_json (vote_on (codes "c1")))
    ∷ []

abbrev vote : VoteRecord Fixed ℕ
vote = vote_on (codes "c1")

abbrev slashed : ValidationRecord Fixed ℕ
slashed = settled (codes "c") (codes "a/b")

write_errors_example :
    Reads (write_claim here filled (some claimed)).1 (
      failing json_failed (here.claims.marshal claimed) >>= λ _.
      taken (laws.at filled (claim_key claimed.claim_id)))
    × Reads (write_vote here filled vote).1 (
        (wrong (vote_rules vote) >> failing json_failed (here.votes.marshal vote)) >>= λ _.
        taken (laws.at filled (vote_key vote.claim_id vote.validator_id)))
    × Reads (write_validation_record here filled slashed).1 (
        (wrong (validation_rules here.is_zero slashed)
          >> failing json_failed
              (here.validations.marshal (record slashed { domain = normalise slashed.domain })))
        >>= λ _. taken (laws.at filled (validation_key slashed.claim_id)))
write_errors_example = write_errors here laws filled claimed vote slashed

read_forever_example :
    Reads
      (read_validation_record here (perform_all here filled calls) (codes "c1"))
      (ok (settled (codes "c1") (codes "health")))
    × Reads (read_vote here (perform_all here filled calls) (codes "c1") (codes "v1")) (ok vote)
unfolding read_validation_record read_vote view read_value lookup
read_forever_example =
    read_forever here laws filled calls (codes "c1") (settled (codes "c1") (codes "health"))
      (codes "c1") (codes "v1") vote refl refl

read_back_example :
    Either here laws filled (write_claim here filled (some claimed)) (λ s'.
      (laws.at filled (claim_key claimed.claim_id) ≡ none)
      × Reads (read_claim here s' claimed.claim_id) (ok claimed)
      × Untouched here laws (claim_key claimed.claim_id) filled s')
    × Either here laws filled (delete_claim here filled (codes "c1")) (λ s'.
      Reads (read_claim here s' (codes "c1")) (err claim_not_found)
      × Untouched here laws (claim_key (codes "c1")) filled s')
    × Either here laws filled (write_validator_record here filled (some registered)) (λ s'.
      Reads (read_validator_record here s' registered.validator_id) (ok registered)
      × Untouched here laws (validator_key registered.validator_id) filled s')
    × Either here laws filled (delete_validator_record here filled (codes "c1")) (λ s'.
      Reads (read_validator_record here s' (codes "c1")) (err validator_not_found)
      × Untouched here laws (validator_key (codes "c1")) filled s')
read_back_example =
    read_back here laws filled claimed registered (codes "c1") claims_round validators_round

recorded_example :
    Either here laws filled (write_vote here filled vote) (λ s'.
      (laws.at filled (vote_key vote.claim_id vote.validator_id) ≡ none)
      × Reads (read_vote here s' vote.claim_id vote.validator_id) (ok vote))
    × Either here laws filled (write_validation_record here filled slashed) (λ s'.
      (laws.at filled (validation_key slashed.claim_id) ≡ none)
      × Reads
          (read_validation_record here s' slashed.claim_id)
          (ok (record slashed { domain = normalise slashed.domain })))
recorded_example = recorded here laws filled vote slashed votes_round validations_round

nothing_there : (k : Text) → laws.at [] k ≡ none
unfolding lookup
nothing_there k = memory-at blank [] k

health-IsPlain : IsPlain (normalise (codes "Health"))
unfolding normalise
health-IsPlain = (refl, (refl, (refl, (refl, (refl, (refl, tt))))))

calls-IsOrderly : All (IsOrderly here) calls
unfolding normalise
calls-IsOrderly = ((health-IsPlain, omega arith), ((refl, (refl, tt)), (tt, tt)))

abbrev after_calls : List (Text × Json)
after_calls = perform_all here [] calls

validations_exact_example :
    Answers here.validations validation_key
      (laws.at after_calls)
      (λ r. r.domain ≡ normalise (codes "Health"))
      (validations_by_domain here after_calls (codes "Health"))
    × Answers here.validations validation_key
        (laws.at after_calls)
        (λ r. r.epoch ≡ 7)
        (validations_by_epoch here after_calls 7)
validations_exact_example =
    validations_exact here laws votes_round validations_round [] nothing_there calls calls-IsOrderly
      (codes "Health") 7 health-IsPlain (omega arith)

by_validator_exact_example :
    Answers here.votes
      (λ c. vote_key c (codes "v1"))
      (laws.at after_calls)
      (λ v. v.validator_id ≡ codes "v1")
      (votes_by_validator here after_calls (codes "v1"))
by_validator_exact_example =
    by_validator_exact here laws votes_round validations_round [] nothing_there calls
      calls-IsOrderly (codes "v1") (refl, (refl, tt))

slashed_written : (write_validation_record here [] slashed).1 ≡ ok tt
unfolding write_validation_record update require_absent validate_validation_record lookup insert
    normalise pulsesyn.Store.Keys.hex
slashed_written = refl

by_domain-fails_example :
    validations_by_domain here (write_validation_record here [] slashed).0 (codes "a") ≢ ok []
unfolding normalise
by_domain-fails_example =
    by_domain-fails here laws [] slashed (codes "a") (codes "b") [] refl refl slashed_written
      (nothing_there (validation_key (codes "b/c")))

-- The validation and the vote that the calls wrote, in the spelling of the index.
health_found :
    validations_by_domain here after_calls (codes "HEALTH")
    ≡ ok (settled (codes "c1") (codes "health") ∷ [])
unfolding validations_by_domain pulsesyn.Store.Base.prefix_scan_keys view
    pulsesyn.Store.Validations.fetch_validation_records pulsesyn.Store.Validations.fetch_validations
    delete_claim update pulsesyn.Store.Base.require_present lookup write_vote
    pulsesyn.Store.Records.validate_vote_record pulsesyn.Text.trim_space require_absent
    write_validation_record validate_validation_record insert normalise read_value
    pulsesyn.Store.Keys.hex
health_found = refl

epoch_hex : hex16 255 ≡ codes "00000000000000ff"
unfolding pulsesyn.Store.Keys.hex
epoch_hex = refl
