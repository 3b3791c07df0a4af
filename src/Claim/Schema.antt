-- ===== src/Claim/Schema.antt =====
-- The claim and its construction (claim.go). The network, the clock's format and the digest are
-- parameters.
use pulsesyn.Prelude.{
  nat_beq, none, leb, length, ◌||◌, ltb, [], if◌then◌else◌, some, ◌==◌, true, fail_if, ◌∷◌, ◌++◌,
  ok, ◌>>◌, List, Option, err, Result, Bool, ℕ,
}
use pulsesyn.Text.{normalise, trim_space, CaseTable, Text, text_eq}

-- Every other string is the last constructor.
pub data ClaimType : Type 0 where
  factual contextual predictive : ClaimType
  unknown_type : Text → ClaimType

pub data GeographicScope : Type 0 where
  local national international : GeographicScope
  unknown_scope : Text → GeographicScope

pub data LifecycleState : Type 0 where
  submitted queued active computing provisional disputed finalized : LifecycleState
  unknown_state : Text → LifecycleState

-- The sentinel errors that are returned.
pub data ClaimError : Type 0 where
  claim_text_empty claim_text_too_long claim_text_too_short claim_type_invalid : ClaimError
  content_url_empty content_url_invalid content_url_unreachable content_hash_empty : ClaimError
  submitter_id_empty domain_tags_empty time_reference_empty geographic_scope_invalid : ClaimError
  invalid_transition : LifecycleState → LifecycleState → ClaimError

pub record Claim (T : Type 0) : Type 0 where
  pub claim_id : Text
  pub claim_text : Text
  pub claim_type : ClaimType
  pub domain_tags : List Text
  pub geographic_scope : GeographicScope
  pub time_reference : T
  pub content_hash : Text
  pub content_url : Text
  pub submitter_id : Text
  pub submission_epoch : ℕ
  pub state : LifecycleState

pub record Input (T : Type 0) : Type 0 where
  pub claim_text : Text
  pub claim_type : ClaimType
  pub domain_tags : List Text
  pub geographic_scope : GeographicScope
  pub time_reference : T
  pub content_hash : Text
  pub content_url : Text
  pub submitter_id : Text
  pub submission_epoch : ℕ

-- What the construction uses of `time`, `net/url`, `net/http` and `crypto/sha256`.
pub record World (T : Type 0) : Type 0 where
  pub is_zero : T → Bool
  -- `t.UTC().Format(time.RFC3339Nano)`
  pub format : T → Text
  -- `url.ParseRequestURI`: the scheme and the host
  pub parse_request_uri : Text → Option (Text × Text)
  -- `client.Head`: the status, or none for an error
  pub head_status : Text → Option ℕ
  -- the digest of a text's bytes, in hexadecimal digits
  pub sha256_hex : Text → Text

abbrev pub max_claim_text_length : ℕ
max_claim_text_length = 500

abbrev pub min_claim_text_length : ℕ
min_claim_text_length = 20

unfoldable pub validate_claim_type : ClaimType → Result ClaimError (Unit {0})
validate_claim_type (unknown_type s) = err claim_type_invalid
validate_claim_type _ = ok tt

unfoldable pub validate_geographic_scope : GeographicScope → Result ClaimError (Unit {0})
validate_geographic_scope (unknown_scope s) = err geographic_scope_invalid
validate_geographic_scope _ = ok tt

module _ ⦃u : CaseTable⦄ where
  unfoldable pub normalise_domain_tags : List Text → List Text
  normalise_domain_tags [] = []
  normalise_domain_tags (t ∷ tags) =
      let rest = normalise_domain_tags tags in
      if normalise t == [] then rest else normalise t ∷ rest

  module _ {T : Type 0} (world : World T) where
    -- `err != nil || parsed.Scheme == "" || parsed.Host == ""`
    abbrev pub is_bad_url : Option (Text × Text) → Bool
    is_bad_url none = true
    is_bad_url (some (scheme, host)) = scheme == [] || host == []

    -- `err != nil`, or a status outside [200, 400)
    abbrev pub is_unreachable : Option ℕ → Bool
    is_unreachable none = true
    is_unreachable (some status) = ltb status 200 || leb 400 status

    unfoldable pub validate_content_url : Text → Result ClaimError (Unit {0})
    validate_content_url raw_url = do
      fail_if (raw_url == []) content_url_empty
      fail_if (is_bad_url (world.parse_request_uri raw_url)) content_url_invalid
      fail_if (is_unreachable (world.head_status raw_url)) content_url_unreachable

    unfoldable pub validate_input : Input T → Result ClaimError (Unit {0})
    validate_input input = do
      let text = trim_space input.claim_text
      fail_if (text == []) claim_text_empty
      fail_if (ltb (length text) min_claim_text_length) claim_text_too_short
      fail_if (ltb max_claim_text_length (length text)) claim_text_too_long
      validate_claim_type input.claim_type
      validate_geographic_scope input.geographic_scope
      fail_if (nat_beq (length input.domain_tags) 0) domain_tags_empty
      fail_if (world.is_zero input.time_reference) time_reference_empty
      fail_if (trim_space input.submitter_id == []) submitter_id_empty
      fail_if (trim_space input.content_hash == []) content_hash_empty
      validate_content_url (trim_space input.content_url)

    unfoldable pub compute_claim_id : Input T → Text
    compute_claim_id input = world.sha256_hex (
        trim_space input.claim_text
        ++ (normalise input.content_hash
            ++ (trim_space input.submitter_id ++ world.format input.time_reference)))

    unfoldable pub new_claim : Input T → Result ClaimError (Claim T)
    new_claim input = do
      validate_input input
      ok (record {
        claim_id = compute_claim_id input;
        claim_text = trim_space input.claim_text;
        claim_type = input.claim_type;
        domain_tags = normalise_domain_tags input.domain_tags;
        geographic_scope = input.geographic_scope;
        time_reference = input.time_reference;
        content_hash = normalise input.content_hash;
        content_url = trim_space input.content_url;
        submitter_id = trim_space input.submitter_id;
        submission_epoch = input.submission_epoch;
        state = submitted;
      })
