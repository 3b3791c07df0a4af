-- ===== src/Claim/Accepts.antt =====
-- Which submissions NewClaim accepts (claim.go).
use pulsesyn.Prelude.{
  report, first_broken, inr, ap, ◌∙◌, inl, Option-cases, ◌↔◌, nat_beq, ltb, err, ◌==◌, ◌∷◌, none,
  some, List, arith, refl, not, fail_if, [], ok, length, true, ◌≡◌, false, Bool,
}
use pulsesyn.Text.{trim_space, CaseTable, text_eq}
use pulsesyn.Claim.Schema.{
  Claim, new_claim, content_url_unreachable, content_url_invalid, content_url_empty,
  content_hash_empty, submitter_id_empty, time_reference_empty, domain_tags_empty,
  claim_text_too_long, claim_text_too_short, claim_text_empty, ClaimError, international,
  predictive, national, contextual, factual, local, geographic_scope_invalid, claim_type_invalid,
  validate_geographic_scope, is_unreachable, is_bad_url, validate_content_url, unknown_type, Input,
  validate_claim_type, unknown_scope, validate_input, World, GeographicScope, ClaimType,
}

abbrev pub is_known_type : ClaimType → Bool
is_known_type (unknown_type s) = false
is_known_type _ = true

abbrev pub is_known_scope : GeographicScope → Bool
is_known_scope (unknown_scope s) = false
is_known_scope _ = true

module _ ⦃u : CaseTable⦄ {T : Type 0} (world : World T) where
  -- The rules of a submission, each with the error for breaking it. A tag may be blank, and the
  -- content hash may be any text that is not.
  abbrev pub rules : Input T → List (Bool × ClaimError)
  rules input =
      let text = trim_space input.claim_text in
      let url = trim_space input.content_url in
      (text == [], claim_text_empty)
      ∷ (ltb (length text) 20, claim_text_too_short)
      ∷ (ltb 500 (length text), claim_text_too_long)
      ∷ (not (is_known_type input.claim_type), claim_type_invalid)
      ∷ (not (is_known_scope input.geographic_scope), geographic_scope_invalid)
      ∷ (nat_beq (length input.domain_tags) 0, domain_tags_empty)
      ∷ (world.is_zero input.time_reference, time_reference_empty)
      ∷ (trim_space input.submitter_id == [], submitter_id_empty)
      ∷ (trim_space input.content_hash == [], content_hash_empty)
      ∷ (url == [], content_url_empty)
      ∷ (is_bad_url world (world.parse_request_uri url), content_url_invalid)
      ∷ (is_unreachable world (world.head_status url), content_url_unreachable)
      ∷ []

  validate_claim_type-eq :
      (t : ClaimType) → validate_claim_type t ≡ fail_if (not (is_known_type t)) claim_type_invalid
  unfolding validate_claim_type
  validate_claim_type-eq factual = refl
  validate_claim_type-eq contextual = refl
  validate_claim_type-eq predictive = refl
  validate_claim_type-eq (unknown_type s) = refl

  validate_geographic_scope-eq :
      (s : GeographicScope)
      → validate_geographic_scope s ≡ fail_if (not (is_known_scope s)) geographic_scope_invalid
  unfolding validate_geographic_scope
  validate_geographic_scope-eq local = refl
  validate_geographic_scope-eq national = refl
  validate_geographic_scope-eq international = refl
  validate_geographic_scope-eq (unknown_scope s) = refl

  pub validate_input-rules :
      (input : Input T) → validate_input world input ≡ report (first_broken (rules input))
  unfolding validate_input validate_content_url
  validate_input-rules input =
      let types = validate_claim_type-eq input.claim_type in
      let scopes = validate_geographic_scope-eq input.geographic_scope in
      rw (types, scopes) ground arith

  -- NewClaim returns an error exactly if a rule is broken, and it is the error of the first broken rule;
  -- it returns a claim exactly if no rule is broken.
  pub new_claim-rules :
      (input : Input T)
      → ((e : ClaimError) → (new_claim world input ≡ err e) ↔ (first_broken (rules input) ≡ some e))
        × (((c : Claim T) × (new_claim world input ≡ ok c)) ↔ (first_broken (rules input) ≡ none))
  unfolding new_claim
  new_claim-rules input =
      let v = validate_input-rules input in
      elim (Option-cases (first_broken (rules input))) [
        | inl kept ↦
            let passed : validate_input world input ≡ ok tt = v ∙ ap report kept in
            rw (passed, kept) (λ e. (λ h. cc, λ h. cc), (λ _. refl, λ _. (_, refl)))
        | inr (e, broken) ↦
            let failed : validate_input world input ≡ err e = v ∙ ap report broken in
            rw (failed, broken) (λ e'. (λ h. cc, λ h. cc), (λ h. cc, λ h. cc))
      ]
