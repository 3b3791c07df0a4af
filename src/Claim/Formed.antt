-- ===== src/Claim/Formed.antt =====
-- The claims that NewClaim makes (claim.go).
use pulsesyn.Prelude.{
  report, first_broken, err, arith, false, Result-cases, ne-of-==, ap, ◌∙◌, inr, inl, length, none,
  ◌==◌, ◌≤◌, refl, Bool-cases, ok, ◌∷◌, All, [], ◌≡◌, List, ◌≢◌,
}
use pulsesyn.Text.{trim_space, normalise, IsCaseTable, Text, CaseTable, text_eq}
use pulsesyn.Claim.Schema.{
  compute_claim_id, submitted, Claim, validate_input, Input, new_claim, World,
  normalise_domain_tags,
}
use pulsesyn.Claim.Accepts.{new_claim-rules, validate_input-rules, rules}
use pulsesyn.Text.Trim.{trim_space_idem, normalise_idem}

module _ ⦃u : CaseTable⦄ where
  -- A tag as the other packages look it up.
  abbrev pub IsTag : Text → Type 0
  IsTag t = (t ≢ []) × (normalise t ≡ t)

  abbrev pub IsBlank : Text → Type 0
  IsBlank t = normalise t ≡ []

  normalise_domain_tags-IsTag :
      (laws : IsCaseTable u) (tags : List Text) → All IsTag (normalise_domain_tags tags)
  unfolding normalise_domain_tags
  normalise_domain_tags-IsTag laws [] = tt
  normalise_domain_tags-IsTag laws (t ∷ tags) = elim (Bool-cases (normalise t == [])) [
    | inl blank ↦ rw blank (normalise_domain_tags-IsTag laws tags)
    | inr named ↦ rw named (
      (ne-of-== (normalise t) [] named, normalise_idem laws t),
      normalise_domain_tags-IsTag laws tags,
    )
  ]

  normalise_domain_tags-IsBlank :
      (tags : List Text) → All IsBlank tags → normalise_domain_tags tags ≡ []
  unfolding normalise_domain_tags
  normalise_domain_tags-IsBlank [] h = refl
  normalise_domain_tags-IsBlank (t ∷ tags) (b, bs) = rw b (normalise_domain_tags-IsBlank tags bs)

  module _ {T : Type 0} (world : World T) where
    -- The claim that is returned if no rule is broken.
    abbrev made : Input T → Claim T
    made input = record {
      claim_id = compute_claim_id world input;
      claim_text = trim_space input.claim_text;
      claim_type = input.claim_type;
      domain_tags = normalise_domain_tags input.domain_tags;
      geographic_scope = input.geographic_scope;
      time_reference = input.time_reference;
      content_hash = normalise input.content_hash;
      content_url = trim_space input.content_url;
      submitter_id = trim_space input.submitter_id;
      submission_epoch = input.submission_epoch;
      state = submitted;
    }

    new_claim-made : (input : Input T) {c : Claim T} → new_claim world input ≡ ok c → c ≡ made input
    unfolding new_claim
    new_claim-made input {c} h = elim (Result-cases (validate_input world input)) [
      | inl (_, passed) ↦ let same : ok (made input) ≡ ok c = rw passed at h in cc
      | inr (e, failed) ↦ let same : err e ≡ ok c = rw failed at h in cc
    ]

    kept-bounds :
        (input : Input T)
        → first_broken (rules world input) ≡ none
        → (20 ≤ length (trim_space input.claim_text))
          × (length (trim_space input.claim_text) ≤ 500)
          × ((trim_space input.submitter_id == []) ≡ false)
    kept-bounds input kept = ground arith

    -- Of a claim that NewClaim returned the text is trimmed and has 20 to 500 characters, every tag is trimmed, in lower case
    -- and not blank, the submitter is trimmed, the state is SUBMITTED, and the id is computed from the input.
    pub new_claim-formed :
        (laws : IsCaseTable u) (input : Input T) {c : Claim T}
        → new_claim world input ≡ ok c
        → (20 ≤ length c.claim_text)
          × (length c.claim_text ≤ 500)
          × (trim_space c.claim_text ≡ c.claim_text)
          × All IsTag c.domain_tags
          × (trim_space c.submitter_id ≡ c.submitter_id)
          × (c.submitter_id ≢ [])
          × (c.state ≡ submitted)
          × (c.claim_id ≡ compute_claim_id world input)
    new_claim-formed laws input {c} h =
        let (long, short, named) = kept-bounds input ((new_claim-rules world input).1.0 (c, h)) in
        rw (new_claim-made input h) (
          long,
          short,
          trim_space_idem input.claim_text,
          normalise_domain_tags-IsTag laws input.domain_tags,
          trim_space_idem input.submitter_id,
          ne-of-== (trim_space input.submitter_id) [] named,
          refl,
          refl,
        )

    -- If the tags of an input that breaks no rule are all blank, the claim is returned with no tag
    -- at all.
    pub blank_tags_accepted :
        (input : Input T)
        → first_broken (rules world input) ≡ none
        → All IsBlank input.domain_tags
        → (c : Claim T) × (new_claim world input ≡ ok c) × (c.domain_tags ≡ [])
    unfolding new_claim
    blank_tags_accepted input kept blank =
        let v = validate_input-rules world input in
        let passed : validate_input world input ≡ ok tt = v ∙ ap report kept in
        rw passed (_, refl, normalise_domain_tags-IsBlank input.domain_tags blank)
