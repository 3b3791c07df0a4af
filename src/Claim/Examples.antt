-- ===== src/Claim/Examples.antt =====
-- The theorems on core/claim at a concrete submission, and tests.
use pulsesyn.Prelude.{
  first_broken, ◌↔◌, some, ◌≢◌, none, refl, ok, ◌∷◌, ◌++◌, true, ◌+◌, err, nat_beq, All, ◌≡◌,
  length, [], ◌≤◌, ℕ,
}
use pulsesyn.Text.{ascii-IsCaseTable, codes, normalise, trim_space, ascii, text_eq}
use pulsesyn.Claim.Lifecycle.{is_terminal, transition}
use pulsesyn.Claim.Schema.{
  normalise_domain_tags, compute_claim_id, submitted, validate_content_url, invalid_transition,
  time_reference_empty, queued, national, validate_geographic_scope, validate_claim_type, factual,
  finalized, validate_input, new_claim, World, Input, Claim, LifecycleState, active, ClaimError,
}
use pulsesyn.Claim.Accepts.{new_claim-rules, rules}
use pulsesyn.Claim.Runs.{terminal_refuses, stay, run_bounded, step, Run}
use pulsesyn.Claim.Formed.{new_claim-formed, blank_tags_accepted, IsTag, IsBlank}

-- A clock of days, one reachable page, and the identity for a digest.
abbrev desk : World ℕ
desk = record {
  is_zero = λ t. nat_beq t 0;
  format = λ t. t ∷ [];
  parse_request_uri = λ url. some (codes "https", codes "example.org");
  head_status = λ url. some 200;
  sha256_hex = λ text. text;
}

abbrev submission : Input ℕ
submission = record {
  claim_text = codes " Parliament passed bill 7 in May. ";
  claim_type = factual;
  domain_tags = codes " Politics" ∷ codes " " ∷ [];
  geographic_scope = national;
  time_reference = 12;
  content_hash = codes "AB";
  content_url = codes "https://example.org/a";
  submitter_id = codes "s1 ";
  submission_epoch = 0;
}

abbrev untagged : Input ℕ
untagged = record submission { domain_tags = codes " " ∷ [] }

abbrev undated : Input ℕ
undated = record submission { time_reference = 0; submitter_id = [] }

abbrev filed : Claim ℕ
filed = record {
  claim_id = codes "Parliament passed bill 7 in May." ++ (codes "ab" ++ (codes "s1" ++ (12 ∷ [])));
  claim_text = codes "Parliament passed bill 7 in May.";
  claim_type = factual;
  domain_tags = codes "politics" ∷ [];
  geographic_scope = national;
  time_reference = 12;
  content_hash = codes "ab";
  content_url = codes "https://example.org/a";
  submitter_id = codes "s1";
  submission_epoch = 0;
  state = submitted;
}

submission-filed : new_claim desk submission ≡ ok filed
unfolding new_claim validate_input validate_claim_type validate_geographic_scope
    validate_content_url normalise_domain_tags compute_claim_id trim_space normalise
submission-filed = refl

new_claim-rules_example :
    ((e : ClaimError)
      → (new_claim desk undated ≡ err e) ↔ (first_broken (rules desk undated) ≡ some e))
    × (((c : Claim ℕ) × (new_claim desk undated ≡ ok c))
        ↔ (first_broken (rules desk undated) ≡ none))
new_claim-rules_example = new_claim-rules desk undated

-- The time comes before the submitter.
undated_broken : first_broken (rules desk undated) ≡ some time_reference_empty
unfolding trim_space
undated_broken = refl

new_claim-formed_example :
    (20 ≤ length filed.claim_text)
    × (length filed.claim_text ≤ 500)
    × (trim_space filed.claim_text ≡ filed.claim_text)
    × All IsTag filed.domain_tags
    × (trim_space filed.submitter_id ≡ filed.submitter_id)
    × (filed.submitter_id ≢ [])
    × (filed.state ≡ submitted)
    × (filed.claim_id ≡ compute_claim_id desk submission)
new_claim-formed_example = new_claim-formed desk ascii-IsCaseTable submission submission-filed

untagged_kept : first_broken (rules desk untagged) ≡ none
unfolding trim_space
untagged_kept = refl

untagged-IsBlank : All IsBlank untagged.domain_tags
unfolding normalise trim_space
untagged-IsBlank = (refl, tt)

blank_tags_accepted_example :
    (c : Claim ℕ) × (new_claim desk untagged ≡ ok c) × (c.domain_tags ≡ [])
blank_tags_accepted_example = blank_tags_accepted desk untagged untagged_kept untagged-IsBlank

abbrev in_state : LifecycleState → Claim ℕ
in_state s = record filed { state = s }

queueing : Run filed (in_state active) 2
unfolding transition
queueing =
    step filed (in_state queued) _ queued 1 refl
      (step (in_state queued) (in_state active) _ active 0 refl (stay (in_state active)))

run_bounded_example : (in_state active ≡ record filed { state = active }) × (2 + 4 ≤ 6) × (2 ≤ 6)
run_bounded_example = run_bounded filed (in_state active) 2 queueing

terminal_refuses_example : (is_terminal (in_state finalized) ≡ true) ↔ (
    (next : LifecycleState)
    → transition (in_state finalized) next ≡ err (invalid_transition finalized next))
terminal_refuses_example = terminal_refuses (in_state finalized) refl
