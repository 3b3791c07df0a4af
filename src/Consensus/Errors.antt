-- ===== src/Consensus/Errors.antt =====
-- Which votes ComputeConsensus rejects, and with which error.
use pulsesyn.Prelude.{
  take, ℕ, zero, suc, ◌+◌, ℤ, ◌≡◌, refl, sym, ◌↔◌, ◌≢◌, ◌⊎◌, ◌∙◌, List, [], ◌∷◌, ok, err, some,
  arith, get_elem?, All, Result-cases, inl, inr,
}
use mathlib.Core.Option.{some-injective}
use pulsesyn.Float.{Float64}
use pulsesyn.Consensus.Votes.{
  ConsensusResult, Vote, InvalidVote, no_votes, invalid_vote, validate_vote,
}
use pulsesyn.Consensus.Compute.{validate_votes, compute_consensus, decide_verdict, participation}

module _ {F : Type 0} ⦃fl : Float64 F⦄ where
  abbrev pub IsAccepted : Vote F → Type 0
  IsAccepted v = validate_vote v ≡ ok tt

  -- The vote at index `i` is the first that is not accepted.
  pub record IsFirstInvalid (votes : List (Vote F)) (i : ℕ) (reason : InvalidVote) : Type 0 where
    pub vote : Vote F
    pub at : get_elem? votes i ≡ some vote
    pub rejected : validate_vote vote ≡ err reason
    pub before : All IsAccepted (take i votes)

  vote_cases :
      (v : Vote F) → IsAccepted v ⊎ ((reason : InvalidVote) × (validate_vote v ≡ err reason))
  vote_cases v = elim (Result-cases (validate_vote v)) [
    | inl (u, e) ↦ inl e
    | inr (reason, e) ↦ inr (reason, e)
  ]

  module _ (k : ℕ) (v : Vote F) (votes : List (Vote F)) where
    validate_votes-accepted :
        IsAccepted v → validate_votes k (v ∷ votes) ≡ validate_votes (k + 1) votes
    unfolding validate_votes
    validate_votes-accepted h = rw (h, validate_votes)

    validate_votes-rejected :
        (reason : InvalidVote)
        → validate_vote v ≡ err reason
        → validate_votes k (v ∷ votes) ≡ err (invalid_vote k reason)
    unfolding validate_votes
    validate_votes-rejected reason h = rw (h, validate_votes)

  validate_votes_ok :
      (k : ℕ) (votes : List (Vote F)) → All IsAccepted votes → validate_votes k votes ≡ ok tt
  unfolding validate_votes
  validate_votes_ok k [] h = refl
  validate_votes_ok k (v ∷ votes) (h, hs) =
      validate_votes-accepted k v votes h ∙ validate_votes_ok (k + 1) votes hs

  pub All-of_validate_votes :
      (k : ℕ) (votes : List (Vote F)) → validate_votes k votes ≡ ok tt → All IsAccepted votes
  All-of_validate_votes k [] h = tt
  All-of_validate_votes k (v ∷ votes) h = elim (vote_cases v) [
    | inl e ↦
        (e, All-of_validate_votes (k + 1) votes (sym (validate_votes-accepted k v votes e) ∙ h))
    | inr (reason, e) ↦ cc (validate_votes-rejected k v votes reason e)
  ]

  IsFirstInvalid-cons :
      (v : Vote F) (votes : List (Vote F)) (j : ℕ) (reason : InvalidVote)
      → IsAccepted v
      → IsFirstInvalid votes j reason
      → IsFirstInvalid (v ∷ votes) (suc j) reason
  IsFirstInvalid-cons v votes j reason e f = record {
    vote = f.vote;
    at = f.at;
    rejected = f.rejected;
    before = (e, f.before);
  }

  -- The reported index is that of the first vote that is rejected, counted from `k`.
  validate_votes_err :
      (k : ℕ) (votes : List (Vote F)) (i : ℕ) (reason : InvalidVote)
      → validate_votes k votes ≡ err (invalid_vote i reason)
      → (j : ℕ) × (i ≡ k + j) × IsFirstInvalid votes j reason
  unfolding validate_votes
  validate_votes_err k [] i reason h = cc
  validate_votes_err k (v ∷ votes) i reason h = elim (vote_cases v) [
    | inl e ↦
        let (j, at, first) =
          validate_votes_err (k + 1) votes i reason
            (sym (validate_votes-accepted k v votes e) ∙ h) in
        (suc j, omega arith, IsFirstInvalid-cons v votes j reason e first)
    | inr (found, e) ↦ (
      0,
      ground (arith, validate_votes-rejected k v votes found e),
      record {
        vote = v;
        at = refl;
        rejected = ground (arith, validate_votes-rejected k v votes found e);
        before = tt;
      },
    )
  ]

  validate_votes_of_IsFirstInvalid :
      (k : ℕ) (votes : List (Vote F)) (j : ℕ) (reason : InvalidVote)
      → IsFirstInvalid votes j reason
      → validate_votes k votes ≡ err (invalid_vote (k + j) reason)
  validate_votes_of_IsFirstInvalid k [] j reason f = cc (f.at)
  validate_votes_of_IsFirstInvalid k (v ∷ votes) zero reason f =
      let same : v ≡ f.vote = some-injective _ _ f.at in
      ground (arith, validate_votes-rejected k v votes reason (rw same f.rejected))
  validate_votes_of_IsFirstInvalid k (v ∷ votes) (suc j) reason f = ground (
    arith,
    validate_votes-accepted k v votes f.before.0,
    validate_votes_of_IsFirstInvalid (k + 1) votes j reason
        (record { vote = f.vote; at = f.at; rejected = f.rejected; before = f.before.1 }),
  )

  validate_votes-ne-no_votes :
      (k : ℕ) (votes : List (Vote F)) → validate_votes k votes ≢ err no_votes
  unfolding validate_votes
  validate_votes-ne-no_votes k [] h = cc
  validate_votes-ne-no_votes k (v ∷ votes) h = elim (vote_cases v) [
    | inl e ↦
        validate_votes-ne-no_votes (k + 1) votes (sym (validate_votes-accepted k v votes e) ∙ h)
    | inr (reason, e) ↦ cc (validate_votes-rejected k v votes reason e)
  ]

  index_of_err :
      (votes : List (Vote F)) (i : ℕ) (reason : InvalidVote)
      → validate_votes 0 votes ≡ err (invalid_vote i reason)
      → IsFirstInvalid votes i reason
  index_of_err votes i reason h =
      let (j, at, first) = validate_votes_err 0 votes i reason h in
      let same : i ≡ j = omega arith in rw same first

  -- Accepted votes, if there are any, have a result.
  pub compute_consensus_ok :
      (votes : List (Vote F)) (size : ℤ)
      → votes ≢ []
      → All IsAccepted votes
      → compute_consensus votes size ≡ ok (decide_verdict votes (participation votes size))
  unfolding compute_consensus
  compute_consensus_ok [] size h accepted = absurd (h refl)
  compute_consensus_ok (v ∷ rest) size h accepted = rw (validate_votes_ok 0 (v ∷ rest) accepted)

  -- A result comes from accepted votes, and is what the decision makes of them.
  pub compute_consensus-eq-ok :
      (votes : List (Vote F)) (size : ℤ) {r : ConsensusResult F}
      → compute_consensus votes size ≡ ok r
      → All IsAccepted votes × (votes ≢ []) × (r ≡ decide_verdict votes (participation votes size))
  unfolding compute_consensus
  compute_consensus-eq-ok [] size h = cc
  compute_consensus-eq-ok (v ∷ votes) size h =
      (All-of_validate_votes 0 (v ∷ votes) (ground arith), λ e. cc, ground arith)

  -- ComputeConsensus reports ErrNoVotes exactly when there are no votes; it reports ErrInvalidVote
  -- with an index and a reason exactly when the vote at that index is rejected for that reason and
  -- every vote before it is accepted; and it returns a result exactly when there are votes and all of
  -- them are accepted.
  pub compute_consensus_errors :
      (votes : List (Vote F)) (size : ℤ)
      → ((compute_consensus votes size ≡ err no_votes) ↔ (votes ≡ []))
        × ((i : ℕ) (reason : InvalidVote)
            → (compute_consensus votes size ≡ err (invalid_vote i reason))
              ↔ IsFirstInvalid votes i reason)
        × (((r : ConsensusResult F) × (compute_consensus votes size ≡ ok r))
            ↔ ((votes ≢ []) × All IsAccepted votes))
  unfolding compute_consensus
  compute_consensus_errors [] size = (
    (λ _. refl, λ _. refl),
    λ i reason. (λ h. cc, λ f. cc f.at),
    (λ h. cc h.1, λ h. absurd (h.0 refl)),
  )
  compute_consensus_errors (v ∷ rest) size = (
    (λ h. absurd (validate_votes-ne-no_votes 0 (v ∷ rest) (ground arith)), λ h. cc),
    λ i reason. (
      λ h. index_of_err (v ∷ rest) i reason (ground arith),
      λ f. rw (validate_votes_of_IsFirstInvalid 0 (v ∷ rest) i reason f) (ground arith),
    ),
    (
      λ h.
          let (accepted, some_votes, _) = compute_consensus-eq-ok (v ∷ rest) size h.1 in
          (some_votes, accepted),
      λ h. (
        decide_verdict (v ∷ rest) (participation (v ∷ rest) size),
        compute_consensus_ok (v ∷ rest) size h.0 h.1,
      ),
    ),
  )
