-- ===== src/Consensus/Votes.antt =====
-- The votes, the result and the errors of core/consensus, and the validation of a vote.
use pulsesyn.Prelude.{ℕ, ℤ, Bool, ◌||◌, [], Result, fail_if, ◌>>◌, ◌==◌, not}
use pulsesyn.Text.{Text, text_eq}
use pulsesyn.Verdict.{VerdictState, is_recognised}
use pulsesyn.Float.{Float64, ◌<?◌, nought, one}

pub record Vote (F : Type 0) : Type 0 where
  pub validator_id : Text
  pub verdict : VerdictState
  pub confidence : F
  pub domain_reputation : F
  pub bias_coefficient : F
  pub validator_set_size : ℤ

pub record VerdictBreakdown (F : Type 0) : Type 0 where
  pub supported : F
  pub unsupported : F
  pub misleading : F
  pub indeterminate : F
  pub total_mass : F

pub record ConsensusResult (F : Type 0) : Type 0 where
  pub verdict : VerdictState
  pub confidence_score : F
  pub breakdown : VerdictBreakdown F
  pub participation_rate : F
  pub validator_count : ℕ

-- What is wrong with a vote; each is an ErrInvalidVote.
pub data InvalidVote : Type 0 where
  id_empty confidence_range reputation_range bias_range verdict_unrecognised : InvalidVote

-- ErrNoVotes, and ErrInvalidVote with the index of the vote.
pub data ConsensusError : Type 0 where
  no_votes : ConsensusError
  invalid_vote : ℕ → InvalidVote → ConsensusError

unfoldable pub validate_verdict_state : VerdictState → Result InvalidVote (Unit {0})
validate_verdict_state v = fail_if (not (is_recognised v)) verdict_unrecognised

module _ {F : Type 0} ⦃fl : Float64 F⦄ where
  -- `x < 0.0 || x > 1.0`
  abbrev pub out_of_range : F → Bool
  out_of_range x = (x <? nought) || (one <? x)

  unfoldable pub validate_vote : Vote F → Result InvalidVote (Unit {0})
  unfolding validate_verdict_state
  validate_vote v = do
    fail_if (v.validator_id == []) id_empty
    fail_if (out_of_range v.confidence) confidence_range
    fail_if (out_of_range v.domain_reputation) reputation_range
    fail_if (out_of_range v.bias_coefficient) bias_range
    validate_verdict_state v.verdict
