-- ===== src/Claim/Lifecycle.antt =====
-- The lifecycle of a claim (lifecycle.go).
use pulsesyn.Prelude.{false, ◌==◌, true, ok, if◌then◌else◌, [], err, ◌∷◌, Result, List, Bool}
use pulsesyn.Text.{text_eq}
use pulsesyn.Claim.Schema.{
  submitted, unknown_state, disputed, provisional, computing, active, invalid_transition,
  ClaimError, queued, finalized, LifecycleState, Claim,
}

unfoldable pub state_beq : LifecycleState → LifecycleState → Bool
state_beq submitted submitted = true
state_beq queued queued = true
state_beq active active = true
state_beq computing computing = true
state_beq provisional provisional = true
state_beq disputed disputed = true
state_beq finalized finalized = true
state_beq (unknown_state s) (unknown_state t) = s == t
state_beq _ _ = false

-- No entry is the empty slice.
abbrev pub valid_transitions : LifecycleState → List LifecycleState
valid_transitions submitted = queued ∷ []
valid_transitions queued = active ∷ []
valid_transitions active = computing ∷ []
valid_transitions computing = provisional ∷ []
valid_transitions provisional = finalized ∷ disputed ∷ []
valid_transitions disputed = finalized ∷ []
valid_transitions finalized = []
valid_transitions (unknown_state s) = []

module _ {T : Type 0} where
  -- The loop over the allowed states.
  abbrev pub first_allowed :
      Claim T → LifecycleState → List LifecycleState → Result ClaimError (Claim T)
  first_allowed c next [] = err (invalid_transition c.state next)
  first_allowed c next (s ∷ allowed) =
      if state_beq s next then ok (record c { state = next }) else first_allowed c next allowed

  unfoldable pub transition : Claim T → LifecycleState → Result ClaimError (Claim T)
  unfolding state_beq
  transition c next = first_allowed c next (valid_transitions c.state)

  unfoldable pub is_terminal : Claim T → Bool
  unfolding state_beq
  is_terminal c = state_beq c.state finalized
