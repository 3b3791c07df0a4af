-- ===== src/Claim/Runs.antt =====
-- Runs of a claim through its lifecycle (lifecycle.go).
use pulsesyn.Text.{text_eq}
use pulsesyn.Prelude.{
  [], Result, inr, ◌∙◌, ◌≢◌, ap, refl, inl, Bool-cases, ◌∷◌, err, false, ◌↔◌, arith, List, true,
  Bool, All, ◌≤◌, ◌<◌, ◌+◌, ok, ◌≡◌, ℕ,
}
use pulsesyn.Claim.Lifecycle.{is_terminal, first_allowed, state_beq, valid_transitions, transition}
use pulsesyn.Claim.Schema.{
  ClaimError, invalid_transition, finalized, disputed, provisional, computing, active, queued,
  submitted, unknown_state, LifecycleState, Claim,
}
use mathlib.Core.Path.{subst}
use mathlib.Core.Bool.{false≢true}

-- The longest way to FINALIZED, and 0 where there is none.
abbrev pub remaining : LifecycleState → ℕ
remaining submitted = 6
remaining queued = 5
remaining active = 4
remaining computing = 3
remaining provisional = 2
remaining disputed = 1
remaining finalized = 0
remaining (unknown_state s) = 0

state_beq_iff : (s t : LifecycleState) → (state_beq s t ≡ true) ↔ (s ≡ t)
unfolding state_beq
state_beq_iff submitted submitted = (λ _. refl, λ _. refl)
state_beq_iff queued queued = (λ _. refl, λ _. refl)
state_beq_iff active active = (λ _. refl, λ _. refl)
state_beq_iff computing computing = (λ _. refl, λ _. refl)
state_beq_iff provisional provisional = (λ _. refl, λ _. refl)
state_beq_iff disputed disputed = (λ _. refl, λ _. refl)
state_beq_iff finalized finalized = (λ _. refl, λ _. refl)
state_beq_iff (unknown_state s) (unknown_state t) = ground (arith, text_eq.beq_iff s t)
state_beq_iff _ _ = (λ h. cc, λ h. cc)

-- Every allowed state is nearer to the end.
allowed_nearer :
    (s : LifecycleState) → All (λ next. remaining next < remaining s) (valid_transitions s)
allowed_nearer submitted = ground arith
allowed_nearer queued = ground arith
allowed_nearer active = ground arith
allowed_nearer computing = ground arith
allowed_nearer provisional = ground arith
allowed_nearer disputed = ground arith
allowed_nearer finalized = tt
allowed_nearer (unknown_state s) = tt

-- One of the seven states.
abbrev pub is_known : LifecycleState → Bool
is_known (unknown_state s) = false
is_known _ = true

remaining-le : (s : LifecycleState) → remaining s ≤ 6
remaining-le submitted = ground arith
remaining-le queued = ground arith
remaining-le active = ground arith
remaining-le computing = ground arith
remaining-le provisional = ground arith
remaining-le disputed = ground arith
remaining-le finalized = ground arith
remaining-le (unknown_state s) = ground arith

module _ {T : Type 0} where
  -- `Run c c' n`: `n` transitions in a row lead from `c` to `c'`.
  pub data Run : Claim T → Claim T → ℕ → Type 0 where
    stay : (c : Claim T) → Run c c 0
    step :
        (c c' c'' : Claim T) (next : LifecycleState) (n : ℕ)
        → transition c next ≡ ok c'
        → Run c' c'' n
        → Run c c'' (n + 1)

  ok≢err : {c : Claim T} {e : ClaimError} → ◌≢◌ {A = Result ClaimError (Claim T)} (ok c) (err e)
  ok≢err h = cc

  first_allowed_sound :
      (P : LifecycleState → Type 0) (c : Claim T) (next : LifecycleState)
      (allowed : List LifecycleState) {c' : Claim T}
      → All P allowed
      → first_allowed c next allowed ≡ ok c'
      → (c' ≡ record c { state = next }) × P next
  first_allowed_sound P c next [] ps h = cc
  first_allowed_sound P c next (s ∷ allowed) {c' = c'} (p, ps) h =
      elim (Bool-cases (state_beq s next)) [
        | inl same ↦
            let e : ok (record c { state = next }) ≡ ok c' = rw same at h in
            (cc, subst P ((state_beq_iff s next).0 same) p)
        | inr other ↦ first_allowed_sound P c next allowed ps (rw other at h)
      ]

  transition_progress :
      (c : Claim T) (next : LifecycleState) {c' : Claim T}
      → transition c next ≡ ok c'
      → (c' ≡ record c { state = next }) × (remaining next < remaining c.state)
  unfolding transition
  transition_progress c next h =
      first_allowed_sound (λ next. remaining next < remaining c.state) c next
        (valid_transitions c.state) (allowed_nearer c.state) h

  -- A run changes nothing but the state, and each of its transitions leads nearer to FINALIZED: it has at most six,
  -- and none from FINALIZED.
  pub run_bounded :
      (c c' : Claim T) (n : ℕ)
      → Run c c' n
      → (c' ≡ record c { state = c'.state })
        × (n + remaining c'.state ≤ remaining c.state)
        × (n ≤ 6)
  run_bounded c _ _ (stay _) = (refl, omega arith, omega arith)
  run_bounded c c'' _ (step _ c' _ next n h run) =
      let (e, nearer) = transition_progress c next h in
      let (later, bound, _) = run_bounded c' c'' n run in
      let same : remaining c'.state ≡ remaining next = ap (λ (x : Claim T). remaining x.state) e in
      let most = remaining-le c.state in
      (later ∙ ap (λ (x : Claim T). record x { state = c''.state }) e, omega arith, omega arith)

  terminal_at :
      (c : Claim T) (s : LifecycleState)
      → is_known s ≡ true
      → (is_terminal (record c { state = s }) ≡ true) ↔ (
          (next : LifecycleState)
          → transition (record c { state = s }) next ≡ err (invalid_transition s next))
  unfolding transition is_terminal
  terminal_at c submitted known = (λ h. absurd (false≢true h), λ h. absurd (ok≢err (h queued)))
  terminal_at c queued known = (λ h. absurd (false≢true h), λ h. absurd (ok≢err (h active)))
  terminal_at c active known = (λ h. absurd (false≢true h), λ h. absurd (ok≢err (h computing)))
  terminal_at c computing known = (λ h. absurd (false≢true h), λ h. absurd (ok≢err (h provisional)))
  terminal_at c provisional known = (λ h. absurd (false≢true h), λ h. absurd (ok≢err (h disputed)))
  terminal_at c disputed known = (λ h. absurd (false≢true h), λ h. absurd (ok≢err (h finalized)))
  terminal_at c finalized known = (λ _ next. refl, λ _. refl)
  terminal_at c (unknown_state s) known = absurd (false≢true known)

  -- A claim in one of the seven states is terminal exactly if every transition is refused, with the
  -- error of an invalid transition.
  pub terminal_refuses :
      (c : Claim T)
      → is_known c.state ≡ true
      → (is_terminal c ≡ true)
        ↔ ((next : LifecycleState) → transition c next ≡ err (invalid_transition c.state next))
  terminal_refuses c known = terminal_at c c.state known
