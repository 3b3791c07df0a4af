-- ===== src/Verdict.antt =====
-- The verdict strings of the protocol (core/consensus/result.go). The packages pass them on as plain
-- strings; `other` stands for every string that is none of the four.
use pulsesyn.Prelude.{◌≡◌, refl, ◌↔◌, Bool, true, false, arith, Eq, ◌==◌}
use pulsesyn.Text.{Text, text_eq, codes}

pub data VerdictState : Type 0 where
  supported unsupported misleading indeterminate : VerdictState
  other : Text → VerdictState

-- string(v)
unfoldable pub verdict_text : VerdictState → Text
verdict_text supported = codes "SUPPORTED"
verdict_text unsupported = codes "UNSUPPORTED"
verdict_text misleading = codes "MISLEADING"
verdict_text indeterminate = codes "INDETERMINATE"
verdict_text (other s) = s

-- One of the four.
abbrev pub is_recognised : VerdictState → Bool
is_recognised (other s) = false
is_recognised v = true

unfoldable pub verdict_beq : VerdictState → VerdictState → Bool
verdict_beq supported supported = true
verdict_beq unsupported unsupported = true
verdict_beq misleading misleading = true
verdict_beq indeterminate indeterminate = true
verdict_beq (other s) (other t) = s == t
verdict_beq _ _ = false

pub verdict_beq_iff : (v w : VerdictState) → (verdict_beq v w ≡ true) ↔ (v ≡ w)
unfolding verdict_beq
verdict_beq_iff supported supported = (λ _. refl, λ _. refl)
verdict_beq_iff unsupported unsupported = (λ _. refl, λ _. refl)
verdict_beq_iff misleading misleading = (λ _. refl, λ _. refl)
verdict_beq_iff indeterminate indeterminate = (λ _. refl, λ _. refl)
verdict_beq_iff (other s) (other t) = ground (arith, text_eq.beq_iff s t)
verdict_beq_iff _ _ = (λ h. cc, λ h. cc)

instance abbrev pub verdict_eq : Eq VerdictState
verdict_eq = record { beq = verdict_beq; beq_iff = verdict_beq_iff }
