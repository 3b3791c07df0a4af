-- ===== src/Text/Split.antt =====
-- Two texts that are joined by a separator which the first does not have.
use pulsesyn.Prelude.{refl, nat_eq, false, arith, ◌==◌, ◌≡◌, ◌++◌, All, ℕ, [], ◌∷◌}
use pulsesyn.Text.Normal.{Text}

abbrev pub Lacks : ℕ → Text → Type 0
Lacks sep s = All (λ c. (c == sep) ≡ false) s

pub split-injective :
    (sep : ℕ) (s s' t t' : Text)
    → Lacks sep s
    → Lacks sep s'
    → s ++ (sep ∷ t) ≡ s' ++ (sep ∷ t')
    → (s ≡ s') × (t ≡ t')
split-injective sep [] [] t t' h h' e = (refl, cc)
split-injective sep [] (c ∷ s') t t' h (h', _) e = ground arith
split-injective sep (c ∷ s) [] t t' (h, _) h' e = ground arith
split-injective sep (c ∷ s) (c' ∷ s') t t' (_, h) (_, h') e =
    let tails : s ++ (sep ∷ t) ≡ s' ++ (sep ∷ t') = cc in
    let (firsts, rests) = split-injective sep s s' t t' h h' tails in (cc, rests)
