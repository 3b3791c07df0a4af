-- ===== src/Text/Trim.antt =====
-- Trimming and lowering twice is the same as once.
use mathlib.Core.List.{map-map}
use mathlib.Core.Path.{fun_ext}
use pulsesyn.Prelude.{ℕ, ◌==◌, ◌≡◌, refl, ap, ◌∙◌, false, [], ◌∷◌, map, arith, Bool-cases, inl, inr}
use pulsesyn.Text.Normal.{
  Text, text_eq, CaseTable, IsCaseTable, is_space, trim_left, trim_right, trim_space, lower_rune,
  normalise, keep,
}

trim_right-keep : (c : ℕ) (r : Text) → trim_right r ≡ r → trim_right (keep c r) ≡ keep c r
unfolding trim_right
trim_right-keep c [] h = ground arith
trim_right-keep c (d ∷ r) h = ap (keep c) h

trim_right_idem : (s : Text) → trim_right (trim_right s) ≡ trim_right s
unfolding trim_right
trim_right_idem [] = refl
trim_right_idem (c ∷ s) = trim_right-keep c (trim_right s) (trim_right_idem s)

-- The text does not begin with white space.
abbrev IsSolid : Text → Type 0
IsSolid [] = Unit {0}
IsSolid (c ∷ s) = is_space c ≡ false

trim_left-IsSolid : (s : Text) → IsSolid (trim_left s)
unfolding trim_left
trim_left-IsSolid [] = tt
trim_left-IsSolid (c ∷ s) = elim (Bool-cases (is_space c)) [
  | inl e ↦ rw e (trim_left-IsSolid s)
  | inr e ↦ rw e e
]

trim_left_of_IsSolid : (s : Text) → IsSolid s → trim_left s ≡ s
unfolding trim_left
trim_left_of_IsSolid [] h = refl
trim_left_of_IsSolid (c ∷ s) h = rw h

keep-IsSolid : (c : ℕ) (r : Text) → is_space c ≡ false → IsSolid (keep c r)
keep-IsSolid c [] h = rw h h
keep-IsSolid c (d ∷ r) h = h

trim_right-IsSolid : (s : Text) → IsSolid s → IsSolid (trim_right s)
unfolding trim_right
trim_right-IsSolid [] h = h
trim_right-IsSolid (c ∷ s) h = keep-IsSolid c (trim_right s) h

pub trim_space_idem : (s : Text) → trim_space (trim_space s) ≡ trim_space s
unfolding trim_space
trim_space_idem s =
    ap trim_right (trim_left_of_IsSolid _ (trim_right-IsSolid _ (trim_left-IsSolid s)))
    ∙ trim_right_idem (trim_left s)

keep-not-empty : (c : ℕ) (r : Text) → is_space c ≡ false → (keep c r == []) ≡ false
keep-not-empty c [] h = rw h refl
keep-not-empty c (d ∷ r) h = refl

-- A text that begins with another character is not blank.
pub solid-not-blank : (c : ℕ) (s : Text) → is_space c ≡ false → (trim_space (c ∷ s) == []) ≡ false
unfolding trim_space trim_left trim_right
solid-not-blank c s h = rw h (keep-not-empty c (trim_right s) h)

module _ ⦃u : CaseTable⦄ (laws : IsCaseTable u) where
  open laws use {lower_idem, lower_space}

  trim_left-map : (s : Text) → trim_left (map (lower_rune u) s) ≡ map (lower_rune u) (trim_left s)
  unfolding trim_left
  trim_left-map [] = refl
  trim_left-map (c ∷ s) = elim (Bool-cases (is_space c)) [
    | inl e ↦ rw (lower_space c, e, trim_left-map s)
    | inr e ↦ rw (lower_space c, e)
  ]

  keep-map :
      (c : ℕ) (r : Text)
      → keep (lower_rune u c) (map (lower_rune u) r) ≡ map (lower_rune u) (keep c r)
  keep-map c [] = elim (Bool-cases (is_space c)) [
    | inl e ↦ rw (lower_space c, e)
    | inr e ↦ rw (lower_space c, e)
  ]
  keep-map c (d ∷ r) = refl

  trim_right-map :
      (s : Text) → trim_right (map (lower_rune u) s) ≡ map (lower_rune u) (trim_right s)
  unfolding trim_right
  trim_right-map [] = refl
  trim_right-map (c ∷ s) = ap (keep (lower_rune u c)) (trim_right-map s) ∙ keep-map c (trim_right s)

  pub trim_space-map :
      (s : Text) → trim_space (map (lower_rune u) s) ≡ map (lower_rune u) (trim_space s)
  unfolding trim_space
  trim_space-map s = ap trim_right (trim_left-map s) ∙ trim_right-map (trim_left s)

  map_lower_idem : (s : Text) → map (lower_rune u) (map (lower_rune u) s) ≡ map (lower_rune u) s
  map_lower_idem s =
      map-map (lower_rune u) (lower_rune u) s ∙ ap (λ f. map f s) (fun_ext lower_idem)

  pub normalise_idem : (s : Text) → normalise (normalise s) ≡ normalise s
  unfolding normalise
  normalise_idem s =
      ap (map (lower_rune u))
        (trim_space-map (trim_space s) ∙ ap (map (lower_rune u)) (trim_space_idem s))
      ∙ map_lower_idem (trim_space s)

  pub normalise-trim_space : (s : Text) → normalise (trim_space s) ≡ normalise s
  unfolding normalise
  normalise-trim_space s = ap (map (lower_rune u)) (trim_space_idem s)

  pub trim_space-normalise : (s : Text) → trim_space (normalise s) ≡ normalise s
  unfolding normalise
  trim_space-normalise s =
      trim_space-map (trim_space s) ∙ ap (map (lower_rune u)) (trim_space_idem s)
