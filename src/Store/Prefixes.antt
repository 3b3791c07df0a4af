-- ===== src/Store/Prefixes.antt =====
-- Keys tell the parts they are made of apart (keys.go).
use pulsesyn.Prelude.{
  refl, zero, ap, ◌%◌, arith, ◌∙◌, ◌/◌, sym, suc, ◌^◌, ◌<◌, ◌≡◌, ℕ, ◌++◌, [], ◌∷◌,
}
use pulsesyn.Text.{Text, text_eq}
use pulsesyn.Store.Keys.{
  vote_prefix, prefix_vote, prefix_validation, vote_key, validation_key, idx_epoch_key, hex_digit,
  slash, hex16, hex,
}
use pulsesyn.Text.Split.{split-injective, Lacks}
use mathlib.Core.List.{append_cancel_right, append_assoc}

hex_digit-injective : (a b : ℕ) → a < 16 → b < 16 → hex_digit a ≡ hex_digit b → a ≡ b
hex_digit-injective a b ha hb e = ground arith

hex-injective :
    (width a b : ℕ) (s t : Text)
    → a < 16 ^ width
    → b < 16 ^ width
    → hex width a s ≡ hex width b t
    → (a ≡ b) × (s ≡ t)
unfolding hex
hex-injective zero a b s t ha hb e = (omega arith, e)
hex-injective (suc w) a b s t ha hb e =
    let (quotients, tails) = hex-injective w (a / 16) (b / 16) _ _ omega arith omega arith e in
    let digits : hex_digit (a % 16) ≡ hex_digit (b % 16) = cc in
    let rests : s ≡ t = cc in
    let same = hex_digit-injective (a % 16) (b % 16) omega arith omega arith digits in
    (omega arith, rests)

-- A name in a key that has no '/'.
abbrev pub IsPlain : Text → Type 0
IsPlain = Lacks 47

append_cancel : (p s t : Text) → p ++ s ≡ p ++ t → s ≡ t
append_cancel [] s t e = e
append_cancel (c ∷ p) s t e = let rest : p ++ s ≡ p ++ t = cc in append_cancel p s t rest

-- A prefix, a name, a '/' and the rest, seen from the name on.
pub parts_assoc : (p x y : Text) → (p ++ (x ++ slash)) ++ y ≡ p ++ (x ++ (47 ∷ y))
parts_assoc p x y =
    append_assoc p (x ++ slash) y ∙ ap (λ (t : Text). p ++ t) (append_assoc x slash y)

-- The keys that a prefix, a name, and a '/' start.
pub parts-injective :
    (p d d' c c' : Text)
    → IsPlain d
    → IsPlain d'
    → (p ++ (d ++ slash)) ++ c ≡ (p ++ (d' ++ slash)) ++ c'
    → (d ≡ d') × (c ≡ c')
parts-injective p d d' c c' plain plain' e =
    split-injective 47 d d' c c' plain plain'
      (append_cancel p _ _ (sym (parts_assoc p d c) ∙ e ∙ parts_assoc p d' c'))

-- Digits of a fixed width need no separator.
hex-append : (width n : ℕ) (s t : Text) → hex width n s ++ t ≡ hex width n (s ++ t)
unfolding hex
hex-append zero n s t = refl
hex-append (suc w) n s t = hex-append w (n / 16) (hex_digit (n % 16) ∷ s) t

digits-first : (n : ℕ) (y : Text) → (hex16 n ++ slash) ++ y ≡ hex 16 n (47 ∷ y)
digits-first n y = append_assoc (hex16 n) slash y ∙ hex-append 16 n [] (47 ∷ y)

pub epoch-injective :
    (n n' : ℕ) (c c' : Text)
    → n < 2 ^ 64
    → n' < 2 ^ 64
    → idx_epoch_key n c ≡ idx_epoch_key n' c'
    → (n ≡ n') × (c ≡ c')
epoch-injective n n' c c' hn hn' e =
    let tails : (hex16 n ++ slash) ++ c ≡ (hex16 n' ++ slash) ++ c' = cc in
    let (epochs, rests) =
      hex-injective 16 n n' (47 ∷ c) (47 ∷ c') hn hn'
        (sym (digits-first n c) ∙ tails ∙ digits-first n' c') in
    let ids : c ≡ c' = cc in (epochs, ids)

-- Votes of one validator under one key are for one claim.
pub vote_key-claim : (c c' v : Text) → vote_key c v ≡ vote_key c' v → c ≡ c'
vote_key-claim c c' v e = append_cancel_right c c' slash (
    append_cancel prefix_vote (c ++ slash) (c' ++ slash)
      (append_cancel_right (vote_prefix c) (vote_prefix c') v e))

pub validation_key-claim : (c c' : Text) → validation_key c ≡ validation_key c' → c ≡ c'
validation_key-claim c c' e = append_cancel prefix_validation c c' e
