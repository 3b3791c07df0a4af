-- ===== src/Store/Scans.antt =====
-- The identifiers that a scan of an index finds.
use pulsesyn.Prelude.{
  ne-of-==, ==-of-ne, ◌&&◌, inr, nat_eq, not, eq-of-==, starts_with-append, ◌||◌, none, ap, sym,
  refl, ◌∙◌, ◌≢◌, inl, arith, ==_refl, Bool-cases, ◌↔◌, eq-append_of_starts, true, ◌++◌, length,
  has_no_repeats, drop, ◌≡◌, starts_with, map, contains, ◌==◌, All, List, [], ◌∷◌,
}
use pulsesyn.Text.{Text, text_eq}
use pulsesyn.Store.Badger.{IsBadger, Engine}
use mathlib.Core.List.{append_cancel_left}

abbrev pub ids_of : {I : Type 0} → Text → List (Text × I) → List Text
ids_of p = map (λ e. drop (length p) e.0)

abbrev keys_of : {I : Type 0} → List (Text × I) → List Text
keys_of = map (λ e. e.0)

==-append : (p d c : Text) → (d == c) ≡ ((p ++ d) == (p ++ c))
==-append p d c = elim (Bool-cases (d == c)) [
  | inl same ↦ same ∙ sym (rw (eq-of-== d c same) (==_refl (p ++ c)))
  | inr other ↦
      other
      ∙ sym (==-of-ne (p ++ d) (p ++ c) (λ e. ne-of-== d c other (append_cancel_left p d c e)))
]

module _ {I : Type 0} (p : Text) where
  contains-ids :
      (c : Text) (es : List (Text × I))
      → All (λ e. starts_with p e.0 ≡ true) es
      → contains c (ids_of p es) ≡ contains (p ++ c) (keys_of es)
  contains-ids c [] h = refl
  contains-ids c ((k, i) ∷ es) (h, hs) =
      let whole = eq-append_of_starts p k h in
      let heads =
        ==-append p (drop (length p) k) c ∙ ap (λ (t : Text). t == (p ++ c)) (sym whole) in
      let rest = contains-ids c es hs in λ j. heads j || rest j

  no_repeats-ids :
      (es : List (Text × I))
      → All (λ e. starts_with p e.0 ≡ true) es
      → has_no_repeats (ids_of p es) ≡ has_no_repeats (keys_of es)
  no_repeats-ids [] h = refl
  no_repeats-ids ((k, i) ∷ es) (h, hs) =
      let whole = eq-append_of_starts p k h in
      let found =
        contains-ids (drop (length p) k) es hs
        ∙ ap (λ (t : Text). contains t (keys_of es)) (sym whole) in
      let rest = no_repeats-ids es hs in λ j. not (found j) && rest j

-- What holds of every element that a list contains.
pub All-of_contains :
    (P : Text → Type 0) (xs : List Text) → ((c : Text) → contains c xs ≡ true → P c) → All P xs
All-of_contains P [] h = tt
All-of_contains P (x ∷ xs) h =
    (h x (rw (==_refl x) refl), All-of_contains P xs (λ c there. h c ground arith))

module _ {badger : Engine} (laws : IsBadger badger) where
  found :
      (t : badger.State) (p : Text)
      → All (λ e. starts_with p e.0 ≡ true) (badger.scan t p)
      → (c : Text) → (contains c (ids_of p (badger.scan t p)) ≡ true) ↔ (laws.at t (p ++ c) ≢ none)
  found t p starts c =
      rw (contains-ids p c (badger.scan t p) starts)
        (laws.scan_keys t p (p ++ c) (starts_with-append p c))

  -- A scan's identifiers: none twice, and each that stands after the prefix in a key that is there.
  pub scan-ids :
      (t : badger.State) (p : Text)
      → (has_no_repeats (ids_of p (badger.scan t p)) ≡ true)
        × ((c : Text)
            → (contains c (ids_of p (badger.scan t p)) ≡ true) ↔ (laws.at t (p ++ c) ≢ none))
  scan-ids t p =
      let starts = laws.scan_prefix t p in
      (no_repeats-ids p (badger.scan t p) starts ∙ laws.scan_once t p, found t p starts)
