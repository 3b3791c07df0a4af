-- ===== src/Store/Memory.antt =====
-- A database in memory, as an association list: it does not fail, and meets the laws of Badger.
use pulsesyn.Prelude.{
  eq-of-==, inr, inl, ==_refl, Bool-cases, nat_eq, [], ◌∷◌, ◌∙◌, ok-injective, sym, ap, refl, arith,
  none, ◌≢◌, ◌==◌, some, ◌↔◌, false, if◌then◌else◌, true, ◌≡◌, ok, starts_with, Bool, map, Option,
  All, has_no_repeats, contains, List,
}
use pulsesyn.Text.{Text, text_eq}
use pulsesyn.Store.Badger.{IsBadger, Engine}
use pulsesyn.Dict.{lookup-insert, insert, lookup}
use mathlib.Core.Path.{subst}

abbrev Table : Type 0 → Type 0
Table V = List (Text × V)

module _ {V : Type 0} where
  abbrev without : Text → Table V → Table V
  without k [] = []
  without k ((j, v) ∷ table) = let rest = without k table in if j == k then rest else (j, v) ∷ rest

  abbrev matching : Text → Table V → Table V
  matching p [] = []
  matching p ((j, v) ∷ table) =
      let rest = matching p table in if starts_with p j then (j, v) ∷ without j rest else rest

  abbrev keys : Table V → List Text
  keys = map (λ e. e.0)

  abbrev pub memory : V → Engine
  memory nothing = record {
    State = Table V;
    Value = V;
    empty = nothing;
    Item = V;
    begin = ok;
    commit = ok;
    get = λ s k. ok (lookup k s);
    value = ok;
    set = λ s k v. ok (insert k v s);
    delete = λ s k. ok (without k s);
    scan = λ s p. matching p s;
  }

  lookup-without :
      (k j : Text) (s : Table V) → lookup j (without k s) ≡ (if k == j then none else lookup j s)
  unfolding lookup
  lookup-without k j [] = ground arith
  lookup-without k j ((i, v) ∷ s) =
      let rest = lookup-without k j s in
      ground (arith, text_eq.beq_iff i k, text_eq.beq_iff i j, text_eq.beq_iff k j)

  contains-without :
      (k j : Text) (s : Table V)
      → contains j (keys (without k s)) ≡ (if k == j then false else contains j (keys s))
  contains-without k j [] = ground arith
  contains-without k j ((i, v) ∷ s) =
      let rest = contains-without k j s in
      ground (arith, text_eq.beq_iff i k, text_eq.beq_iff i j, text_eq.beq_iff k j)

  without-All : (P : Text × V → Type 0) (k : Text) (s : Table V) → All P s → All P (without k s)
  without-All P k [] h = tt
  without-All P k ((j, v) ∷ s) (h, hs) = elim (Bool-cases (j == k)) [
    | inl same ↦ rw same (without-All P k s hs)
    | inr other ↦ rw other (h, without-All P k s hs)
  ]

  has_no_repeats-without :
      (k : Text) (s : Table V)
      → has_no_repeats (keys s) ≡ true
      → has_no_repeats (keys (without k s)) ≡ true
  has_no_repeats-without k [] h = refl
  has_no_repeats-without k ((j, v) ∷ s) h =
      let rest = has_no_repeats-without k s in
      let found = contains-without k j s in ground (arith, text_eq.beq_iff j k, text_eq.beq_iff k j)

  matching-starts : (p : Text) (s : Table V) → All (λ e. starts_with p e.0 ≡ true) (matching p s)
  matching-starts p [] = tt
  matching-starts p ((j, v) ∷ s) = elim (Bool-cases (starts_with p j)) [
    | inl starts ↦ rw starts (starts, without-All _ j (matching p s) (matching-starts p s))
    | inr differs ↦ rw differs (matching-starts p s)
  ]

  matching-once : (p : Text) (s : Table V) → has_no_repeats (keys (matching p s)) ≡ true
  matching-once p [] = refl
  matching-once p ((j, v) ∷ s) =
      let once = matching-once p s in
      let rest = has_no_repeats-without j (matching p s) once in
      let found = contains-without j j (matching p s) in
      elim (Bool-cases (starts_with p j)) [
        | inl starts ↦ rw (starts, found, ==_refl j, rest) refl
        | inr differs ↦ rw differs once
      ]

  abbrev is_held : Option V → Bool
  is_held none = false
  is_held (some b) = true

  matching-keys :
      (p k : Text) (s : Table V)
      → starts_with p k ≡ true
      → contains k (keys (matching p s)) ≡ is_held (lookup k s)
  unfolding lookup
  matching-keys p k [] h = refl
  matching-keys p k ((j, v) ∷ s) h =
      let rest = matching-keys p k s h in
      let found = contains-without j k (matching p s) in
      elim (Bool-cases (j == k)) [
        | inl same ↦
            let e = eq-of-== j k same in
            let starts : starts_with p j ≡ true =
              subst (λ (t : Text). starts_with p t ≡ true) (sym e) h in
            rw (starts, same) refl
        | inr other ↦ ground arith
      ]

  is_held_iff : (o : Option V) → (is_held o ≡ true) ↔ (o ≢ none)
  is_held_iff none = (λ h. cc, λ h. absurd (h refl))
  is_held_iff (some b) = (λ h e. cc, λ h. refl)

  pub memory-IsBadger : (nothing : V) → IsBadger (memory nothing)
  memory-IsBadger nothing = record {
    at = λ s k. lookup k s;
    at-begin = λ s t e k. ap (lookup k) (sym (ok-injective s t e));
    at-commit = λ s t e k. ap (lookup k) (sym (ok-injective s t e));
    get_none = λ s k e. ok-injective _ _ e;
    get_some = λ s k item e. (item, ok-injective _ _ e, λ c e'. sym (ok-injective _ _ e'));
    at-set = λ s t k v e j. ap (lookup j) (sym (ok-injective _ _ e)) ∙ lookup-insert k j v s;
    at-delete = λ s t k e j. ap (lookup j) (sym (ok-injective _ _ e)) ∙ lookup-without k j s;
    scan_prefix = λ s p. matching-starts p s;
    scan_keys = λ s p k h. rw (matching-keys p k s h) (is_held_iff (lookup k s));
    scan_once = λ s p. matching-once p s;
  }

  pub memory-at :
      (nothing : V) (s : Table V) (k : Text) → (memory-IsBadger nothing).at s k ≡ lookup k s
  unfolding memory-IsBadger
  memory-at nothing s k = refl
