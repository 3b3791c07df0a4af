-- ===== src/Dict.antt =====
-- Go's maps, as association lists. A key stands once; the order of the entries stands for the order in
-- which a `range` loop visits them, and lookups do not depend on it.
use pulsesyn.Prelude.{
  refl, inr, ==_refl, inl, ==-of-ne, [], arith, ap, ◌+◌, ◌==◌, ◌≤◌, if◌then◌else◌, Bool-cases, some,
  ◌∙◌, none, ◌∷◌, Option, length, ◌≢◌, All, ◌≡◌, List, Eq,
}
use mathlib.Core.Option.{some-injective}

module _ {K V : Type 0} ⦃e : Eq K⦄ where
  -- `v, ok := m[k]`
  unfoldable pub lookup : K → List (K × V) → Option V
  lookup k [] = none
  lookup k ((i, w) ∷ entries) = if i == k then some w else lookup k entries

  -- `m[k] = v`
  unfoldable pub insert : K → V → List (K × V) → List (K × V)
  insert k v [] = (k, v) ∷ []
  insert k v ((i, w) ∷ entries) = if i == k then (i, v) ∷ entries else (i, w) ∷ insert k v entries

  -- A lookup after an assignment, of the same key or another.
  pub lookup-insert :
      (k sought : K) (v : V) (m : List (K × V))
      → lookup sought (insert k v m) ≡ (if k == sought then some v else lookup sought m)
  unfolding lookup insert
  lookup-insert k sought v [] = refl
  lookup-insert k sought v ((i, w) ∷ entries) =
      let rest = lookup-insert k sought v entries in
      ground (arith, e.beq_iff k sought, e.beq_iff i k, e.beq_iff i sought)

  pub lookup-insert_self : (k : K) (v : V) (m : List (K × V)) → lookup k (insert k v m) ≡ some v
  lookup-insert_self k v m =
      lookup-insert k k v m ∙ ap (λ b. if b then some v else lookup k m) (==_refl k)

  pub lookup-insert_ne :
      (k j : K) (v : V) (m : List (K × V)) → k ≢ j → lookup j (insert k v m) ≡ lookup j m
  lookup-insert_ne k j v m h =
      lookup-insert k j v m ∙ ap (λ b. if b then some v else lookup j m) (==-of-ne k j h)

  abbrev pub AllValues {ℓ} : (V → Type ℓ) → List (K × V) → Type ℓ
  AllValues P m = All (λ p. P p.1) m

  pub insert-AllValues :
      (P : V → Type 0) (k : K) (v : V) (m : List (K × V))
      → P v
      → AllValues P m
      → AllValues P (insert k v m)
  unfolding insert
  insert-AllValues P k v [] pv h = (pv, tt)
  insert-AllValues P k v ((j, w) ∷ m) pv (h, hs) = elim (Bool-cases (j == k)) [
    | inl same ↦ rw same (pv, hs)
    | inr other ↦ rw other (h, insert-AllValues P k v m pv hs)
  ]

  pub length-insert : (k : K) (v : V) (m : List (K × V)) → length (insert k v m) ≤ length m + 1
  unfolding insert
  length-insert k v [] = omega arith
  length-insert k v ((j, w) ∷ m) = ground (arith, length-insert k v m)

  pub lookup-AllValues :
      (P : V → Type 0) (k : K) (m : List (K × V)) {v : V}
      → AllValues P m
      → lookup k m ≡ some v
      → P v
  unfolding lookup
  lookup-AllValues P k [] h at = cc
  lookup-AllValues P k ((j, w) ∷ m) (h, hs) at = elim (Bool-cases (j == k)) [
    | inl same ↦ rw (← some-injective _ _ (rw same at at)) h
    | inr other ↦ lookup-AllValues P k m hs (rw other at at)
  ]
