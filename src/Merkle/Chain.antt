-- ===== src/Merkle/Chain.antt =====
-- The layers that Build makes (merkle.go): its loop ends with a single root.
use pulsesyn.Prelude.{
  false, refl, inr, inl, Bool-cases, zero, ap, ◌%◌, nat_beq, ◌+◌, suc, ◌≡◌, arith, ◌*◌, ◌≤◌, [],
  length, ◌∷◌, ◌<◌, List, ℕ,
}
use pulsesyn.Merkle.Tree.{hash_internal, next_layer, pair_up, layers_from, padded, Bytes}

module _ (sha256 : Bytes → Bytes) where
  -- The next layer, pair by pair: the last node of an odd layer is paired with itself.
  abbrev pub pairs : List Bytes → List Bytes
  pairs [] = []
  pairs (x ∷ []) = hash_internal sha256 x x ∷ []
  pairs (x ∷ y ∷ xs) = hash_internal sha256 x y ∷ pairs xs

  pub next_layer-pairs : (xs : List Bytes) → next_layer sha256 xs ≡ pairs xs
  unfolding padded pair_up
  next_layer-pairs [] = refl
  next_layer-pairs (x ∷ []) = refl
  next_layer-pairs (x ∷ y ∷ []) = refl
  next_layer-pairs (x ∷ y ∷ z ∷ xs) =
      let n = length (z ∷ xs) in
      let parity : nat_beq (suc (suc n) % 2) 0 ≡ nat_beq (n % 2) 0 = ground arith in
      let h = next_layer-pairs (z ∷ xs) in
      elim (Bool-cases (nat_beq (n % 2) 0)) [
        | inl even ↦ rw (parity, even) (ap (λ l. hash_internal sha256 x y ∷ l) (rw even at h))
        | inr odd ↦ rw (parity, odd) (ap (λ l. hash_internal sha256 x y ∷ l) (rw odd at h))
      ]

  -- The layers from the leaves up to a single node.
  pub data IsChain : List Bytes → List (List Bytes) → Type 0 where
    top : (x : Bytes) → IsChain (x ∷ []) ((x ∷ []) ∷ [])
    more :
        (x y : Bytes) (xs : List Bytes) (above : List (List Bytes))
        → IsChain (next_layer sha256 (x ∷ y ∷ xs)) above
        → IsChain (x ∷ y ∷ xs) ((x ∷ y ∷ xs) ∷ above)

  length-pairs :
      (xs : List Bytes)
      → (length xs ≤ 2 * length (pairs xs)) × (2 * length (pairs xs) ≤ length xs + 1)
  length-pairs [] = (omega arith, omega arith)
  length-pairs (x ∷ []) = (omega arith, omega arith)
  length-pairs (x ∷ y ∷ xs) = let (lo, hi) = length-pairs xs in (omega arith, omega arith)

  -- As many rounds as there are nodes are enough.
  pub layers_from-IsChain :
      (fuel : ℕ) (xs : List Bytes)
      → 0 < length xs
      → length xs ≤ fuel
      → IsChain xs (layers_from sha256 fuel xs)
  unfolding layers_from
  layers_from-IsChain zero xs pos h = absurd (omega arith)
  layers_from-IsChain (suc fuel) [] pos h = absurd (omega arith)
  layers_from-IsChain (suc fuel) (x ∷ []) pos h = top x
  layers_from-IsChain (suc fuel) (x ∷ y ∷ xs) pos h =
      let e : length (next_layer sha256 (x ∷ y ∷ xs)) ≡ length (pairs (x ∷ y ∷ xs)) =
        ap length (next_layer-pairs (x ∷ y ∷ xs)) in
      let (lo, hi) = length-pairs (x ∷ y ∷ xs) in
      let big : nat_beq (length (x ∷ y ∷ xs)) 1 ≡ false = ground arith in
      rw big (
        more x y xs (layers_from sha256 fuel (next_layer sha256 (x ∷ y ∷ xs)))
          (layers_from-IsChain fuel (next_layer sha256 (x ∷ y ∷ xs)) (omega arith) (omega arith)))
