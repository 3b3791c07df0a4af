-- ===== src/Merkle/Duplicate.antt =====
-- Two lists of leaves with one root (merkle.go).
use pulsesyn.Prelude.{
  length-map, ◌+◌, ok, ◌∙◌, sym, true, refl, length-append, arith, [], ap, ◌∷◌, false, ◌%◌, ◌≡◌,
  length, ◌++◌, ◌<◌, map, nat_beq, List,
}
use pulsesyn.Merkle.Tree.{
  index, layers_from, hash_leaf, Tree, root, build, next_layer, last_of, top_layer, padded, Bytes,
}
use pulsesyn.Merkle.Chain.{layers_from-IsChain, more, top, IsChain}
use mathlib.Core.Path.{subst}
use pulsesyn.Merkle.Sound.{top_layer-above}

odd-last_of :
    (leaves : List Bytes) → nat_beq (length leaves % 2) 0 ≡ false → length (last_of leaves) ≡ 1
odd-last_of [] h = cc
odd-last_of (x ∷ []) h = refl
odd-last_of (x ∷ y ∷ []) h = refl
odd-last_of (x ∷ y ∷ z ∷ xs) h = odd-last_of (z ∷ xs) ground arith

map-last_of :
    (f : Bytes → Bytes) (leaves : List Bytes) → map f (last_of leaves) ≡ last_of (map f leaves)
map-last_of f [] = refl
map-last_of f (x ∷ []) = refl
map-last_of f (x ∷ y ∷ xs) = map-last_of f (y ∷ xs)

map-append : (f : Bytes → Bytes) (xs ys : List Bytes) → map f (xs ++ ys) ≡ map f xs ++ map f ys
map-append f [] ys = refl
map-append f (x ∷ xs) ys = ap (λ l. f x ∷ l) (map-append f xs ys)

module _ (sha256 : Bytes → Bytes) where
  top_single :
      (x : Bytes) (layers : List (List Bytes))
      → IsChain sha256 (x ∷ []) layers
      → top_layer layers ≡ x ∷ []
  top_single x _ (top _) = refl

  top_more :
      (xs : List Bytes) (layers : List (List Bytes))
      → 1 < length xs
      → IsChain sha256 xs layers
      → (above : List (List Bytes)) × IsChain sha256 (next_layer sha256 xs) above
        × (top_layer layers ≡ top_layer above)
  top_more _ _ big (top x) = absurd (omega arith)
  top_more _ _ big (more x y xs above c) = (above, c, top_layer-above sha256 (x ∷ y ∷ xs) c)

  -- The top is determined by the lowest layer.
  chain_top :
      (xs : List Bytes) (layers layers' : List (List Bytes))
      → IsChain sha256 xs layers
      → IsChain sha256 xs layers'
      → top_layer layers ≡ top_layer layers'
  chain_top _ _ layers' (top x) c' = sym (top_single x layers' c')
  chain_top _ _ layers' (more x y xs above c) c' =
      let (above', d', e') = top_more (x ∷ y ∷ xs) layers' (omega arith) c' in
      top_layer-above sha256 (x ∷ y ∷ xs) c
      ∙ chain_top (next_layer sha256 (x ∷ y ∷ xs)) above above' c d'
      ∙ sym e'

  next_layer_repeated :
      (xs : List Bytes)
      → nat_beq (length xs % 2) 0 ≡ false
      → next_layer sha256 (xs ++ last_of xs) ≡ next_layer sha256 xs
  unfolding padded
  next_layer_repeated xs odd =
      let one_more = length-append xs (last_of xs) in
      let n = odd-last_of xs odd in
      let even : nat_beq (length (xs ++ last_of xs) % 2) 0 ≡ true = ground arith in
      rw (odd, even) refl

  chain_repeated :
      (xs : List Bytes) (layers layers' : List (List Bytes))
      → 1 < length xs
      → nat_beq (length xs % 2) 0 ≡ false
      → IsChain sha256 xs layers
      → IsChain sha256 (xs ++ last_of xs) layers'
      → top_layer layers ≡ top_layer layers'
  chain_repeated xs layers layers' big odd c c' =
      let (above, d, e) = top_more xs layers big c in
      let n = length-append xs (last_of xs) in
      let (above', d', e') = top_more (xs ++ last_of xs) layers' (omega arith) c' in
      let d'' = subst (λ ys. IsChain sha256 ys above') (next_layer_repeated xs odd) d' in
      e ∙ chain_top (next_layer sha256 xs) above above' d d'' ∙ sym e'

  -- Of an odd number of leaves above one, the tree over the leaves and the tree over the leaves and
  -- once more the last one are both built, and have the same root.
  pub repeated_last-root :
      (leaves : List Bytes)
      → 1 < length leaves
      → nat_beq (length leaves % 2) 0 ≡ false
      → (t : Tree) × (t' : Tree) × (build sha256 leaves ≡ ok t)
        × (build sha256 (leaves ++ last_of leaves) ≡ ok t')
        × (root t ≡ root t')
        × (t'.leaf_count ≡ t.leaf_count + 1)
  unfolding build root
  repeated_last-root leaves big odd =
      let f = hash_leaf sha256 in
      let more_leaves = leaves ++ last_of leaves in
      let n = length-append leaves (last_of leaves) in
      let one_more = odd-last_of leaves odd in
      let hn = length-map leaves f in
      let hm = length-map more_leaves f in
      let e : map f more_leaves ≡ map f leaves ++ last_of (map f leaves) =
        map-append f leaves (last_of leaves) ∙ ap (λ l. map f leaves ++ l) (map-last_of f leaves) in
      let c =
        layers_from-IsChain sha256 (length leaves) (map f leaves) (omega arith) (omega arith) in
      let c' =
        layers_from-IsChain sha256 (length more_leaves) (map f more_leaves) (omega arith)
          (omega arith) in
      let some_leaves : nat_beq (length leaves) 0 ≡ false = ground arith in
      let some_more : nat_beq (length more_leaves) 0 ≡ false = ground arith in
      let tops = chain_repeated (map f leaves) _ _ (omega arith) (rw hn odd) c (
        subst
          (λ ys. IsChain sha256 ys (layers_from sha256 (length more_leaves) (map f more_leaves))) e
          c') in
      (
        record {
          layers = layers_from sha256 (length leaves) (map f leaves);
          leaf_count = length leaves;
        },
        record {
          layers = layers_from sha256 (length more_leaves) (map f more_leaves);
          leaf_count = length more_leaves;
        },
        rw some_leaves refl,
        rw some_more refl,
        ap (λ layer. index layer 0) tops,
        omega arith,
      )
