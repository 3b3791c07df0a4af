-- ===== src/Merkle/Sound.antt =====
-- What an accepted proof shows (merkle.go): the leaf is in the tree, or SHA-256 has a collision.
use pulsesyn.Prelude.{
  false, if◌then◌else◌, length-map, suc, map, Bool, ◌<◌, none, ◌∙◌, true, length-append, ne-of-==,
  ap, inr, refl, sym, eq-of-==, Option, [], arith, inl, ◌==◌, ok, some, Bool-cases, ◌++◌, ◌⊎◌,
  Result, get_elem?, ◌∷◌, All, ◌≢◌, ◌≡◌, length, List, ℕ,
}
use pulsesyn.Text.{text_eq}
use pulsesyn.Merkle.Tree.{
  layers_from, next_layer, Tree, Proof, verify_proof, hash_leaf, MerkleError, index, climb,
  top_layer, hash_internal, root, ProofNode, build, Bytes,
}
use pulsesyn.Merkle.Chain.{layers_from-IsChain, next_layer-pairs, more, top, pairs, IsChain}
use mathlib.Core.Path.{subst}

-- Two texts with one digest.
pub record IsCollision (sha256 : Bytes → Bytes) : Type 0 where
  pub first : Bytes
  pub second : Bytes
  pub distinct : first ≢ second
  pub same_digest : sha256 first ≡ sha256 second

pub append-injective : (a b c d : Bytes) → length a ≡ length c → a ++ b ≡ c ++ d → (a ≡ c) × (b ≡ d)
append-injective [] b [] d n h = (refl, h)
append-injective [] b (y ∷ c) d n h = absurd (omega arith)
append-injective (x ∷ a) b [] d n h = absurd (omega arith)
append-injective (x ∷ a) b (y ∷ c) d n h =
    let tails : a ++ b ≡ c ++ d = cc in
    let (fronts, backs) = append-injective a b c d (omega arith) tails in (cc, backs)

module _ (sha256 : Bytes → Bytes) where
  -- The nodes of the tree over some leaves, by their digests.
  pub data IsNode (leaves : List Bytes) : Bytes → Type 0 where
    leaf : (i : ℕ) (d : Bytes) → get_elem? leaves i ≡ some d → IsNode leaves (hash_leaf sha256 d)
    inner :
        (l r : Bytes) → IsNode leaves l → IsNode leaves r → IsNode leaves (hash_internal sha256 l r)

  pub same_text : (a b : Bytes) → sha256 a ≡ sha256 b → (a ≡ b) ⊎ IsCollision sha256
  same_text a b h = elim (Bool-cases (a == b)) [
    | inl same ↦ inl (eq-of-== a b same)
    | inr other ↦
        inr (record { first = a; second = b; distinct = ne-of-== a b other; same_digest = h })
  ]

  pairs-IsNode :
      (leaves xs : List Bytes) → All (IsNode leaves) xs → All (IsNode leaves) (pairs sha256 xs)
  pairs-IsNode leaves [] h = tt
  pairs-IsNode leaves (x ∷ []) (h, _) = (inner x x h h, tt)
  pairs-IsNode leaves (x ∷ y ∷ xs) (h, (k, rest)) = (inner x y h k, pairs-IsNode leaves xs rest)

  ok-injective : {a b : Bytes} → ◌≡◌ {A = Result MerkleError Bytes} (ok a) (ok b) → a ≡ b
  ok-injective h = cc

  pub top_layer-above :
      (layer : List Bytes) {ys : List Bytes} {above : List (List Bytes)}
      → IsChain sha256 ys above
      → top_layer (layer ∷ above) ≡ top_layer above
  top_layer-above layer (top y) = refl
  top_layer-above layer (more y z xs above chain) = refl

  root-IsNode :
      (leaves xs : List Bytes) (layers : List (List Bytes)) {r : Bytes}
      → IsChain sha256 xs layers
      → All (IsNode leaves) xs
      → index (top_layer layers) 0 ≡ ok r
      → IsNode leaves r
  root-IsNode leaves _ _ (top x) (h, _) e = subst (IsNode leaves) (ok-injective e) h
  root-IsNode leaves _ _ (more x y xs above chain) h e =
      let here =
        subst (All (IsNode leaves)) (sym (next_layer-pairs sha256 (x ∷ y ∷ xs)))
          (pairs-IsNode leaves (x ∷ y ∷ xs) h) in
      root-IsNode leaves (next_layer sha256 (x ∷ y ∷ xs)) above chain here
        (ap (λ layer. index layer 0) (sym (top_layer-above (x ∷ y ∷ xs) chain)) ∙ e)

  All-map_leaf :
      (P : Bytes → Type 0) (leaves : List Bytes)
      → ((i : ℕ) (d : Bytes) → get_elem? leaves i ≡ some d → P (hash_leaf sha256 d))
      → All P (map (hash_leaf sha256) leaves)
  All-map_leaf P [] h = tt
  All-map_leaf P (d ∷ leaves) h = (h 0 d refl, All-map_leaf P leaves (λ i. h (suc i)))

  build-eq :
      (leaves : List Bytes) {t : Tree}
      → build sha256 leaves ≡ ok t
      → (0 < length leaves)
        × (t.layers ≡ layers_from sha256 (length leaves) (map (hash_leaf sha256) leaves))
  unfolding build
  build-eq leaves h = ground arith

  module _ (digest_length : (b : Bytes) → length (sha256 b) ≡ 32) where
    node-length : (leaves : List Bytes) (x : Bytes) → IsNode leaves x → length x ≡ 32
    node-length leaves _ (leaf i d m) = digest_length (0 ∷ d)
    node-length leaves _ (inner l r hl hr) = digest_length (1 ∷ (l ++ r))

    -- The children of a node whose digest is that of `x` and `y`, one of which is a digest.
    child-IsNode :
        (leaves : List Bytes) (x y z : Bytes)
        → (length x ≡ 32) ⊎ (length y ≡ 32)
        → z ≡ hash_internal sha256 x y
        → IsNode leaves z
        → (IsNode leaves x × IsNode leaves y) ⊎ IsCollision sha256
    child-IsNode leaves x y _ n e (leaf i d m) = elim (same_text (0 ∷ d) (1 ∷ (x ++ y)) e) [
      | inl same ↦ absurd ground arith
      | inr collision ↦ inr collision
    ]
    child-IsNode leaves x y _ n e (inner l r hl hr) =
        elim (same_text (1 ∷ (l ++ r)) (1 ∷ (x ++ y)) e) [
          | inl same ↦
              let tails : l ++ r ≡ x ++ y = cc in
              let lengths : length (l ++ r) ≡ length (x ++ y) = ap length tails in
              let parts = length-append l r in
              let parts' = length-append x y in
              let ll = node-length leaves l hl in
              let lr = node-length leaves r hr in
              let lx : length l ≡ length x = ground arith in
              let (fronts, backs) = append-injective l r x y lx tails in
              inl (subst (IsNode leaves) fronts hl, subst (IsNode leaves) backs hr)
          | inr collision ↦ inr collision
        ]

    step-IsNode :
        (leaves : List Bytes) (left : Bool) (x b : Bytes)
        → length x ≡ 32
        → IsNode leaves (if left then hash_internal sha256 b x else hash_internal sha256 x b)
        → IsNode leaves x ⊎ IsCollision sha256
    step-IsNode leaves true x b n h = elim (child-IsNode leaves b x _ (inr n) refl h) [
      | inl (_, here) ↦ inl here
      | inr collision ↦ inr collision
    ]
    step-IsNode leaves false x b n h = elim (child-IsNode leaves x b _ (inl n) refl h) [
      | inl (here, _) ↦ inl here
      | inr collision ↦ inr collision
    ]

    step-length :
        (left : Bool) (x b : Bytes)
        → length (if left then hash_internal sha256 b x else hash_internal sha256 x b) ≡ 32
    step-length true x b = digest_length _
    step-length false x b = digest_length _

    -- Down from a node along the nodes of a proof.
    climb-IsNode :
        (leaves : List Bytes) (nodes : List ProofNode) (x : Bytes)
        → length x ≡ 32
        → IsNode leaves (climb sha256 x nodes)
        → IsNode leaves x ⊎ IsCollision sha256
    climb-IsNode leaves [] x n h = inl h
    climb-IsNode leaves (node ∷ nodes) x n h =
        elim (climb-IsNode leaves nodes _ (step-length node.is_left x node.hash) h) [
          | inl here ↦ step-IsNode leaves node.is_left x node.hash n here
          | inr collision ↦ inr collision
        ]

    leaf-found :
        (leaves : List Bytes) (d z : Bytes)
        → z ≡ hash_leaf sha256 d
        → IsNode leaves z
        → ((i : ℕ) × (get_elem? leaves i ≡ some d)) ⊎ IsCollision sha256
    leaf-found leaves d _ e (leaf i d' m) = elim (same_text (0 ∷ d') (0 ∷ d) e) [
      | inl same ↦ let same_data : d' ≡ d = cc in inl (i, m ∙ ap some same_data)
      | inr collision ↦ inr collision
    ]
    leaf-found leaves d _ e (inner l r hl hr) = elim (same_text (1 ∷ (l ++ r)) (0 ∷ d) e) [
      | inl same ↦ absurd ground arith
      | inr collision ↦ inr collision
    ]

    -- If SHA-256 has digests of 32 bytes and VerifyProof accepts a proof of some data, of any
    -- shape, for the root of a tree that Build made, then the data is one of the leaves or two different texts
    -- have one digest.
    pub accepted_proof_sound :
        (leaves : List Bytes) (d : Bytes) (proof : Option Proof) {t : Tree} {root_hash : Bytes}
        → build sha256 leaves ≡ ok t
        → root t ≡ ok root_hash
        → verify_proof sha256 root_hash d proof ≡ true
        → ((i : ℕ) × (get_elem? leaves i ≡ some d)) ⊎ IsCollision sha256
    unfolding root verify_proof
    accepted_proof_sound leaves d none built rooted accepted = cc
    accepted_proof_sound leaves d (some proof) {t} {root_hash} built rooted accepted =
        let (pos, layers) = build-eq leaves built in
        let hashes = map (hash_leaf sha256) leaves in
        let n = length-map leaves (hash_leaf sha256) in
        let chain = layers_from-IsChain sha256 (length leaves) hashes (omega arith) (omega arith) in
        let all = All-map_leaf (IsNode leaves) leaves leaf in
        let at_root =
          root-IsNode leaves hashes _ chain all
            (ap (λ ls. index (top_layer ls) 0) (sym layers) ∙ rooted) in
        let climbed : climb sha256 (hash_leaf sha256 d) proof.nodes ≡ root_hash =
          eq-of-== _ root_hash accepted in
        elim (climb-IsNode leaves proof.nodes (hash_leaf sha256 d) (digest_length _)
          (subst (IsNode leaves) (sym climbed) at_root)) [
            | inl here ↦ leaf-found leaves d _ refl here
            | inr collision ↦ inr collision
          ]
