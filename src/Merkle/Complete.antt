-- ===== src/Merkle/Complete.antt =====
-- Every leaf has a proof, and the proof verifies (merkle.go).
use pulsesyn.Text.{text_eq}
use pulsesyn.Prelude.{
  ==_refl, not, ◌||◌, lt_nat, length-map, pos, ap, ◌∙◌, ◌<◌, ◌>>=◌, map, ◌-◌, false, inr, inl, ◌/◌,
  ◌%◌, Bool-cases, nat_beq, true, refl, ok, [], length, ◌∷◌, ltb, if◌then◌else◌, some, get_elem?,
  arith, zero, ◌*◌, List, ◌≡◌, suc, ℕ,
}
use pulsesyn.Merkle.Tree.{
  layers_from, Proof, Tree, verify_proof, generate_proof, hash_leaf, root, build, top_layer,
  next_layer, climb, ProofNode, proof_nodes, sibling, hash_internal, index, Bytes,
}
use pulsesyn.Merkle.Chain.{layers_from-IsChain, more, next_layer-pairs, top, IsChain, pairs}
use mathlib.Core.Option.{some-injective}
use mathlib.Core.Path.{subst}

abbrev double : ℕ → ℕ
double zero = 0
double (suc k) = suc (suc (double k))

double-eq : (k : ℕ) → double k ≡ 2 * k
double-eq zero = omega arith
double-eq (suc k) = omega (arith, double-eq k)

ltb_shift : (a n : ℕ) → ltb (suc (suc a)) (suc (suc n)) ≡ ltb a n
ltb_shift a n = ground arith

module _ (sha256 : Bytes → Bytes) where
  -- The node at a place of a pair, and its sibling.
  left_node :
      (xs : List Bytes) (k : ℕ) {x : Bytes}
      → get_elem? xs (double k) ≡ some x
      → (b : Bytes) × (index xs
            (if ltb (suc (double k)) (length xs) then suc (double k) else double k)
          ≡ ok b)
        × (get_elem? (pairs sha256 xs) k ≡ some (hash_internal sha256 x b))
  left_node [] k h = cc
  left_node (y ∷ []) zero h = (y, refl, rw (some-injective _ _ h) refl)
  left_node (y ∷ []) (suc k) h = cc
  left_node (y ∷ z ∷ xs) zero h =
      let two : ltb 1 (length (y ∷ z ∷ xs)) ≡ true = ground arith in
      (z, rw two refl, rw (some-injective _ _ h) refl)
  left_node (y ∷ z ∷ xs) (suc k) h =
      let (b, found, next) = left_node xs k h in
      let d = double k in
      let shift : ltb (suc (suc (suc d))) (length (y ∷ z ∷ xs)) ≡ ltb (suc d) (length xs) =
        ltb_shift (suc d) (length xs) in
      elim (Bool-cases (ltb (suc d) (length xs))) [
        | inl inside ↦ (b, rw (shift, inside) (rw inside at found), next)
        | inr last ↦ (b, rw (shift, last) (rw last at found), next)
      ]

  right_node :
      (xs : List Bytes) (k : ℕ) {x : Bytes}
      → get_elem? xs (suc (double k)) ≡ some x
      → (b : Bytes) × (get_elem? xs (double k) ≡ some b)
        × (get_elem? (pairs sha256 xs) k ≡ some (hash_internal sha256 b x))
  right_node [] k h = cc
  right_node (y ∷ []) k h = cc
  right_node (y ∷ z ∷ xs) zero h = (y, refl, rw (some-injective _ _ h) refl)
  right_node (y ∷ z ∷ xs) (suc k) h = right_node xs k h

  -- A node and its sibling hash to their parent.
  abbrev parent : Bytes → ProofNode → Bytes
  parent x node = climb sha256 x (node ∷ [])

  sibling_even :
      (xs : List Bytes) (k : ℕ) {x : Bytes}
      → get_elem? xs (double k) ≡ some x
      → (node : ProofNode) × (sibling xs (double k) ≡ ok node)
        × (get_elem? (pairs sha256 xs) k ≡ some (parent x node))
  unfolding sibling
  sibling_even xs k h =
      let (b, found, next) = left_node xs k h in
      let e = double-eq k in
      let even : nat_beq (double k % 2) 0 ≡ true = ground arith in
      (record { hash = b; is_left = false }, rw (even, found) refl, next)

  sibling_odd :
      (xs : List Bytes) (k : ℕ) {x : Bytes}
      → get_elem? xs (suc (double k)) ≡ some x
      → (node : ProofNode) × (sibling xs (suc (double k)) ≡ ok node)
        × (get_elem? (pairs sha256 xs) k ≡ some (parent x node))
  unfolding sibling
  sibling_odd xs k h =
      let (b, found, next) = right_node xs k h in
      let e = double-eq k in
      let odd : nat_beq (suc (double k) % 2) 0 ≡ false = ground arith in
      let before : suc (double k) - 1 ≡ double k = omega arith in
      (record { hash = b; is_left = true }, rw (odd, before, index, found) refl, next)

  sibling-parent :
      (xs : List Bytes) (i : ℕ) {x : Bytes}
      → get_elem? xs i ≡ some x
      → (node : ProofNode) × (sibling xs i ≡ ok node)
        × (get_elem? (next_layer sha256 xs) (i / 2) ≡ some (parent x node))
  sibling-parent xs i {x} h =
      let e = double-eq (i / 2) in
      rw (next_layer-pairs sha256 xs) (elim (Bool-cases (nat_beq (i % 2) 0)) [
        | inl even ↦
            let same : double (i / 2) ≡ i = ground arith in
            subst
              (λ j.
                (node : ProofNode) × (sibling xs j ≡ ok node)
                × (get_elem? (pairs sha256 xs) (i / 2) ≡ some (parent x node)))
              same (sibling_even xs (i / 2) (rw same h))
        | inr odd ↦
            let same : suc (double (i / 2)) ≡ i = ground arith in
            subst
              (λ j.
                (node : ProofNode) × (sibling xs j ≡ ok node)
                × (get_elem? (pairs sha256 xs) (i / 2) ≡ some (parent x node)))
              same (sibling_odd xs (i / 2) (rw same h))
      ])

  -- There is a layer above every layer but the top.
  layer_above :
      (layer ys : List Bytes) (above : List (List Bytes)) (i : ℕ)
      → IsChain sha256 ys above
      → (proof_nodes (layer ∷ above) i
          ≡ (sibling layer i >>= λ node. proof_nodes above (i / 2) >>= λ nodes. ok (node ∷ nodes)))
        × (top_layer (layer ∷ above) ≡ top_layer above)
  unfolding proof_nodes
  layer_above layer _ _ i (top y) = (refl, refl)
  layer_above layer _ _ i (more y z xs above chain) = (refl, refl)

  -- From any node of a layer the proof leads to the root.
  pub chain_proof :
      (xs : List Bytes) (layers : List (List Bytes)) (i : ℕ) {x : Bytes}
      → IsChain sha256 xs layers
      → get_elem? xs i ≡ some x
      → (nodes : List ProofNode) × (proof_nodes layers i ≡ ok nodes)
        × (index (top_layer layers) 0 ≡ ok (climb sha256 x nodes))
  unfolding proof_nodes
  chain_proof _ _ zero (top y) h = ([], refl, rw (some-injective _ _ h) refl)
  chain_proof _ _ (suc i) (top y) h = cc
  chain_proof _ _ i (more y z xs above chain) h =
      let (node, found, next) = sibling-parent (y ∷ z ∷ xs) i h in
      let (nodes, rest, reached) =
        chain_proof (next_layer sha256 (y ∷ z ∷ xs)) above (i / 2) chain next in
      let (step, same_top) =
        layer_above (y ∷ z ∷ xs) (next_layer sha256 (y ∷ z ∷ xs)) above i chain in
      (node ∷ nodes, step ∙ rw (found, rest) refl, ap (λ layer. index layer 0) same_top ∙ reached)

  get-map_leaf :
      (leaves : List Bytes) (i : ℕ) {d : Bytes}
      → get_elem? leaves i ≡ some d
      → get_elem? (map (hash_leaf sha256) leaves) i ≡ some (hash_leaf sha256 d)
  get-map_leaf [] i h = cc
  get-map_leaf (d ∷ leaves) zero h = cc
  get-map_leaf (d ∷ leaves) (suc i) h = get-map_leaf leaves i h

  get-bound :
      (leaves : List Bytes) (i : ℕ) {d : Bytes} → get_elem? leaves i ≡ some d → i < length leaves
  get-bound [] i h = cc
  get-bound (d ∷ leaves) zero h = omega arith
  get-bound (d ∷ leaves) (suc i) h = let b = get-bound leaves i h in omega arith

  -- A tree of at least one leaf is built, with a root; and for every leaf GenerateProof returns a
  -- proof, with the leaf's index, which VerifyProof accepts for the leaf's data and the root.
  pub every_leaf_proved :
      (leaves : List Bytes) (i : ℕ) {d : Bytes}
      → get_elem? leaves i ≡ some d
      → (t : Tree) × (root_hash : Bytes) × (proof : Proof) × (build sha256 leaves ≡ ok t)
        × (root t ≡ ok root_hash)
        × (generate_proof t (pos i) ≡ ok proof)
        × (proof.leaf_index ≡ pos i)
        × (verify_proof sha256 root_hash d (some proof) ≡ true)
  unfolding build root generate_proof verify_proof
  every_leaf_proved leaves i {d} h =
      let bound = get-bound leaves i h in
      let hashes = map (hash_leaf sha256) leaves in
      let n = length-map leaves (hash_leaf sha256) in
      let layers = layers_from sha256 (length leaves) hashes in
      let chain = layers_from-IsChain sha256 (length leaves) hashes (omega arith) (omega arith) in
      let (nodes, found, reached) = chain_proof hashes layers i chain (get-map_leaf leaves i h) in
      let some_leaves : nat_beq (length leaves) 0 ≡ false = ground arith in
      let inside : (lt_nat (pos i) 0 || not (lt_nat (pos i) (length leaves))) ≡ false =
        ground arith in
      (
        record { layers = layers; leaf_count = length leaves },
        climb sha256 (hash_leaf sha256 d) nodes,
        record { leaf_index = pos i; nodes = nodes },
        rw some_leaves refl,
        reached,
        rw (inside, found) refl,
        refl,
        ==_refl (climb sha256 (hash_leaf sha256 d) nodes),
      )
