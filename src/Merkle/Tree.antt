-- ===== src/Merkle/Tree.antt =====
-- Build, Root, GenerateProof and VerifyProof (merkle.go). SHA-256 is a parameter.
use pulsesyn.Text.{text_eq}
use pulsesyn.Prelude.{
  true, to_nat, not, ◌-◌, zero, map, ltb, ◌||◌, length, err, ◌/◌, ◌%◌, lt_nat, ◌==◌, some, fail_if,
  ◌>>=◌, suc, none, nat_beq, ok, get_elem?, if◌then◌else◌, ◌>>◌, ◌++◌, false, [], List, ◌∷◌, ℤ,
  Bool, Option, Result, ℕ,
}

abbrev pub Bytes : Type 0
Bytes = List ℕ

-- The sentinel errors, and the panic of an index out of range.
pub data MerkleError : Type 0 where
  no_leaves invalid_leaf_index index_panic : MerkleError

pub record Tree : Type 0 where
  pub layers : List (List Bytes)
  pub leaf_count : ℕ

pub record ProofNode : Type 0 where
  pub hash : Bytes
  pub is_left : Bool

pub record Proof : Type 0 where
  pub leaf_index : ℤ
  pub nodes : List ProofNode

-- `current[len(current)-1]`, for the padding
abbrev pub last_of : List Bytes → List Bytes
last_of [] = []
last_of (x ∷ []) = x ∷ []
last_of (x ∷ y ∷ xs) = last_of (y ∷ xs)

unfoldable pub padded : List Bytes → List Bytes
padded current = if nat_beq (length current % 2) 0 then current else current ++ last_of current

-- `layer[i]`
abbrev pub index : List Bytes → ℕ → Result MerkleError Bytes
index layer i = elim (get_elem? layer i) [ none ↦ err index_panic | some hash ↦ ok hash ]

-- The sibling of the node `idx` of a layer.
unfoldable pub sibling : List Bytes → ℕ → Result MerkleError ProofNode
sibling layer idx =
    if nat_beq (idx % 2) 0
    then (do
      hash ← index layer (if ltb (suc idx) (length layer) then suc idx else idx)
      ok (record { hash = hash; is_left = false }))
    else (do hash ← index layer (idx - 1); ok (record { hash = hash; is_left = true }))

-- The loop over the levels below the top.
unfoldable pub proof_nodes : List (List Bytes) → ℕ → Result MerkleError (List ProofNode)
proof_nodes [] idx = ok []
proof_nodes (layer ∷ []) idx = ok []
proof_nodes (layer ∷ above ∷ layers) idx = do
  node ← sibling layer idx
  nodes ← proof_nodes (above ∷ layers) (idx / 2)
  ok (node ∷ nodes)

unfoldable pub generate_proof : Tree → ℤ → Result MerkleError Proof
generate_proof t leaf_index = do
  fail_if (lt_nat leaf_index 0 || not (lt_nat leaf_index t.leaf_count)) invalid_leaf_index
  nodes ← proof_nodes t.layers (to_nat leaf_index)
  ok (record { leaf_index = leaf_index; nodes = nodes })

-- `t.layers[len(t.layers)-1]`
abbrev pub top_layer : List (List Bytes) → List Bytes
top_layer [] = []
top_layer (layer ∷ []) = layer
top_layer (layer ∷ above ∷ layers) = top_layer (above ∷ layers)

unfoldable pub root : Tree → Result MerkleError Bytes
root t = index (top_layer t.layers) 0

module _ (sha256 : Bytes → Bytes) where
  abbrev pub hash_leaf : Bytes → Bytes
  hash_leaf data_bytes = sha256 (0 ∷ data_bytes)

  abbrev pub hash_internal : Bytes → Bytes → Bytes
  hash_internal left right = sha256 (1 ∷ (left ++ right))

  -- `for i := 0; i < len(working); i += 2`
  unfoldable pub pair_up : List Bytes → List Bytes
  pair_up (x ∷ y ∷ xs) = hash_internal x y ∷ pair_up xs
  pair_up xs = []

  abbrev pub next_layer : List Bytes → List Bytes
  next_layer current = pair_up (padded current)

  -- The loop of Build; each round but the last makes the layer shorter.
  unfoldable pub layers_from : ℕ → List Bytes → List (List Bytes)
  layers_from zero current = []
  layers_from (suc fuel) current =
      let above = layers_from fuel (next_layer current) in
      current ∷ (if nat_beq (length current) 1 then [] else above)

  unfoldable pub build : List Bytes → Result MerkleError Tree
  build leaves = do
    fail_if (nat_beq (length leaves) 0) no_leaves
    ok (record {
      layers = layers_from (length leaves) (map hash_leaf leaves);
      leaf_count = length leaves;
    })

  abbrev pub climb : Bytes → List ProofNode → Bytes
  climb current [] = current
  climb current (node ∷ nodes) =
      climb
        (if node.is_left then hash_internal node.hash current else hash_internal current node.hash)
        nodes

  -- A nil proof is `none`.
  unfoldable pub verify_proof : Bytes → Bytes → Option Proof → Bool
  verify_proof root_hash leaf_data none = false
  verify_proof root_hash leaf_data (some proof) =
      climb (hash_leaf leaf_data) proof.nodes == root_hash
