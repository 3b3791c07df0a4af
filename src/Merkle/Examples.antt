-- ===== src/Merkle/Examples.antt =====
-- The theorems on merkle at three leaves, with a digest that pads and cuts to 32 bytes, and tests.
use pulsesyn.Prelude.{
  arith, ◌+◌, refl, ◌⊎◌, zero, ◌++◌, true, false, ap, ok, map, suc, err, some, length, ◌∷◌, ◌≡◌, [],
  pos, get_elem?, List, ℕ,
}
use pulsesyn.Text.{codes, text_eq}
use pulsesyn.Merkle.Tree.{
  padded, invalid_leaf_index, hash_leaf, sibling, pair_up, layers_from, hash_internal, proof_nodes,
  verify_proof, Bytes, Proof, root, build, generate_proof, Tree,
}
use pulsesyn.Merkle.Sound.{accepted_proof_sound, IsCollision}
use pulsesyn.Merkle.Complete.{every_leaf_proved}
use pulsesyn.Merkle.Duplicate.{repeated_last-root}
use pulsesyn.Merkle.Commit.{hash_vote-injective}

abbrev cut : ℕ → Bytes → Bytes
cut zero b = []
cut (suc n) [] = 0 ∷ cut n []
cut (suc n) (x ∷ b) = x ∷ cut n b

length-cut : (n : ℕ) (b : Bytes) → length (cut n b) ≡ n
length-cut zero b = refl
length-cut (suc n) [] = ap suc (length-cut n [])
length-cut (suc n) (x ∷ b) = ap suc (length-cut n b)

abbrev digest : Bytes → Bytes
digest b = cut 32 b

abbrev leaves : List Bytes
leaves = (7 ∷ []) ∷ (8 ∷ []) ∷ (9 ∷ []) ∷ []

abbrev tree : Tree
tree = record { layers = layers_from digest 3 (map (hash_leaf digest) leaves); leaf_count = 3 }

tree_built : build digest leaves ≡ ok tree
unfolding build
tree_built = refl

every_leaf_proved_example :
    (t : Tree) × (root_hash : Bytes) × (proof : Proof) × (build digest leaves ≡ ok t)
    × (root t ≡ ok root_hash)
    × (generate_proof t (pos 2) ≡ ok proof)
    × (proof.leaf_index ≡ pos 2)
    × (verify_proof digest root_hash (9 ∷ []) (some proof) ≡ true)
every_leaf_proved_example = every_leaf_proved digest leaves 2 refl

-- The parent of the last leaf with itself, below the root.
abbrev last_parent : Bytes
last_parent = hash_internal digest (hash_leaf digest (9 ∷ [])) (hash_leaf digest (9 ∷ []))

abbrev first_parent : Bytes
first_parent = hash_internal digest (hash_leaf digest (7 ∷ [])) (hash_leaf digest (8 ∷ []))

abbrev last_proof : Proof
last_proof = record {
  leaf_index = pos 2;
  nodes =
      record { hash = hash_leaf digest (9 ∷ []); is_left = false }
      ∷ record { hash = first_parent; is_left = true }
      ∷ [];
}

tree-root : root tree ≡ ok (hash_internal digest first_parent last_parent)
unfolding root layers_from pair_up padded
tree-root = refl

last_proof_generated : generate_proof tree (pos 2) ≡ ok last_proof
unfolding generate_proof proof_nodes sibling layers_from pair_up padded
last_proof_generated = refl

out_of_range : generate_proof tree (pos 3) ≡ err invalid_leaf_index
unfolding generate_proof
out_of_range = refl

last_proof_accepted :
    verify_proof digest (hash_internal digest first_parent last_parent) (9 ∷ []) (some last_proof)
    ≡ true
unfolding verify_proof
last_proof_accepted = refl

accepted_proof_sound_example : ((i : ℕ) × (get_elem? leaves i ≡ some (9 ∷ []))) ⊎ IsCollision digest
accepted_proof_sound_example =
    accepted_proof_sound digest (length-cut 32) leaves (9 ∷ []) (some last_proof) tree_built
      tree-root last_proof_accepted

repeated_last-root_example :
    (t : Tree) × (t' : Tree) × (build digest leaves ≡ ok t)
    × (build digest (leaves ++ ((9 ∷ []) ∷ [])) ≡ ok t')
    × (root t ≡ root t')
    × (t'.leaf_count ≡ t.leaf_count + 1)
repeated_last-root_example = repeated_last-root digest leaves (omega arith) refl

-- Two of the doubles, 0.0 and 0.5, in their eight bytes.
data Sample : Type 0 where
  nothing half : Sample

abbrev sample_bytes : Sample → Bytes
sample_bytes nothing = cut 8 []
sample_bytes half = cut 8 (63 ∷ 224 ∷ [])

length-sample_bytes : (x : Sample) → length (sample_bytes x) ≡ 8
length-sample_bytes nothing = refl
length-sample_bytes half = refl

sample_bytes-injective : (x y : Sample) → sample_bytes x ≡ sample_bytes y → x ≡ y
sample_bytes-injective nothing nothing h = refl
sample_bytes-injective nothing half h = cc
sample_bytes-injective half nothing h = cc
sample_bytes-injective half half h = refl

hash_vote-injective_example :
    ((codes "v1" ≡ codes "v1")
      × (codes "MISLEADING" ≡ codes "MISLEADING")
      × (half ≡ half)
      × (nothing ≡ nothing)
      × (half ≡ half))
    ⊎ IsCollision digest
hash_vote-injective_example =
    hash_vote-injective digest sample_bytes length-sample_bytes sample_bytes-injective (codes "v1")
      (codes "v1") (codes "MISLEADING") (codes "MISLEADING") half half nothing nothing half half
      ground arith ground arith refl
