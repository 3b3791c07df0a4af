-- ===== src/Merkle/Vote.antt =====
-- HashVote (merkle.go). Strings are their bytes.
use pulsesyn.Prelude.{◌∷◌, ◌++◌}
use pulsesyn.Merkle.Tree.{Bytes}

module _ (sha256 : Bytes → Bytes) {F : Type 0} (float_bytes : F → Bytes) where
  -- What HashVote writes to the hash; `float_bytes` is `binary.Write` of a float64, big-endian.
  abbrev pub vote_bytes : Bytes → Bytes → F → F → F → Bytes
  vote_bytes validator_id verdict confidence domain_reputation bias_coefficient =
      (validator_id ++ (124 ∷ verdict))
      ++ (124
          ∷ (float_bytes confidence
              ++ (float_bytes domain_reputation ++ float_bytes bias_coefficient)))

  unfoldable pub hash_vote : Bytes → Bytes → F → F → F → Bytes
  hash_vote validator_id verdict confidence domain_reputation bias_coefficient =
      sha256 (vote_bytes validator_id verdict confidence domain_reputation bias_coefficient)
