-- ===== src/Store/Keys.antt =====
-- The keys of records and indexes (keys.go).
use pulsesyn.Prelude.{◌∷◌, ◌%◌, ◌/◌, ◌+◌, length, ◌++◌, [], suc, drop, ltb, if◌then◌else◌, ℕ, zero}
use pulsesyn.Text.{codes, Text, text_eq}

abbrev pub prefix_claim : Text
prefix_claim = codes "claim/"

abbrev pub prefix_validator : Text
prefix_validator = codes "validator/"

abbrev pub prefix_validation : Text
prefix_validation = codes "validation/"

abbrev pub prefix_vote : Text
prefix_vote = codes "vote/"

abbrev pub prefix_idx_domain : Text
prefix_idx_domain = codes "idx/domain/"

abbrev pub prefix_idx_epoch : Text
prefix_idx_epoch = codes "idx/epoch/"

abbrev pub prefix_idx_vote_by_validator : Text
prefix_idx_vote_by_validator = codes "idx/vote_by_validator/"

abbrev pub slash : Text
slash = codes "/"

abbrev pub hex_digit : ℕ → ℕ
hex_digit d = if ltb d 10 then d + 48 else d + 87

-- The last `width` hexadecimal digits, in front of `rest`.
unfoldable pub hex : ℕ → ℕ → Text → Text
hex zero n rest = rest
hex (suc width) n rest = hex width (n / 16) (hex_digit (n % 16) ∷ rest)

-- `%016x` of a uint64, which has no more than 16 digits
abbrev pub hex16 : ℕ → Text
hex16 n = hex 16 n []

abbrev pub claim_key : Text → Text
claim_key claim_id = prefix_claim ++ claim_id

abbrev pub validator_key : Text → Text
validator_key validator_id = prefix_validator ++ validator_id

abbrev pub validation_key : Text → Text
validation_key claim_id = prefix_validation ++ claim_id

abbrev pub vote_prefix : Text → Text
vote_prefix claim_id = prefix_vote ++ (claim_id ++ slash)

abbrev pub vote_key : Text → Text → Text
vote_key claim_id validator_id = vote_prefix claim_id ++ validator_id

abbrev pub domain_prefix : Text → Text
domain_prefix domain = prefix_idx_domain ++ (domain ++ slash)

abbrev pub idx_domain_key : Text → Text → Text
idx_domain_key domain claim_id = domain_prefix domain ++ claim_id

abbrev pub epoch_prefix : ℕ → Text
epoch_prefix epoch = prefix_idx_epoch ++ (hex16 epoch ++ slash)

abbrev pub idx_epoch_key : ℕ → Text → Text
idx_epoch_key epoch claim_id = epoch_prefix epoch ++ claim_id

abbrev pub by_validator_prefix : Text → Text
by_validator_prefix validator_id = prefix_idx_vote_by_validator ++ (validator_id ++ slash)

abbrev pub idx_vote_by_validator_key : Text → Text → Text
idx_vote_by_validator_key validator_id claim_id = by_validator_prefix validator_id ++ claim_id

-- What is left of a key after its prefix.
abbrev pub claim_id_from_index : Text → Text → Text
claim_id_from_index prefix key = drop (length prefix) key
