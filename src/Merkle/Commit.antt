-- ===== src/Merkle/Commit.antt =====
-- HashVote commits to all fields of a vote (merkle.go).
use pulsesyn.Prelude.{
  refl, ap, [], inr, length-append, inl, sym, ◌∙◌, ◌⊎◌, arith, false, ◌≡◌, nat_beq, ◌∷◌, ◌++◌,
  length, All,
}
use pulsesyn.Merkle.Tree.{Bytes}
use pulsesyn.Merkle.Vote.{vote_bytes, hash_vote}
use pulsesyn.Merkle.Sound.{same_text, IsCollision, append-injective}
use mathlib.Core.Path.{subst}

-- No '|', which ends the two strings.
abbrev pub IsBarless : Bytes → Type 0
IsBarless s = All (λ c. (nat_beq c 124) ≡ false) s

barless-append : (s t : Bytes) → IsBarless (s ++ (124 ∷ t)) → ⊥
barless-append [] t (h, _) = ground arith
barless-append (c ∷ s) t (_, h) = barless-append s t h

-- The last '|' parts a text in one way.
last_bar-injective :
    (a b s t : Bytes)
    → IsBarless s
    → IsBarless t
    → a ++ (124 ∷ s) ≡ b ++ (124 ∷ t)
    → (a ≡ b) × (s ≡ t)
last_bar-injective [] [] s t hs ht e = (refl, cc)
last_bar-injective [] (c ∷ b) s t hs ht e =
    let tails : s ≡ b ++ (124 ∷ t) = cc in absurd (barless-append b t (subst IsBarless tails hs))
last_bar-injective (c ∷ a) [] s t hs ht e =
    let tails : a ++ (124 ∷ s) ≡ t = cc in
    absurd (barless-append a s (subst IsBarless (sym tails) ht))
last_bar-injective (c ∷ a) (c' ∷ b) s t hs ht e =
    let tails : a ++ (124 ∷ s) ≡ b ++ (124 ∷ t) = cc in
    let (fronts, backs) = last_bar-injective a b s t hs ht tails in (cc, backs)

module _ (sha256 : Bytes → Bytes) {F : Type 0} (float_bytes : F → Bytes)
    (eight : (x : F) → length (float_bytes x) ≡ 8)
    (one_to_one : (x y : F) → float_bytes x ≡ float_bytes y → x ≡ y) where
  floats-injective :
      (c c' r r' b b' : F)
      → float_bytes c ++ (float_bytes r ++ float_bytes b)
        ≡ float_bytes c' ++ (float_bytes r' ++ float_bytes b')
      → (c ≡ c') × (r ≡ r') × (b ≡ b')
  floats-injective c c' r r' b b' e =
      let (first, rest) =
        append-injective (float_bytes c) _ (float_bytes c') _ (eight c ∙ sym (eight c')) e in
      let (second, third) =
        append-injective (float_bytes r) _ (float_bytes r') _ (eight r ∙ sym (eight r')) rest in
      (one_to_one c c' first, one_to_one r r' second, one_to_one b b' third)

  floats-length :
      (c r b : F) → length (124 ∷ (float_bytes c ++ (float_bytes r ++ float_bytes b))) ≡ 25
  floats-length c r b =
      let whole = length-append (float_bytes c) (float_bytes r ++ float_bytes b) in
      let rest = length-append (float_bytes r) (float_bytes b) in
      omega (arith, eight c, eight r, eight b)

  -- If a float64 is written in eight bytes from which it can be read back, and the verdicts have no '|' in them, then
  -- two votes with one hash agree in all five fields, or SHA-256 has a collision.
  pub hash_vote-injective :
      (id id' v v' : Bytes) (c c' r r' b b' : F)
      → IsBarless v
      → IsBarless v'
      → hash_vote sha256 float_bytes id v c r b ≡ hash_vote sha256 float_bytes id' v' c' r' b'
      → ((id ≡ id') × (v ≡ v') × (c ≡ c') × (r ≡ r') × (b ≡ b')) ⊎ IsCollision sha256
  unfolding hash_vote
  hash_vote-injective id id' v v' c c' r r' b b' hv hv' e =
      elim (same_text sha256 (vote_bytes sha256 float_bytes id v c r b)
        (vote_bytes sha256 float_bytes id' v' c' r' b') e) [
          | inl same ↦
              let front = id ++ (124 ∷ v) in
              let front' = id' ++ (124 ∷ v') in
              let floats = 124 ∷ (float_bytes c ++ (float_bytes r ++ float_bytes b)) in
              let floats' = 124 ∷ (float_bytes c' ++ (float_bytes r' ++ float_bytes b')) in
              let total : length (front ++ floats) ≡ length (front' ++ floats') = ap length same in
              let parts = length-append front floats in
              let parts' = length-append front' floats' in
              let fixed = floats-length c r b in
              let fixed' = floats-length c' r' b' in
              let (fronts, backs) =
                append-injective front floats front' floats' (omega arith) same in
              let (ids, vs) = last_bar-injective id id' v v' hv hv' fronts in
              let (cs, rs, bs) = floats-injective c c' r r' b b' cc in inl (ids, vs, cs, rs, bs)
          | inr collision ↦ inr collision
        ]
