-- ===== src/Reputation/Scores.antt =====
-- Scores stay in [0, 1]: the clamp, the average of the domains, and the internal write.
use pulsesyn.Prelude.{◌⊎◌, nat_eq, false, ◌==◌, [], suc, ◌∷◌, ◌<◌, ◌≤◌, length, ◌+◌, arith, ◌≡◌, ℕ}
use pulsesyn.Float.{◌⊕◌, one, to_float, max_exact, nought, IsUnit, ◌≼◌, IsIeee, Float64}
use pulsesyn.Reputation.Record.{
  reputation_ceiling, DomainReputation, reputation_floor, clamp, compute_global_reputation,
  with_updated_domain_score, sum_scores, ValidatorRecord,
}
use pulsesyn.Dict.{length-insert, insert, insert-AllValues, AllValues}
use pulsesyn.Text.{text_eq, Text}
use pulsesyn.Float.Order.{
  le_of_lt, to_float-pos, add_nonneg, nought_refl, nought-IsUnit, not-lt_of_le, ratio-IsUnit,
  le_of_not-lt,
}

module _ {F : Type 0} ⦃fl : Float64 F⦄ where
  -- All domain scores and the global reputation are in [0, 1].
  pub record IsValid (r : ValidatorRecord F) : Type 0 where
    pub scores : AllValues IsUnit r.domain_scores
    pub global : IsUnit r.global_reputation

  module _ (laws : IsIeee F) where
    -- A number is clamped into the interval; inside it, it stays; outside, it becomes the nearer end.
    pub clamp_bounds : (v lo hi : F) → v ≼ v → lo ≼ hi → (lo ≼ clamp v lo hi) × (clamp v lo hi ≼ hi)
    unfolding clamp
    clamp_bounds v lo hi hv h =
        let (hlo, hhi) = laws.refl_of_le lo hi h in
        ground (arith, le_of_not-lt laws v lo hv hlo, le_of_not-lt laws hi v hhi hv)

    pub clamp_inside : (v lo hi : F) → lo ≼ v → v ≼ hi → clamp v lo hi ≡ v
    unfolding clamp
    clamp_inside v lo hi h k = rw (not-lt_of_le laws v lo h, not-lt_of_le laws hi v k)

    -- A clamped rise does not fall, and a clamped fall does not rise, except to the lower end.
    pub le-clamp : (x v lo hi : F) → x ≼ v → x ≼ hi → x ≼ clamp v lo hi
    unfolding clamp
    le-clamp x v lo hi h k = ground (arith, laws.le_trans x v lo h, le_of_lt laws v lo)

    pub clamp-le : (x v lo hi : F) → v ≼ x → x ≼ hi → (clamp v lo hi ≼ x) ⊎ (clamp v lo hi ≡ lo)
    unfolding clamp
    clamp-le x v lo hi h k = ground (arith, not-lt_of_le laws hi v (laws.le_trans v x hi h k))

    pub floor-le-one : ◌≼◌ {F = F} reputation_floor reputation_ceiling
    floor-le-one = (ratio-IsUnit laws 15 100 (omega arith) (omega arith)).1

    pub nought-le-floor : ◌≼◌ {F = F} nought reputation_floor
    nought-le-floor = (ratio-IsUnit laws 15 100 (omega arith) (omega arith)).0

    sum_scores-le :
        (n : ℕ) (sum : F) (scores : DomainReputation F)
        → n + length scores ≤ max_exact
        → nought ≼ sum
        → sum ≼ to_float n
        → AllValues IsUnit scores
        → (nought ≼ sum_scores sum scores) × (sum_scores sum scores ≼ to_float (n + length scores))
    unfolding sum_scores
    sum_scores-le n sum [] hn h k _ = let e : n + 0 ≡ n = omega arith in rw e (h, k)
    sum_scores-le n sum ((d, v) ∷ scores) hn h k (u, us) =
        let e : n + suc (length scores) ≡ n + 1 + length scores = omega arith in
        rw e (
          sum_scores-le (n + 1) (sum ⊕ v) scores (omega arith) (add_nonneg laws sum v h u.0)
            (laws.add_count n sum v (omega arith) h k u) us)

    -- The average of scores in [0, 1] is in [0, 1], in whatever order the map is visited.
    pub compute_global_reputation-IsUnit :
        (scores : DomainReputation F)
        → length scores ≤ max_exact
        → AllValues IsUnit scores
        → IsUnit (compute_global_reputation scores)
    unfolding compute_global_reputation
    compute_global_reputation-IsUnit [] hn us = nought-IsUnit laws
    compute_global_reputation-IsUnit (p ∷ scores) hn us =
        let n = length (p ∷ scores) in
        let e : 0 + n ≡ n = omega arith in
        let (ge, le) =
          sum_scores-le 0 nought (p ∷ scores) (omega arith) (nought_refl laws) (nought_refl laws)
            us in
        let some_scores : (n == 0) ≡ false = ground arith in
        rw some_scores (
          laws.div_unit (sum_scores nought (p ∷ scores)) (to_float n) ge (rw e at le)
            (to_float-pos laws n (omega arith))
            (laws.ratio_le n 1 max_exact 1 (omega arith) (omega arith) (omega arith)))

    pub with_updated-IsValid :
        (r : ValidatorRecord F) (d : Text) (s : F)
        → IsValid r
        → s ≼ s
        → length r.domain_scores < max_exact
        → IsValid (with_updated_domain_score r d s)
    unfolding with_updated_domain_score
    with_updated-IsValid r d s h hs hn =
        let c = clamp s nought reputation_ceiling in
        let u : IsUnit c = clamp_bounds s nought one hs (nought-IsUnit laws).1 in
        let all = insert-AllValues IsUnit d c r.domain_scores u h.scores in
        record {
          scores = all;
          global =
              compute_global_reputation-IsUnit (insert d c r.domain_scores)
                (omega (arith, length-insert d c r.domain_scores)) all;
        }
