-- ===== src/Bias/Clash.antt =====
-- Two pairs of a validator and a domain that share a window (bias.go).
use pulsesyn.Prelude.{none, some, Option, refl, sym, ◌≡◌, ◌++◌}
use pulsesyn.Float.{Float64}
use pulsesyn.Text.{codes, CaseTable, Text}
use pulsesyn.Bias.Track.{bias_of, Tracker, bias_for, observation_count, window_key}
use pulsesyn.Bias.Tracking.{IsNormal}
use mathlib.Core.List.{append_assoc}
use pulsesyn.Bias.Window.{Window}

-- The key of `id` and `x:d` is the key of `id:x` and `d`.
window_key-clash :
    (id x d : Text) → window_key id (x ++ (codes ":" ++ d)) ≡ window_key (id ++ (codes ":" ++ x)) d
window_key-clash id x d = sym (append_assoc id (codes ":" ++ x) (codes ":" ++ d))

module _ {F : Type 0} ⦃fl : Float64 F⦄ ⦃u : CaseTable⦄ where
  bias_of-coefficient :
      (id d id' d' : Text) (o : Option (Window F))
      → (bias_of id d o).coefficient ≡ (bias_of id' d' o).coefficient
  bias_of-coefficient id d id' d' none = refl
  bias_of-coefficient id d id' d' (some w) = refl

  -- On every tracker the validator `id` in the domain `x:d` has the same count of observations and the same
  -- coefficient as the validator `id:x` in the domain `d`, where these four are normalised.
  pub pairs_clash :
      (t : Tracker F) (id x d : Text)
      → IsNormal id (x ++ (codes ":" ++ d))
      → IsNormal (id ++ (codes ":" ++ x)) d
      → (observation_count t id (x ++ (codes ":" ++ d))
          ≡ observation_count t (id ++ (codes ":" ++ x)) d)
        × ((bias_for t id (x ++ (codes ":" ++ d))).coefficient
            ≡ (bias_for t (id ++ (codes ":" ++ x)) d).coefficient)
  unfolding observation_count bias_for
  pairs_clash t id x d n n' =
      rw (n.trimmed, n.domain_normal, n'.trimmed, n'.domain_normal, window_key-clash id x d)
        (refl, bias_of-coefficient id (x ++ (codes ":" ++ d)) (id ++ (codes ":" ++ x)) d _)
