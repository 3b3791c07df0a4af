-- ===== src/Bias/Tracking.antt =====
-- What a call of Record does to the windows of every pair (bias.go).
use pulsesyn.Prelude.{
  refl, inr, inl, nat_beq, Option-cases, if◌then◌else◌, arith, ltb, Result-cases, ok, pos, none,
  ◌≤◌, some, nat_eq, Option, false, ◌≡◌, [], ◌==◌, ℕ,
}
use pulsesyn.Text.{text_eq, normalise, trim_space, Text, CaseTable}
use pulsesyn.Float.{Float64}
use pulsesyn.Bias.Track.{record_pair, window_for, add_to, Tracker, window_key}
use pulsesyn.Bias.Window.{
  default_window_size, add, min_observations_for_bias, ValidationObservation, Window, new_window,
}
use pulsesyn.Dict.{lookup, insert}
use pulsesyn.Bias.Fifo.{added}
use pulsesyn.Text.Split.{split-injective, Lacks}

-- No ':', which joins the two parts of a window's key.
abbrev pub IsPlain : Text → Type 0
IsPlain id = Lacks 58 id

pub window_key-injective :
    (id id' d d' : Text)
    → IsPlain id
    → IsPlain id'
    → window_key id d ≡ window_key id' d'
    → (id ≡ id') × (d ≡ d')
window_key-injective = split-injective 58

-- A pair as `Record` normalises it.
pub record IsNormal ⦃u : CaseTable⦄ (id d : Text) : Type 0 where
  pub trimmed : trim_space id ≡ id
  pub domain_trimmed : trim_space d ≡ d
  pub domain_normal : normalise d ≡ d

module _ {F : Type 0} ⦃fl : Float64 F⦄ ⦃u : CaseTable⦄ where
  abbrev pub fresh : Text → Text → ℕ → Window F
  fresh id d size = record { validator_id = id; domain = d; max_size = size; entries = [] }

  new_window-fresh :
      (id d : Text) (size : ℕ)
      → IsNormal id d
      → (id == []) ≡ false
      → (d == []) ≡ false
      → min_observations_for_bias ≤ size
      → new_window {F = F} (record { validator_id = id; domain = d; max_size = pos size })
        ≡ ok (fresh id d size)
  unfolding new_window
  new_window-fresh id d size n hid hd hs =
      let big : ltb size min_observations_for_bias ≡ false = ground arith in
      let set : (if nat_beq size 0 then default_window_size else size) ≡ size = ground arith in
      rw (n.trimmed, n.domain_trimmed, n.domain_normal, hid, hd, set, big) refl

  -- A call of `Add` on a window that the map has, or is given.
  add_to-eq :
      (t : Tracker F) (key : Text) (w : Window F) (obs : ValidationObservation F)
      → (add_to t key w obs).0 ≡ record t { windows = insert key (added w obs) t.windows }
  add_to-eq t key w obs = elim (Result-cases (add w obs)) [
    | inl (w', e) ↦ rw (e, add_to, added) refl
    | inr (reason, e) ↦ rw (e, add_to, added) refl
  ]

  -- The window that `Record` adds to.
  abbrev pub found_or : Window F → Option (Window F) → Window F
  found_or w none = w
  found_or w (some found) = found

  window_for-eq :
      (t : Tracker F) (id d : Text)
      → IsNormal id d
      → (id == []) ≡ false
      → (d == []) ≡ false
      → min_observations_for_bias ≤ t.window_size
      → window_for t id d
        ≡ ok (found_or (fresh id d t.window_size) (lookup (window_key id d) t.windows))
  unfolding window_for
  window_for-eq t id d n hid hd hs = elim (Option-cases (lookup (window_key id d) t.windows)) [
    | inl missing ↦ rw (missing, window_for) (new_window-fresh id d t.window_size n hid hd hs)
    | inr (w, found) ↦ rw (found, window_for) refl
  ]

  -- `Record` stores the window after `Add`, whether it fails or not.
  pub record_pair-eq :
      (t : Tracker F) (id d : Text) (obs : ValidationObservation F)
      → IsNormal id d
      → (id == []) ≡ false
      → (d == []) ≡ false
      → min_observations_for_bias ≤ t.window_size
      → (record_pair t id d obs).0 ≡ record t {
        windows =
            insert
              (window_key id d)
              (added (found_or (fresh id d t.window_size) (lookup (window_key id d) t.windows)) obs)
              t.windows;
      }
  record_pair-eq t id d obs n hid hd hs =
      rw (hid, hd, window_for-eq t id d n hid hd hs) (add_to-eq t (window_key id d) _ obs)
