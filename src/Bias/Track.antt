-- ===== src/Bias/Track.antt =====
-- The tracker, one window for each pair of a validator and a domain (bias.go).
use pulsesyn.Prelude.{
  to_nat, err, lt_nat, pos, fail_if, [], length, ◌>>◌, ok, ◌==◌, none, some, if◌then◌else◌, Option,
  ◌++◌, Result, ℤ, List, ℕ,
}
use pulsesyn.Float.{Float64}
use pulsesyn.Text.{text_eq, normalise, trim_space, codes, CaseTable, Text}
use pulsesyn.Bias.Window.{
  invalid_window_size, min_observations_for_bias, new_window, compute_bias, no_bias,
  size_or_default, add, ValidationObservation, BiasError, BiasResult, Window,
}
use pulsesyn.Dict.{insert, lookup}
use pulsesyn.Bias.Window.{validator_id_empty, domain_empty}

pub record Tracker (F : Type 0) : Type 0 where
  pub window_size : ℕ
  pub windows : List (Text × Window F)

unfoldable pub new_tracker : {F : Type 0} → ℤ → Result BiasError (Tracker F)
new_tracker window_size = do
  let size = size_or_default window_size
  fail_if (lt_nat size min_observations_for_bias) invalid_window_size
  ok (record { window_size = to_nat size; windows = [] })

-- `validatorID + ":" + domain`
abbrev pub window_key : Text → Text → Text
window_key validator_id domain = validator_id ++ (codes ":" ++ domain)

module _ {F : Type 0} ⦃fl : Float64 F⦄ ⦃u : CaseTable⦄ where
  -- `w, ok := t.windows[key]`, with a new window where there is none.
  unfoldable pub window_for : Tracker F → Text → Text → Result BiasError (Window F)
  window_for t validator_id domain = elim (lookup (window_key validator_id domain) t.windows) [
    | none ↦
        new_window
          (record { validator_id = validator_id; domain = domain; max_size = pos t.window_size })
    | some w ↦ ok w
  ]

  -- The map holds pointers, so `w.Add` changes the window in the map. The window that `Record` made
  -- stays there where `Add` fails.
  abbrev pub add_to :
      Tracker F
      → Text
      → Window F
      → ValidationObservation F
      → Tracker F × Result BiasError (Unit {0})
  add_to t key w obs = elim (add w obs) [
    | ok w' ↦ (record t { windows = insert key w' t.windows }, ok tt)
    | err e ↦ (record t { windows = insert key w t.windows }, err e)
  ]

  -- The body of `Record` after its first two assignments.
  abbrev pub record_pair :
      Tracker F → Text → Text → ValidationObservation F → Tracker F × Result BiasError (Unit {0})
  record_pair t validator_id domain obs =
      if validator_id == []
      then (t, err validator_id_empty)
      else if domain == []
      then (t, err domain_empty)
      else elim (window_for t validator_id domain) [
        | ok w ↦ add_to t (window_key validator_id domain) w obs
        | err e ↦ (t, err e)
      ]

  -- `Record`
  unfoldable pub record_observation :
      Tracker F → Text → Text → ValidationObservation F → Tracker F × Result BiasError (Unit {0})
  record_observation t validator_id domain obs =
      record_pair t (trim_space validator_id) (normalise domain) obs

  -- The result of the window that a lookup found.
  abbrev pub bias_of : Text → Text → Option (Window F) → BiasResult F
  bias_of validator_id domain none = no_bias validator_id domain 0
  bias_of validator_id domain (some w) = compute_bias w

  unfoldable pub bias_for : Tracker F → Text → Text → BiasResult F
  bias_for t validator_id domain =
      let id = trim_space validator_id in
      let d = normalise domain in bias_of id d (lookup (window_key id d) t.windows)

  -- `Len` of the window that a lookup found.
  abbrev pub count_of : Option (Window F) → ℕ
  count_of none = 0
  count_of (some w) = length w.entries

  unfoldable pub observation_count : Tracker F → Text → Text → ℕ
  observation_count t validator_id domain =
      count_of (lookup (window_key (trim_space validator_id) (normalise domain)) t.windows)
