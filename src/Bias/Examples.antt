-- ===== src/Bias/Examples.antt =====
-- The theorems on core/bias at concrete observations, and tests.
use pulsesyn.Prelude.{arith, refl, ◌∷◌, ◌++◌, [], ok, ◌≡◌, pos, List}
use pulsesyn.Float.Fixed.{fixed_float}
use pulsesyn.Text.{ascii-IsCaseTable, normalise, codes, trim_space, Text, ascii}
use pulsesyn.Bias.Window.{
  high, deviation, is_eligible_for_domain, total_deviation, validate_observation, classify_tier,
  new_window, compute_bias, add, Window, ValidationObservation,
}
use pulsesyn.Bias.Fifo.{add_all-window, accepted, take_last, add_all}
use pulsesyn.Float.{IsUnit}
use pulsesyn.Bias.Track.{
  window_for, record_observation, bias_for, observation_count, new_tracker, Tracker,
}
use pulsesyn.Verdict.{unsupported, supported, misleading, other, VerdictState}
use pulsesyn.Bias.Refine.{tracker_refines, window_of, record_all, Call}
use pulsesyn.Float.WithNan.{num-IsIeee, with_nan, Num}
use pulsesyn.Bias.Coefficient.{compute_bias-InRange, admits}
use pulsesyn.Bias.Clash.{pairs_clash}
use pulsesyn.Dict.{insert, lookup}

abbrev seen : VerdictState → ValidationObservation Num
seen verdict = record {
  claim_id = codes "c";
  validator_verdict = verdict;
  population_average_score = with_nan.ratio 1 4;
}

-- Refused: the verdict is not one of the four.
abbrev garbled : ValidationObservation Num
garbled = seen (other (codes "MAYBE"))

abbrev five : List (ValidationObservation Num)
five = seen supported ∷ seen supported ∷ seen unsupported ∷ seen misleading ∷ seen supported ∷ []

abbrev six : List (ValidationObservation Num)
six = seen misleading ∷ garbled ∷ five

abbrev empty_window : Window Num
empty_window = record {
  validator_id = codes "v";
  domain = codes "health";
  max_size = 5;
  entries = [];
}

empty_window_made :
    new_window (record { validator_id = codes "v "; domain = codes "Health"; max_size = pos 5 })
    ≡ ok empty_window
unfolding new_window trim_space normalise
empty_window_made = refl

abbrev full_window : Window Num
full_window = record empty_window { entries = five }

-- The mean of 0.75, 0.75, 0.25, 0.25 and 0.75.
full_window_bias : classify_tier (compute_bias full_window).coefficient ≡ high
unfolding compute_bias classify_tier total_deviation deviation
full_window_bias = refl

compute_bias-InRange_example :
    IsUnit (compute_bias full_window).coefficient
    × IsUnit (compute_bias full_window).correction_factor
    × ((compute_bias full_window).tier ≡ classify_tier (compute_bias full_window).coefficient)
    × (is_eligible_for_domain (compute_bias full_window) ≡ admits (compute_bias full_window).tier)
compute_bias-InRange_example =
    compute_bias-InRange num-IsIeee full_window ground arith (omega arith)

add_all-window_example :
    add_all empty_window six ≡ record empty_window { entries = take_last 5 ([] ++ accepted six) }
add_all-window_example = add_all-window empty_window six (omega arith) (omega arith)

-- The first observation is evicted, and the garbled one is not kept.
last_five : add_all empty_window six ≡ full_window
unfolding add validate_observation trim_space
last_five = refl

abbrev start : Tracker Num
start = record { window_size = 5; windows = [] }

start_made : new_tracker (pos 5) ≡ ok start
unfolding new_tracker
start_made = refl

abbrev call : Text → Text → ValidationObservation Num → Call Num
call id domain obs = record { validator_id = id; domain = domain; obs = obs }

abbrev calls : List (Call Num)
calls =
    call (codes "v") (codes "Health") (seen supported)
    ∷ call (codes "w") (codes "health") (seen misleading)
    ∷ call (codes " v") (codes "health") garbled
    ∷ call (codes "v ") (codes " health") (seen unsupported)
    ∷ []

tracker_refines_example :
    (bias_for (record_all start calls) (codes "v") (codes "health")
      ≡ compute_bias
          (window_of 5 (codes "v") (codes "health") (seen supported ∷ seen unsupported ∷ [])))
    × (observation_count (record_all start calls) (codes "v") (codes "health") ≡ 2)
unfolding trim_space normalise validate_observation
tracker_refines_example =
    tracker_refines ascii-IsCaseTable (pos 5) calls (codes "v") (codes "health") start_made ground
      arith ground arith

abbrev shared : Tracker Num
shared = record_all start (call (codes "a:b") (codes "c") (seen supported) ∷ [])

pairs_clash_example :
    (observation_count shared (codes "a") (codes "b:c")
      ≡ observation_count shared (codes "a:b") (codes "c"))
    × ((bias_for shared (codes "a") (codes "b:c")).coefficient
        ≡ (bias_for shared (codes "a:b") (codes "c")).coefficient)
unfolding trim_space normalise
pairs_clash_example =
    pairs_clash shared (codes "a") (codes "b") (codes "c")
      (record { trimmed = refl; domain_trimmed = refl; domain_normal = refl })
      (record { trimmed = refl; domain_trimmed = refl; domain_normal = refl })

-- The observation of the one validator is counted for the other.
shared_count : observation_count shared (codes "a") (codes "b:c") ≡ 1
unfolding observation_count record_observation window_for new_window add validate_observation lookup
    insert trim_space normalise
shared_count = refl
