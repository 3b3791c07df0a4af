-- ===== src/Bias/Refine.antt =====
-- The tracker refines a history of calls of Record for each pair (bias.go).
use pulsesyn.Prelude.{
  negsuc, pos, ◌∙◌, sym, none, some, arith, ◌-◌, refl, ◌++◌, length, All, ◌≤◌, ok, ◌≡◌, ℤ,
  if◌then◌else◌, [], Option, ◌∷◌, List, ℕ,
}
use pulsesyn.Float.{Float64}
use pulsesyn.Text.{text_eq, normalise, trim_space, IsCaseTable, Text, CaseTable}
use pulsesyn.Bias.Window.{min_observations_for_bias, Window, ValidationObservation, compute_bias}
use pulsesyn.Bias.Track.{
  window_key, record_pair, count_of, bias_of, observation_count, bias_for, record_observation,
  new_tracker, Tracker,
}
use pulsesyn.Bias.Tracking.{IsPlain, fresh, IsNormal}
use pulsesyn.Bias.Pairs.{record_pair-size, record_pair-view, view, is_call_of, Holds}
use pulsesyn.Bias.Fifo.{drop_empty, admitted, take_last}
use pulsesyn.Text.Trim.{normalise_idem, trim_space-normalise, trim_space_idem}
use mathlib.Core.List.{append_assoc, append-nil}
use mathlib.Core.Path.{subst}
use pulsesyn.Dict.{lookup}

-- A call of `Record`.
pub record Call (F : Type 0) : Type 0 where
  pub validator_id : Text
  pub domain : Text
  pub obs : ValidationObservation F

pair-IsNormal :
    ⦃u : CaseTable⦄ → IsCaseTable u → (id d : Text) → IsNormal (trim_space id) (normalise d)
pair-IsNormal case_laws id d = record {
  trimmed = trim_space_idem id;
  domain_trimmed = trim_space-normalise case_laws d;
  domain_normal = normalise_idem case_laws d;
}

module _ {F : Type 0} ⦃fl : Float64 F⦄ ⦃u : CaseTable⦄ where
  abbrev pub record_all : Tracker F → List (Call F) → Tracker F
  record_all t [] = t
  record_all t (c ∷ calls) = record_all (record_observation t c.validator_id c.domain c.obs).0 calls

  -- The accepted observations of a pair among the calls, in their order.
  abbrev pub history_of : List (Call F) → Text → Text → List (ValidationObservation F)
  history_of [] id d = []
  history_of (c ∷ calls) id d =
      (if is_call_of (trim_space c.validator_id) (normalise c.domain) id d
        then admitted c.obs
        else [])
      ++ history_of calls id d

  -- What the tracker should answer of a pair with this history.
  abbrev pub window_of : ℕ → Text → Text → List (ValidationObservation F) → Window F
  window_of size id d history = record (fresh id d size) { entries = take_last size history }

  bias_of-Holds :
      (size : ℕ) (id d : Text) (history : List (ValidationObservation F)) (o : Option (Window F))
      → Holds size id d history o
      → (bias_of id d o ≡ compute_bias (window_of size id d history))
        × (count_of o ≡ length (take_last size history))
  unfolding compute_bias
  bias_of-Holds size id d history none h = rw (h, drop_empty (0 - size)) (refl, refl)
  bias_of-Holds size id d history (some w) h = rw h (refl, refl)

  module _ (case_laws : IsCaseTable u) where
    record_all-view :
        (t : Tracker F) (calls : List (Call F)) (id d : Text) (size : ℕ)
        (history : List (ValidationObservation F))
        → t.window_size ≡ size
        → min_observations_for_bias ≤ size
        → All (λ c. IsPlain (trim_space c.validator_id)) calls
        → IsPlain id
        → Holds size id d history (view t id d)
        → Holds size id d (history ++ history_of calls id d) (view (record_all t calls) id d)
    unfolding record_observation
    record_all-view t [] id d size history e hs _ hid h = rw (append-nil history) h
    record_all-view t (c ∷ calls) id d size history e hs (plain, plains) hid h =
        let vid = trim_space c.validator_id in
        let dom = normalise c.domain in
        let n = pair-IsNormal case_laws c.validator_id c.domain in
        let big : min_observations_for_bias ≤ t.window_size = omega arith in
        let t' = (record_pair t vid dom c.obs).0 in
        let new = if is_call_of vid dom id d then admitted c.obs else [] in
        let now =
          record_pair-view t vid dom c.obs n plain big id d history hid
            (subst (λ k. Holds k id d history (view t id d)) (sym e) h) in
        let later =
          record_all-view t' calls id d size (history ++ new)
            (record_pair-size t vid dom c.obs n plain big ∙ e) hs plains hid
            (subst (λ k. Holds k id d (history ++ new) (view t' id d)) e now) in
        rw (← append_assoc history new (history_of calls id d)) later

    new_tracker-eq :
        (window_size : ℤ) {t : Tracker F}
        → new_tracker window_size ≡ ok t
        → (t.windows ≡ []) × (min_observations_for_bias ≤ t.window_size)
    unfolding new_tracker
    new_tracker-eq (pos n) h = ground arith
    new_tracker-eq (negsuc n) h = ground arith

    -- From a new tracker, after any calls of `Record`, accepted or not, the answer on a pair is computed from the
    -- last `windowSize` accepted observations of that very pair, in their order, and
    -- `ObservationCount` is their number: provided that no validator id has a ':' in it.
    pub tracker_refines :
        (window_size : ℤ) {t : Tracker F} (calls : List (Call F)) (id d : Text)
        → new_tracker window_size ≡ ok t
        → All (λ c. IsPlain (trim_space c.validator_id)) calls
        → IsPlain (trim_space id)
        → (bias_for (record_all t calls) id d
            ≡ compute_bias (
                window_of t.window_size
                  (trim_space id)
                  (normalise d)
                  (history_of calls (trim_space id) (normalise d))))
          × (observation_count (record_all t calls) id d
              ≡ length (take_last t.window_size (history_of calls (trim_space id) (normalise d))))
    unfolding bias_for observation_count lookup
    tracker_refines window_size {t} calls id d h plains hid =
        let (empty, big) = new_tracker-eq window_size h in
        let key = window_key (trim_space id) (normalise d) in
        let start : Holds t.window_size (trim_space id) (normalise d) []
            (view t (trim_space id) (normalise d)) =
          subst (λ ws. Holds t.window_size (trim_space id) (normalise d) [] (lookup key ws))
            (sym empty) refl in
        bias_of-Holds t.window_size (trim_space id) (normalise d)
          (history_of calls (trim_space id) (normalise d))
          (view (record_all t calls) (trim_space id) (normalise d))
          (record_all-view t calls (trim_space id) (normalise d) t.window_size [] refl big plains
            hid start)
