-- ===== src/Bias/Pairs.antt =====
-- What a call of Record does to the window of each pair (bias.go).
use pulsesyn.Prelude.{
  true, ◌||◌, arith, ◌-◌, ◌≢◌, sym, false, inr, inl, Bool-cases, ◌∙◌, if◌then◌else◌, ap, none, ◌++◌,
  ◌&&◌, ◌≤◌, some, ◌<◌, ◌≡◌, [], ◌==◌, not, Option, List, Bool, ℕ,
}
use pulsesyn.Float.{Float64}
use pulsesyn.Text.{text_eq, CaseTable, Text}
use pulsesyn.Bias.Window.{min_observations_for_bias, Window, ValidationObservation}
use pulsesyn.Bias.Track.{record_pair, window_key, Tracker}
use pulsesyn.Bias.Tracking.{
  window_key-injective, record_pair-eq, fresh, found_or, IsPlain, IsNormal,
}
use pulsesyn.Dict.{lookup-insert_self, lookup-insert_ne, lookup}
use pulsesyn.Bias.Fifo.{
  drop_empty, take_last-append, length-take_last, added-window, admitted, take_last, added,
}
use mathlib.Core.List.{append-nil}
use mathlib.Core.Path.{subst}

-- The pair has a name, and `id` and `d` are the pair.
abbrev pub is_call_of : Text → Text → Text → Text → Bool
is_call_of vid dom id d = not (vid == []) && not (dom == []) && vid == id && dom == d

module _ {F : Type 0} ⦃fl : Float64 F⦄ ⦃u : CaseTable⦄ where
  -- The window of a pair holds the last observations of `history`.
  abbrev pub Holds : ℕ → Text → Text → List (ValidationObservation F) → Option (Window F) → Type 0
  Holds size id d history none = history ≡ []
  Holds size id d history (some w) =
      w ≡ record (fresh id d size) { entries = take_last size history }

  abbrev pub view : Tracker F → Text → Text → Option (Window F)
  view t id d = lookup (window_key id d) t.windows

  -- Holds for the window found or fresh.
  found-Holds :
      (size : ℕ) (id d : Text) (history : List (ValidationObservation F)) (o : Option (Window F))
      → Holds size id d history o
      → found_or (fresh id d size) o ≡ record (fresh id d size) { entries = take_last size history }
  found-Holds size id d history none h =
      rw h (ap (λ es. record (fresh id d size) { entries = es }) (sym (drop_empty (0 - size))))
  found-Holds size id d history (some w) h = h

  added-Holds :
      (size : ℕ) (id d : Text) (history : List (ValidationObservation F))
      (obs : ValidationObservation F) (o : Option (Window F))
      → 0 < size
      → Holds size id d history o
      → added (found_or (fresh id d size) o) obs
        ≡ record (fresh id d size) { entries = take_last size (history ++ admitted obs) }
  added-Holds size id d history obs o pos h =
      let w : Window F = record (fresh id d size) { entries = take_last size history } in
      ap (λ x. added x obs) (found-Holds size id d history o h)
      ∙ added-window w obs pos (length-take_last size history)
      ∙ ap (λ es. record w { entries = es }) (take_last-append size history (admitted obs))

  module _ (t : Tracker F) (vid dom : Text) (obs : ValidationObservation F) (n : IsNormal vid dom)
      (plain : IsPlain vid) (hs : min_observations_for_bias ≤ t.window_size) where
    abbrev step : Tracker F
    step = (record_pair t vid dom obs).0

    module _ (named : (vid == []) ≡ false) (domain_named : (dom == []) ≡ false) where
      view-step_same :
          (history : List (ValidationObservation F))
          → Holds t.window_size vid dom history (view t vid dom)
          → Holds t.window_size vid dom (history ++ admitted obs) (view step vid dom)
      view-step_same history h =
          let now = added (found_or (fresh vid dom t.window_size) (view t vid dom)) obs in
          let e : view step vid dom ≡ some now =
            ap (λ t'. view t' vid dom) (record_pair-eq t vid dom obs n named domain_named hs)
            ∙ lookup-insert_self (window_key vid dom) now t.windows in
          rw e (added-Holds t.window_size vid dom history obs (view t vid dom) (omega arith) h)

      view-step_other :
          (id d : Text) → window_key vid dom ≢ window_key id d → view step id d ≡ view t id d
      view-step_other id d other =
          let now = added (found_or (fresh vid dom t.window_size) (view t vid dom)) obs in
          ap (λ t'. view t' id d) (record_pair-eq t vid dom obs n named domain_named hs)
          ∙ lookup-insert_ne (window_key vid dom) (window_key id d) now t.windows other

    step_unnamed : ((vid == []) || (dom == [])) ≡ true → step ≡ t
    step_unnamed h = ground arith

    same_pair :
        (id d : Text)
        → is_call_of vid dom id d ≡ true
        → ((vid == []) ≡ false) × ((dom == []) ≡ false) × (vid ≡ id) × (dom ≡ d)
    same_pair id d h = ground (arith, text_eq.beq_iff vid id, text_eq.beq_iff dom d)

    other_key :
        (id d : Text)
        → IsPlain id
        → ((vid == []) || (dom == [])) ≡ false
        → is_call_of vid dom id d ≡ false
        → window_key vid dom ≢ window_key id d
    other_key id d hid named h e =
        let (ids, ds) = window_key-injective vid id dom d plain hid e in
        ground (arith, text_eq.beq_iff vid id, text_eq.beq_iff dom d)

    view-step-false :
        (id d : Text) → IsPlain id → is_call_of vid dom id d ≡ false → view step id d ≡ view t id d
    view-step-false id d hid h = elim (Bool-cases ((vid == []) || (dom == []))) [
      | inl unnamed ↦ ap (λ t'. view t' id d) (step_unnamed unnamed)
      | inr named ↦ view-step_other ground arith ground arith id d (other_key id d hid named h)
    ]

    abbrev Steps : List (ValidationObservation F) → Text × Text → Type 0
    Steps history p =
        Holds t.window_size p.0 p.1 history (view t p.0 p.1)
        → Holds t.window_size p.0 p.1 (history ++ admitted obs) (view step p.0 p.1)

    pub record_pair-view :
        (id d : Text) (history : List (ValidationObservation F))
        → IsPlain id
        → Holds t.window_size id d history (view t id d)
        → Holds t.window_size id d
            (history ++ (if is_call_of vid dom id d then admitted obs else []))
            (view step id d)
    record_pair-view id d history hid h = elim (Bool-cases (is_call_of vid dom id d)) [
      | inl call ↦
          let (named, domain_named, ids, ds) = same_pair id d call in
          let pair : ◌≡◌ {A = Text × Text} (vid, dom) (id, d) = λ i. (ids i, ds i) in
          rw call (subst (Steps history) pair (view-step_same named domain_named history) h)
      | inr other ↦ rw (other, append-nil history, view-step-false id d hid other) h
    ]

    pub record_pair-size : step.window_size ≡ t.window_size
    record_pair-size = elim (Bool-cases ((vid == []) || (dom == []))) [
      | inl unnamed ↦ ap Tracker.window_size (step_unnamed unnamed)
      | inr named ↦
          ap Tracker.window_size (record_pair-eq t vid dom obs n ground arith ground arith hs)
    ]
