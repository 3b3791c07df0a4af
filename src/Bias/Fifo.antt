-- ===== src/Bias/Fifo.antt =====
-- The window keeps the last accepted observations, oldest first (bias.go).
use pulsesyn.Prelude.{
  inr, Bool-cases, inl, Result-cases, length-append, length-drop, leb, sym, refl, false, ◌∙◌, true,
  zero, ap, err, if◌then◌else◌, arith, ◌<◌, ◌+◌, ◌-◌, suc, Bool, ok, ◌∷◌, [], ◌≤◌, length, ◌++◌,
  ◌≡◌, List, drop, ℕ,
}
use pulsesyn.Float.{Float64}
use pulsesyn.Bias.Window.{validate_observation, Window, ValidationObservation, add}
use mathlib.Core.List.{append_assoc, append-nil}

module _ {A : Type 0} where
  -- The last `n` elements, all of them if there are fewer.
  abbrev pub take_last : ℕ → List A → List A
  take_last n xs = drop (length xs - n) xs

  drop-append : (n : ℕ) (xs ys : List A) → n ≤ length xs → drop n xs ++ ys ≡ drop n (xs ++ ys)
  drop-append zero xs ys h = refl
  drop-append (suc n) [] ys h = ground arith
  drop-append (suc n) (x ∷ xs) ys h = drop-append n xs ys (omega arith)

  pub drop_empty : (n : ℕ) → drop {A = A} n [] ≡ []
  drop_empty zero = refl
  drop_empty (suc n) = refl

  drop-drop : (n k : ℕ) (xs : List A) → drop n (drop k xs) ≡ drop (k + n) xs
  drop-drop n zero xs = ap (λ i. drop i xs) (omega arith)
  drop-drop n (suc k) [] = drop_empty n ∙ sym (drop_empty (suc k + n))
  drop-drop n (suc k) (x ∷ xs) =
      let e : suc (k + n) ≡ suc k + n = omega arith in
      drop-drop n k xs ∙ ap (λ i. drop i (x ∷ xs)) e

  pub take_last-append :
      (n : ℕ) (xs ys : List A) → take_last n (take_last n xs ++ ys) ≡ take_last n (xs ++ ys)
  take_last-append n xs ys =
      let k = length xs - n in
      let whole = length-append (drop k xs) ys in
      let parts = length-append xs ys in
      let shorter = length-drop k xs in
      ap (λ zs. drop (length (drop k xs ++ ys) - n) zs) (drop-append k xs ys (omega arith))
      ∙ drop-drop (length (drop k xs ++ ys) - n) k (xs ++ ys)
      ∙ ap (λ i. drop i (xs ++ ys)) (omega arith)

  take_last_all : (n : ℕ) (xs : List A) → length xs ≤ n → take_last n xs ≡ xs
  take_last_all n xs h = let e : length xs - n ≡ 0 = omega arith in ap (λ i. drop i xs) e

module _ {F : Type 0} ⦃fl : Float64 F⦄ where
  -- A call of `Add`, whose error is handled elsewhere.
  abbrev pub added : Window F → ValidationObservation F → Window F
  added w obs = elim (add w obs) [ ok w' ↦ w' | err e ↦ w ]

  abbrev pub add_all : Window F → List (ValidationObservation F) → Window F
  add_all w [] = w
  add_all w (obs ∷ later) = add_all (added w obs) later

  abbrev pub is_accepted : ValidationObservation F → Bool
  is_accepted obs = elim (validate_observation obs) [ ok _ ↦ true | err e ↦ false ]

  -- The eviction, once the window is full.
  kept-append :
      (m : ℕ) (entries : List (ValidationObservation F)) (obs : ValidationObservation F)
      → 0 < m
      → length entries ≤ m
      → (if leb m (length entries) then drop 1 entries else entries) ++ (obs ∷ [])
        ≡ take_last m (entries ++ (obs ∷ []))
  kept-append m entries obs hm h =
      let n = length-append entries (obs ∷ []) in
      elim (Bool-cases (leb m (length entries))) [
        | inl full ↦
            let e : 1 ≡ length (entries ++ (obs ∷ [])) - m = ground arith in
            rw full (
              drop-append 1 entries (obs ∷ []) ground arith
              ∙ ap (λ i. drop i (entries ++ (obs ∷ []))) e)
        | inr room ↦
            let e : 0 ≡ length (entries ++ (obs ∷ [])) - m = ground arith in
            rw room (ap (λ i. drop i (entries ++ (obs ∷ []))) e)
      ]

  abbrev pub admitted : ValidationObservation F → List (ValidationObservation F)
  admitted obs = if is_accepted obs then obs ∷ [] else []

  -- The accepted ones, in their order.
  abbrev pub accepted : List (ValidationObservation F) → List (ValidationObservation F)
  accepted [] = []
  accepted (obs ∷ later) = admitted obs ++ accepted later

  pub added-window :
      (w : Window F) (obs : ValidationObservation F)
      → 0 < w.max_size
      → length w.entries ≤ w.max_size
      → added w obs ≡ record w { entries = take_last w.max_size (w.entries ++ admitted obs) }
  unfolding add
  added-window w obs hm h = elim (Result-cases (validate_observation obs)) [
    | inl (_, e) ↦
        rw (e, added, admitted, is_accepted)
          (ap (λ es. record w { entries = es }) (kept-append w.max_size w.entries obs hm h))
    | inr (reason, e) ↦
        rw (e, added, admitted, is_accepted, append-nil w.entries)
          (ap (λ es. record w { entries = es }) (sym (take_last_all w.max_size w.entries h)))
  ]

  pub length-take_last : (n : ℕ) (xs : List (ValidationObservation F)) → length (take_last n xs) ≤ n
  length-take_last n xs = omega (arith, length-drop (length xs - n) xs)

  -- After any sequence of calls of `Add` on a window of a size above 0 that is not overfull, the
  -- window holds the last `max_size` of its first entries and the accepted observations, oldest
  -- first; the rest of the window is as before.
  pub add_all-window :
      (w : Window F) (later : List (ValidationObservation F))
      → 0 < w.max_size
      → length w.entries ≤ w.max_size
      → add_all w later ≡ record w { entries = take_last w.max_size (w.entries ++ accepted later) }
  add_all-window w [] hm h =
      ap (λ es. record w { entries = es })
        (sym (take_last_all w.max_size w.entries h)
          ∙ ap (take_last w.max_size) (sym (append-nil w.entries)))
  add_all-window w (obs ∷ later) hm h =
      let m = w.max_size in
      let now = w.entries ++ admitted obs in
      let next : Window F = record w { entries = take_last m now } in
      ap (λ x. add_all x later) (added-window w obs hm h)
      ∙ add_all-window next later hm (length-take_last m now)
      ∙ ap (λ es. record w { entries = es })
          (take_last-append m now (accepted later)
            ∙ ap (take_last m) (append_assoc w.entries (admitted obs) (accepted later)))
