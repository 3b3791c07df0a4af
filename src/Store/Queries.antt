-- ===== src/Store/Queries.antt =====
-- What the queries of the indexes answer.
use pulsesyn.Prelude.{
  sym, refl, Result-cases, ap, ◌∙◌, inl, inr, All, ◌>>=◌, ◌↔◌, contains, true, has_no_repeats, ok,
  ◌⊎◌, err, ◌≡◌, Result, List, [], ◌∷◌,
}
use pulsesyn.Text.{Text, text_eq}
use pulsesyn.Store.Base.{failing, view, prefix_scan_keys, read_as, Codec}
use pulsesyn.Store.Effects.{begin-at, read_as-some, Contents}
use pulsesyn.Store.Indexed.{Lists, Filed}
use pulsesyn.Store.Records.{db_failed, StoreError}
use pulsesyn.Store.Badger.{IsBadger, Engine}
use pulsesyn.Store.Keys.{claim_id_from_index}
use pulsesyn.Store.Scans.{All-of_contains, scan-ids, ids_of}
use mathlib.Core.Path.{subst}

module _ {V A : Type 0} (codec : Codec V A) (key : Text → Text) (m : Contents V)
    (Q : A → Type 0) where
  -- Each record is the one that is filed for its id, and meets `Q`.
  abbrev pub Matches : List Text → List A → Type 0
  Matches [] [] = Unit
  Matches (c ∷ ids) (a ∷ records) = (Filed codec key m c a × Q a) × Matches ids records
  Matches _ _ = ⊥

  -- Badger fails, or the records are those on file that meet `Q`, one for each id.
  abbrev pub Answers : Result StoreError (List A) → Type 0
  Answers result =
      ((e : Text) × (result ≡ err (db_failed e)))
      ⊎ ((ids : List Text) × (records : List A) × (result ≡ ok records)
          × (has_no_repeats ids ≡ true)
          × ((c : Text) → (contains c ids ≡ true) ↔ ((a : A) × Filed codec key m c a × Q a))
          × Matches ids records)

module _ {A : Type 0} {badger : Engine} (laws : IsBadger badger) (codec : Codec badger.Value A)
    (key : Text → Text) (Q : A → Type 0) where
  -- `fetch`, a loop that reads the records of its ids one by one.
  module _ (not_found : StoreError)
      (fetch : badger.State → List Text → Result StoreError (List A)) where
    abbrev collect : badger.State → List Text → Result StoreError A → Result StoreError (List A)
    collect t ids read = read >>= λ a. fetch t ids >>= λ rest. ok (a ∷ rest)

    module _ (fetch_nil : (t : badger.State) → fetch t [] ≡ ok [])
        (fetch_cons : (t : badger.State) (c : Text) (ids : List Text)
          → fetch t (c ∷ ids) ≡ collect t ids (read_as badger codec t (key c) not_found)) where
      fetch-Matches :
          (t : badger.State) (ids : List Text)
          → All (λ c. (a : A) × Filed codec key (laws.at t) c a × Q a) ids
          → ((e : Text) × (fetch t ids ≡ err (db_failed e)))
            ⊎ ((records : List A) × (fetch t ids ≡ ok records)
                × Matches codec key (laws.at t) Q ids records)
      fetch-Matches t [] h = inr ([], fetch_nil t, tt)
      fetch-Matches t (c ∷ ids) ((a, (b, at, decoded), q), h) =
          let step = fetch_cons t c ids in
          elim (read_as-some laws codec t (key c) not_found a at decoded) [
            | inl (e, failed) ↦ inl (e, step ∙ ap (collect t ids) failed)
            | inr found ↦ elim (fetch-Matches t ids h) [
              | inl (e, failed) ↦ inl (
                e,
                step ∙ ap (collect t ids) found ∙ ap (λ r. r >>= λ rest. ok (a ∷ rest)) failed,
              )
              | inr (records, fetched, matching) ↦ inr (
                a ∷ records,
                step ∙ ap (collect t ids) found ∙ ap (λ r. r >>= λ rest. ok (a ∷ rest)) fetched,
                (((b, at, decoded), q), matching),
              )
            ]
          ]

      answered :
          (t : badger.State) (p : Text)
          → Lists codec key p Q (laws.at t)
          → Answers codec key (laws.at t) Q (fetch t (ids_of p (badger.scan t p)))
      answered t p h =
          let ids = ids_of p (badger.scan t p) in
          let (once, found) = scan-ids laws t p in
          elim (fetch-Matches t ids
            (All-of_contains _ ids (λ c there. (h c).0 ((found c).0 there)))) [
              | inl failed ↦ inl failed
              | inr (records, fetched, matching) ↦ inr (
                ids,
                records,
                fetched,
                once,
                λ c. (λ there. (h c).0 ((found c).0 there), λ filed. (found c).1 ((h c).1 filed)),
                matching,
              )
            ]

      -- A scan in one transaction, and the reading of what it found in another.
      pub query-Answers :
          (s : badger.State) (p : Text)
          → Lists codec key p Q (laws.at s)
          → Answers codec key (laws.at s) Q (
              prefix_scan_keys badger s p (claim_id_from_index p) >>= λ ids.
              view badger s (λ t. fetch t ids))
      unfolding prefix_scan_keys view
      query-Answers s p h = elim (Result-cases (badger.begin s)) [
        | inl (t, begun) ↦
            let same = begin-at laws s t (ap (failing db_failed) begun) in
            rw begun (
              subst
                (λ (m : Contents badger.Value).
                  Answers codec key m Q (fetch t (ids_of p (badger.scan t p))))
                same
                (answered t p
                  (subst (λ (m : Contents badger.Value). Lists codec key p Q m) (sym same) h)))
        | inr (m, failed) ↦ rw failed (inl (m, refl))
      ]
