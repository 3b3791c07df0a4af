-- ===== src/Store/Effects.antt =====
-- What each operation of the store does to what the database holds.
use pulsesyn.Prelude.{
  refl, sym, inr, ◌∙◌, bind-ok, ok-injective, ◌>>=◌, inl, ◌⊎◌, ap, some, Result-cases, none, ◌≡◌,
  ◌==◌, if◌then◌else◌, Option, Result, ok, err,
}
use pulsesyn.Text.{Text, text_eq}
use pulsesyn.Store.Badger.{IsBadger, Engine}
use pulsesyn.Store.Base.{
  save, read_as, view, read_value, Codec, value_of, absent, delete, require_absent, update, set,
  failing,
}
use pulsesyn.Store.Records.{json_failed, db_failed, StoreError}
use mathlib.Core.Path.{subst, fun_ext}
use mathlib.Core.Option.{some-injective}

-- The contents after a value was set, or deleted.
abbrev pub Contents : Type 0 → Type 0
Contents V = Text → Option V

abbrev pub put : {V : Type 0} → Text → Option V → Contents V → Contents V
put k o m j = if k == j then o else m j

-- A call fails where Badger fails; otherwise it returns `r`.
abbrev pub Reads : {A : Type 0} → Result StoreError A → Result StoreError A → Type 0
Reads result r = ((m : Text) × (result ≡ err (db_failed m))) ⊎ (result ≡ r)

module _ {badger : Engine} (laws : IsBadger badger) where
  -- The database is as before and there is an error, or the contents meet `P`.
  abbrev pub Outcome :
      badger.State
      → badger.State × Result StoreError (Unit {0})
      → (Contents badger.Value → Type 0)
      → Type 0
  Outcome s r P = ((e : StoreError) × (r ≡ (s, err e))) ⊎ ((r.1 ≡ ok tt) × P (laws.at r.0))

  -- What the database before and every change have, the database after has.
  pub Outcome-keeps :
      (G : Contents badger.Value → Type 0) (s : badger.State)
      (r : badger.State × Result StoreError (Unit {0})) (P : Contents badger.Value → Type 0)
      → G (laws.at s)
      → ((m : Contents badger.Value) → P m → G m)
      → Outcome s r P
      → G (laws.at r.0)
  Outcome-keeps G s r P h f (inl (e, failed)) =
      subst (λ (x : badger.State). G (laws.at x)) (sym (ap (λ x. x.0) failed)) h
  Outcome-keeps G s r P h f (inr (_, done)) = f _ done

  pub failing-ok :
      {A : Type 0} (wrap : Text → StoreError) (m : Result Text A) {a : A}
      → failing wrap m ≡ ok a
      → m ≡ ok a
  failing-ok wrap (ok a) h = ap ok (ok-injective _ _ h)
  failing-ok wrap (err m) h = cc

  pub begin-at :
      (s t : badger.State) → failing db_failed (badger.begin s) ≡ ok t → laws.at t ≡ laws.at s
  begin-at s t h = fun_ext (laws.at-begin s t (failing-ok db_failed _ h))

  pub update-Outcome :
      (s : badger.State) (change : badger.State → Result StoreError badger.State)
      (P : Contents badger.Value → Type 0)
      → ((t t' : badger.State) → laws.at t ≡ laws.at s → change t ≡ ok t' → P (laws.at t'))
      → Outcome s (update badger s change) P
  unfolding update
  update-Outcome s change P h =
      elim (Result-cases (
        (failing db_failed (badger.begin s) >>= change)
        >>= (λ txn. failing db_failed (badger.commit txn)))) [
          | inl (s', done) ↦
              let (t', changed, committed) = bind-ok _ _ done in
              let (t, begun, made) = bind-ok _ _ changed in
              let kept = fun_ext (laws.at-commit t' s' (failing-ok db_failed _ committed)) in
              rw (done, update) (inr (refl, subst P (sym kept) (h t t' (begin-at s t begun) made)))
          | inr (e, failed) ↦ rw (failed, update) (inl (e, refl))
        ]

  pub save-Outcome :
      (s : badger.State) (encoded : Result StoreError badger.Value)
      (change : badger.Value → badger.State → Result StoreError badger.State)
      (P : Contents badger.Value → Type 0)
      → ((val : badger.Value) (t t' : badger.State)
          → encoded ≡ ok val
          → laws.at t ≡ laws.at s
          → change val t ≡ ok t'
          → P (laws.at t'))
      → Outcome s (save badger s encoded change) P
  save-Outcome s (err e) change P h = inl (e, refl)
  save-Outcome s (ok val) change P h =
      update-Outcome s (change val) P (λ t t' begun done. h val t t' refl begun done)

  pub set-at :
      (t t' : badger.State) (k : Text) (v : badger.Value)
      → set badger t k v ≡ ok t'
      → laws.at t' ≡ put k (some v) (laws.at t)
  set-at t t' k v h = fun_ext (laws.at-set t t' k v (failing-ok db_failed _ h))

  pub delete-at :
      (t t' : badger.State) (k : Text)
      → delete badger t k ≡ ok t'
      → laws.at t' ≡ put k none (laws.at t)
  delete-at t t' k h = fun_ext (laws.at-delete t t' k (failing-ok db_failed _ h))

  absent-none :
      (t : badger.State) (k : Text) (got : Result Text (Option badger.Item))
      → badger.get t k ≡ got
      → absent badger got ≡ ok tt
      → laws.at t k ≡ none
  absent-none t k (ok (some item)) e h = cc
  absent-none t k (ok none) e h = laws.get_none t k e
  absent-none t k (err m) e h = cc

  pub require_absent-none :
      (t : badger.State) (k : Text) → require_absent badger t k ≡ ok tt → laws.at t k ≡ none
  unfolding require_absent
  require_absent-none t k h = absent-none t k (badger.get t k) refl h

  -- What a read of a key under which nothing is can return.
  value-none :
      (t : badger.State) (k : Text) (e : StoreError) (got : Result Text (Option badger.Item))
      → badger.get t k ≡ got
      → laws.at t k ≡ none
      → ((m : Text) × (value_of badger e got ≡ err (db_failed m))) ⊎ (value_of badger e got ≡ err e)
  value-none t k e (ok (some item)) g h = let (b, at, _) = laws.get_some t k item g in cc
  value-none t k e (ok none) g h = inr refl
  value-none t k e (err m) g h = inl (m, refl)

  value-some :
      (t : badger.State) (k : Text) (e : StoreError) (got : Result Text (Option badger.Item))
      {b : badger.Value}
      → badger.get t k ≡ got
      → laws.at t k ≡ some b
      → ((m : Text) × (value_of badger e got ≡ err (db_failed m))) ⊎ (value_of badger e got ≡ ok b)
  value-some t k e (ok (some item)) {b = b} g h =
      let (b', at, only) = laws.get_some t k item g in
      elim (Result-cases (badger.value item)) [
        | inl (c, read) ↦ rw read (inr (ap ok (only c read ∙ some-injective _ _ (sym at ∙ h))))
        | inr (m, failed) ↦ rw failed (inl (m, refl))
      ]
  value-some t k e (ok none) g h = let nothing = laws.get_none t k g in cc
  value-some t k e (err m) g h = inl (m, refl)

  value-ok :
      (t : badger.State) (k : Text) (e : StoreError) (got : Result Text (Option badger.Item))
      {b : badger.Value}
      → badger.get t k ≡ got
      → value_of badger e got ≡ ok b
      → laws.at t k ≡ some b
  value-ok t k e (ok (some item)) g h =
      let (b', at, only) = laws.get_some t k item g in
      at ∙ ap some (sym (only _ (failing-ok db_failed _ h)))
  value-ok t k e (ok none) g h = cc
  value-ok t k e (err m) g h = cc

  module _ {A : Type 0} (codec : Codec badger.Value A) (s : badger.State) (k : Text)
      (e : StoreError) where
    -- One record, read in a transaction of its own.
    abbrev pub reading : Result StoreError A
    reading = view badger s (λ txn. read_as badger codec txn k e)

    pub read_as-none : laws.at s k ≡ none → Reads (read_as badger codec s k e) (err e)
    unfolding read_value
    read_as-none h = elim (value-none s k e (badger.get s k) refl h) [
      | inl (m, failed) ↦ rw failed (inl (m, refl))
      | inr nothing ↦ rw nothing (inr refl)
    ]

    pub read_as-some :
        {b : badger.Value} (a : A)
        → laws.at s k ≡ some b
        → codec.unmarshal b ≡ ok a
        → Reads (read_as badger codec s k e) (ok a)
    unfolding read_value
    read_as-some a h decoded = elim (value-some s k e (badger.get s k) refl h) [
      | inl (m, failed) ↦ rw failed (inl (m, refl))
      | inr found ↦ rw (found, decoded) (inr refl)
    ]

    pub read_as-ok :
        {a : A}
        → read_as badger codec s k e ≡ ok a
        → (b : badger.Value) × (laws.at s k ≡ some b) × (codec.unmarshal b ≡ ok a)
    unfolding read_value
    read_as-ok h =
        let (b, found, decoded) = bind-ok _ _ h in
        (b, value-ok s k e (badger.get s k) refl found, failing-ok json_failed _ decoded)

  module _ {A : Type 0} (codec : Codec badger.Value A) (s : badger.State) (k : Text)
      (e : StoreError) where
    pub reading-none : laws.at s k ≡ none → Reads (reading codec s k e) (err e)
    unfolding view
    reading-none h = elim (Result-cases (badger.begin s)) [
      | inl (t, begun) ↦
          let same = fun_ext (laws.at-begin s t begun) in
          rw begun (read_as-none codec t k e (ap (λ (m : Contents badger.Value). m k) same ∙ h))
      | inr (m, failed) ↦ rw failed (inl (m, refl))
    ]

    pub reading-some :
        {b : badger.Value} (a : A)
        → laws.at s k ≡ some b
        → codec.unmarshal b ≡ ok a
        → Reads (reading codec s k e) (ok a)
    unfolding view
    reading-some a h decoded = elim (Result-cases (badger.begin s)) [
      | inl (t, begun) ↦
          rw begun (read_as-some codec t k e a (laws.at-begin s t begun k ∙ h) decoded)
      | inr (m, failed) ↦ rw failed (inl (m, refl))
    ]

    pub reading-ok :
        {a : A}
        → reading codec s k e ≡ ok a
        → (b : badger.Value) × (laws.at s k ≡ some b) × (codec.unmarshal b ≡ ok a)
    unfolding view
    reading-ok h =
        let (t, begun, read) = bind-ok _ _ h in
        let (b, found, decoded) = read_as-ok codec t k e read in
        (b, ap (λ (m : Contents badger.Value). m k) (sym (begin-at s t begun)) ∙ found, decoded)
