-- ===== src/Store/Badger.antt =====
-- What the store uses of Badger, over an unknown database. A transaction is the database as it reads
-- and has written it; a call fails with a message. Keys are texts.
use pulsesyn.Prelude.{
  nat_eq, has_no_repeats, ◌≢◌, ◌↔◌, map, contains, starts_with, All, ◌==◌, Option, Result, List,
  none, some, ok, ◌≡◌, if◌then◌else◌, true,
}
use pulsesyn.Text.{Text, text_eq}

pub record Engine : Type 1 where
  pub State : Type 0
  -- []byte, and []byte{}
  pub Value : Type 0
  pub empty : Value
  -- what Get and an iterator find under a key
  pub Item : Type 0
  -- the start of db.Update and db.View
  pub begin : State → Result Text State
  pub commit : State → Result Text State
  -- `none` is ErrKeyNotFound
  pub get : State → Text → Result Text (Option Item)
  -- item.Value
  pub value : Item → Result Text Value
  pub set : State → Text → Value → Result Text State
  pub delete : State → Text → Result Text State
  -- the keys with the prefix, and their items, in the order of the iterator
  pub scan : State → Text → List (Text × Item)

-- Where a call does not fail: `at` is what the database holds.
pub record IsBadger (badger : Engine) : Type 0 where
  pub at : badger.State → Text → Option badger.Value
  pub at-begin : (s t : badger.State) → badger.begin s ≡ ok t → (k : Text) → at t k ≡ at s k
  pub at-commit : (s t : badger.State) → badger.commit s ≡ ok t → (k : Text) → at t k ≡ at s k
  pub get_none : (s : badger.State) (k : Text) → badger.get s k ≡ ok none → at s k ≡ none
  pub get_some :
      (s : badger.State) (k : Text) (item : badger.Item)
      → badger.get s k ≡ ok (some item)
      → (b : badger.Value) × (at s k ≡ some b)
        × ((c : badger.Value) → badger.value item ≡ ok c → c ≡ b)
  pub at-set :
      (s t : badger.State) (k : Text) (v : badger.Value)
      → badger.set s k v ≡ ok t
      → (j : Text) → at t j ≡ (if k == j then some v else at s j)
  pub at-delete :
      (s t : badger.State) (k : Text)
      → badger.delete s k ≡ ok t
      → (j : Text) → at t j ≡ (if k == j then none else at s j)
  -- The scan finds the keys with the prefix that hold a value, no key twice.
  pub scan_prefix :
      (s : badger.State) (p : Text) → All (λ e. starts_with p e.0 ≡ true) (badger.scan s p)
  pub scan_keys :
      (s : badger.State) (p k : Text)
      → starts_with p k ≡ true
      → (contains k (map (λ e. e.0) (badger.scan s p)) ≡ true) ↔ (at s k ≢ none)
  pub scan_once :
      (s : badger.State) (p : Text) → has_no_repeats (map (λ e. e.0) (badger.scan s p)) ≡ true
