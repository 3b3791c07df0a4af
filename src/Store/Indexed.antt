-- ===== src/Store/Indexed.antt =====
-- An index of records: which records its keys name, and how writes keep it right.
use pulsesyn.Prelude.{
  ok-injective, ne-of-==, inr, eq-of-==, inl, ◌==◌, ap, Bool-cases, ◌↔◌, sym, ok, none, some, ◌≢◌,
  ◌∙◌, ◌++◌, ◌≡◌,
}
use pulsesyn.Text.{Text, text_eq}
use pulsesyn.Store.Base.{Codec}
use pulsesyn.Store.Effects.{put, Contents}
use pulsesyn.Store.Spaces.{put_same, put_other}
use mathlib.Core.Option.{some-injective}
use mathlib.Core.Path.{subst}

-- Records are kept encoded, each under the key of its id.
module _ {V A : Type 0} (codec : Codec V A) (key : Text → Text) where
  abbrev pub Filed : Contents V → Text → A → Type 0
  Filed m c a = (b : V) × (m (key c) ≡ some b) × (codec.unmarshal b ≡ ok a)

  -- The keys with the prefix `p` name the ids of the records that meet `Q`.
  abbrev pub Lists : Text → (A → Type 0) → Contents V → Type 0
  Lists p Q m = (c : Text) → (m (p ++ c) ≢ none) ↔ ((a : A) × Filed m c a × Q a)

  Filed-ext :
      (m m' : Contents V) (c : Text) (a : A) → m' (key c) ≡ m (key c) → Filed m c a → Filed m' c a
  Filed-ext m m' c a e (b, at, decoded) = (b, e ∙ at, decoded)

  pub Lists-ext :
      (p : Text) (Q : A → Type 0) (m m' : Contents V)
      → ((c : Text) → m' (p ++ c) ≡ m (p ++ c))
      → ((c : Text) → m' (key c) ≡ m (key c))
      → Lists p Q m
      → Lists p Q m'
  Lists-ext p Q m m' index record_same h c = (
    λ there.
        let (a, filed, q) = (h c).0 (λ e. there (index c ∙ e)) in
        (a, Filed-ext m m' c a (record_same c) filed, q),
    λ (a, filed, q) e.
        (h c).1 (a, Filed-ext m' m c a (sym (record_same c)) filed, q) (sym (index c) ∙ e),
  )

  -- A record is filed under a free key, and the index gains its entry `own`, which is one of the
  -- index's keys exactly if the record meets `Q`.
  module _ (p : Text) (Q : A → Type 0) (m m' : Contents V) (new own : Text) (val mark : V) (a : A)
      (free : m new ≡ none) (decoded : codec.unmarshal val ≡ ok a)
      (index : (c : Text) → m' (p ++ c) ≡ put own (some mark) m (p ++ c))
      (filing : (c : Text) → m' (key c) ≡ put new (some val) m (key c))
      (own-is : (c : Text) → own ≡ p ++ c → (new ≡ key c) × Q a)
      (is-own : (c : Text) → new ≡ key c → Q a → own ≡ p ++ c) where
    at_new : (c : Text) → new ≡ key c → m' (key c) ≡ some val
    at_new c e =
        filing c ∙ ap (λ (k : Text). put new (some val) m k) (sym e) ∙ put_same new (some val) m

    at_other : (c : Text) → new ≢ key c → m' (key c) ≡ m (key c)
    at_other c h = filing c ∙ put_other new (key c) (some val) m h

    pub Lists-put : Lists p Q m → Lists p Q m'
    Lists-put h c = elim (Bool-cases (own == p ++ c)) [
      | inl same ↦
          let e = eq-of-== own (p ++ c) same in
          let (here, q) = own-is c e in
          let held =
            index c
            ∙ ap (λ (k : Text). put own (some mark) m k) (sym e)
            ∙ put_same own (some mark) m in
          (λ _. (a, (val, at_new c here, decoded), q), λ _ gone. let clash = sym held ∙ gone in cc)
      | inr other ↦
          let kept = index c ∙ put_other own (p ++ c) (some mark) m (ne-of-== own (p ++ c) other) in
          elim (Bool-cases (new == key c)) [
            | inl same ↦
                let e = eq-of-== new (key c) same in
                (
                  λ there.
                      let (a', (b, at, _), q) = (h c).0 (λ gone. there (kept ∙ gone)) in
                      let clash : some b ≡ none = sym at ∙ ap m (sym e) ∙ free in cc,
                  λ (a', (b, at, decoded'), q) gone.
                      let values = some-injective b val (sym at ∙ at_new c e) in
                      let same_record =
                        ok-injective a' a (sym decoded' ∙ ap codec.unmarshal values ∙ decoded) in
                      absurd (ne-of-== own (p ++ c) other (is-own c e (subst Q same_record q))),
                )
            | inr apart ↦
                let e = at_other c (ne-of-== new (key c) apart) in
                (
                  λ there.
                      let (a', filed, q) = (h c).0 (λ gone. there (kept ∙ gone)) in
                      (a', Filed-ext m m' c a' e filed, q),
                  λ (a', filed, q) gone.
                      (h c).1 (a', Filed-ext m' m c a' (sym e) filed, q) (sym kept ∙ gone),
                )
          ]
    ]
