-- ===== src/Store/Clash.antt =====
-- Domains with a '/' in them (keys.go, validation.go).
use pulsesyn.Prelude.{
  refl, length-append, ok≢err, ok-injective, length, ◌>>=◌, arith, inr, ◌∙◌, sym, some, eq-of-==,
  ap, inl, ◌==◌, Bool-cases, bind-ok, none, ◌≢◌, ◌++◌, true, contains, ok, ◌≡◌, List, [], ◌∷◌,
}
use pulsesyn.Text.{normalise, CaseTable, Text, text_eq}
use pulsesyn.Float.{Float64}
use pulsesyn.Store.Base.{failing, read_as, view, prefix_scan_keys, Node}
use pulsesyn.Store.Badger.{IsBadger}
use pulsesyn.Store.Validations.{
  write_validation_record, fetch_validation_records, fetch_validations, validations_by_domain,
}
use pulsesyn.Store.Records.{db_failed, validation_not_found, ValidationRecord}
use pulsesyn.Store.Keys.{
  idx_epoch_key, prefix_idx_domain, claim_id_from_index, domain_prefix, slash, validation_key,
  idx_domain_key,
}
use pulsesyn.Store.Effects.{put, begin-at, Contents, read_as-ok}
use pulsesyn.Store.Prefixes.{validation_key-claim, parts_assoc}
use mathlib.Core.List.{append_assoc}
use pulsesyn.Store.Scans.{scan-ids, ids_of}
use mathlib.Core.Path.{subst}
use pulsesyn.Store.Writes.{write_validation-Outcome}
use pulsesyn.Store.Trips.{put_rest}
use pulsesyn.Store.Spaces.{put_same, put_other, differ}

-- A '/' more in the domain, or in the claim's id.
moved_slash :
    (d x c : Text) → idx_domain_key (d ++ (slash ++ x)) c ≡ domain_prefix d ++ (x ++ (slash ++ c))
moved_slash d x c =
    parts_assoc prefix_idx_domain (d ++ (slash ++ x)) c
    ∙ ap (λ (t : Text). prefix_idx_domain ++ t) (append_assoc d (slash ++ x) (slash ++ c))
    ∙ sym (parts_assoc prefix_idx_domain d (x ++ (slash ++ c)))

module _ {F T : Type 0} ⦃fl : Float64 F⦄ ⦃u : CaseTable⦄ (node : Node F T)
    (laws : IsBadger node.badger) where
  -- Records that were fetched are all on file.
  fetched_held :
      (t : node.badger.State) (ids : List Text) {records : List (ValidationRecord F T)}
      → fetch_validations node t ids ≡ ok records
      → (c : Text) → contains c ids ≡ true
      → laws.at t (validation_key c) ≢ none
  unfolding fetch_validations
  fetched_held t [] h c there gone = cc
  fetched_held t (id ∷ ids) h c there gone =
      let (r, read, more) =
        bind-ok (read_as node.badger node.validations t (validation_key id) validation_not_found) _
          h in
      let (rest, fetched, _) = bind-ok (fetch_validations node t ids) _ more in
      let (b, held, _) = read_as-ok laws node.validations t _ _ read in
      elim (Bool-cases (id == c)) [
        | inl same ↦
            let e = ap (λ (x : Text). laws.at t (validation_key x)) (eq-of-== id c same) in
            let clash : some b ≡ none = sym held ∙ e ∙ gone in cc
        | inr other ↦ fetched_held t ids fetched c ground arith gone
      ]

  missing-fails :
      (s : node.badger.State) (d x c : Text) (records : List (ValidationRecord F T))
      → normalise d ≡ d
      → laws.at s (idx_domain_key (d ++ (slash ++ x)) c) ≢ none
      → laws.at s (validation_key (x ++ (slash ++ c))) ≡ none
      → validations_by_domain node s d ≢ ok records
  unfolding validations_by_domain fetch_validation_records prefix_scan_keys view
  missing-fails s d x c records normal there missing h =
      let p = domain_prefix d in
      let h' =
        subst
          (λ (e : Text).
            (prefix_scan_keys node.badger s (domain_prefix e)
                (claim_id_from_index (domain_prefix e))
              >>= λ ids. fetch_validation_records node s ids)
            ≡ ok records)
          normal h in
      let (ids, scanned, fetched) =
        bind-ok (prefix_scan_keys node.badger s p (claim_id_from_index p))
          (λ ids. fetch_validation_records node s ids) h' in
      let (t, begun, found) =
        bind-ok (failing db_failed (node.badger.begin s))
          (λ txn. ok (ids_of p (node.badger.scan txn p))) scanned in
      let (t', begun', read) =
        bind-ok (failing db_failed (node.badger.begin s)) (λ txn. fetch_validations node txn ids)
          fetched in
      let same = ok-injective _ _ found in
      let held : laws.at t (p ++ (x ++ (slash ++ c))) ≢ none = λ gone. there (
        ap (laws.at s) (moved_slash d x c)
        ∙ ap (λ (m : Contents node.badger.Value). m (p ++ (x ++ (slash ++ c))))
            (sym (begin-at laws s t begun))
        ∙ gone) in
      let named =
        subst (λ (xs : List Text). contains (x ++ (slash ++ c)) xs ≡ true) same
          (((scan-ids laws t p).1 (x ++ (slash ++ c))).1 held) in
      fetched_held t' ids read (x ++ (slash ++ c)) named (
        ap (λ (m : Contents node.badger.Value). m (validation_key (x ++ (slash ++ c))))
          (begin-at laws s t' begun')
        ∙ missing)

  -- A claim's id is not the rest of itself.
  longer : (x c : Text) → validation_key c ≢ validation_key (x ++ (slash ++ c))
  longer x c e =
      let sizes = ap length (validation_key-claim c (x ++ (slash ++ c)) e) in
      let more = length-append x (slash ++ c) in omega arith

  -- After a validation of a claim in a domain `d/x` was written, where no validation of a claim `x/` and
  -- that claim's id is on file, ValidationsByDomain of `d` returns no records at all: it fails.
  pub by_domain-fails :
      (s : node.badger.State) (r : ValidationRecord F T) (d x : Text)
      (records : List (ValidationRecord F T))
      → normalise d ≡ d
      → normalise r.domain ≡ d ++ (slash ++ x)
      → (write_validation_record node s r).1 ≡ ok tt
      → laws.at s (validation_key (x ++ (slash ++ r.claim_id))) ≡ none
      → validations_by_domain node (write_validation_record node s r).0 d ≢ ok records
  by_domain-fails s r d x records normal domain written missing =
      elim (write_validation-Outcome node laws s r) [
        | inl (e, failed) ↦
            let clash = sym written ∙ ap (λ p. p.1) failed in absurd (ok≢err _ _ clash)
        | inr (done, (valid, val, encoded, free, e)) ↦
            let by_domain = idx_domain_key (normalise r.domain) r.claim_id in
            let by_epoch = idx_epoch_key r.epoch r.claim_id in
            let k = validation_key (x ++ (slash ++ r.claim_id)) in
            let filed = put (validation_key r.claim_id) (some val) (laws.at s) in
            let listed = put by_domain (some node.badger.empty) filed in
            let absent_still =
              put_rest by_epoch (some node.badger.empty) listed _ e k
                (differ 0 by_epoch k refl refl refl)
              ∙ put_other by_domain k (some node.badger.empty) filed
                  (differ 0 by_domain k refl refl refl)
              ∙ put_other (validation_key r.claim_id) k (some val) (laws.at s) (longer x r.claim_id)
              ∙ missing in
            let entry =
              put_rest by_epoch (some node.badger.empty) listed _ e by_domain
                (differ 4 by_epoch by_domain refl refl refl)
              ∙ put_same by_domain (some node.badger.empty) filed in
            missing-fails (write_validation_record node s r).0 d x r.claim_id records normal
              (λ gone.
                let renamed =
                  ap
                    (λ (t : Text).
                      laws.at (write_validation_record node s r).0 (idx_domain_key t r.claim_id))
                    domain in
                let clash : some node.badger.empty ≡ none = sym entry ∙ renamed ∙ gone in cc)
              absent_still
      ]
