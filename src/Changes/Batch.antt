-- ===== src/Changes/Batch.antt =====
-- `filterChanges` of changes.controller.ts: no change is lost or shown twice by the filter.
use replication_backend.Prelude.{
  ℕ, String, Bool, true, not, ◌&&◌, Option, none, some, List, [], ◌∷◌, ◌++◌, map, filter, length,
  filter-append, append_assoc, append-nil, ◌≡◌, refl, sym, ap, ◌∙◌, ◌⊎◌, inl, inr, arith, is_some,
  Option-cases,
}
use replication_backend.Couch.{ChangeResult}
use replication_backend.Casl.{Permissions}
use replication_backend.DocumentFilter.{DocumentFilter, is_replicable}
use replication_backend.Changes.{Scan, reaches, is_permitted, scan_change, scan_changes}

-- The sequence number after some changes, and their ids.
abbrev pub seq_after : String → List ChangeResult → String
seq_after seq [] = seq
seq_after seq (change ∷ rest) = seq_after change.seq rest

abbrev pub ids : List ChangeResult → List String
ids = map (λ (c : ChangeResult). c.id)

map-append {ℓ κ} :
    {A : Type ℓ} {B : Type κ} (f : A → B) (xs ys : List A) → map f (xs ++ ys) ≡ map f xs ++ map f ys
map-append f [] ys = refl
map-append f (x ∷ xs) ys = ap (λ r. f x ∷ r) (map-append f xs ys)

module _ (permissions : Permissions) (filter_of : DocumentFilter)
    (ability : permissions.Ability) where
  -- What a user is shown, and what a client is told to purge.
  abbrev pub is_shown : ChangeResult → Bool
  is_shown change =
      is_replicable filter_of change.id && is_permitted permissions filter_of ability change

  abbrev pub is_lost : ChangeResult → Bool
  is_lost change =
      is_replicable filter_of change.id
      && not (is_permitted permissions filter_of ability change)
      && is_some change.doc

  module _ (limit : Option ℕ) where
    abbrev pub scan : Scan → List ChangeResult → Scan × ℕ
    scan s changes = scan_changes permissions filter_of ability limit s changes

    -- A run of the loop from `s`: it handles the changes of `handled`, and leaves `rest`.
    pub record Run (s : Scan) (changes : List ChangeResult) (out : Scan) (left : ℕ) : Type 0 where
      pub handled : List ChangeResult
      pub rest : List ChangeResult
      pub parts : changes ≡ handled ++ rest
      pub permitted : out.permitted ≡ s.permitted ++ filter is_shown handled
      pub lost : out.lost_permissions ≡ s.lost_permissions ++ ids (filter is_lost handled)
      pub seq : out.last_processed_seq ≡ seq_after s.last_processed_seq handled
      pub count : left ≡ length rest
      pub stopped : (rest ≡ []) ⊎ (reaches (length out.permitted) limit ≡ true)

    module _ (s s' : Scan) (change : ChangeResult)
        (step : scan_change permissions filter_of ability limit s change ≡ some s') where
      step_permitted : s'.permitted ≡ s.permitted ++ filter is_shown (change ∷ [])
      unfolding scan_change
      step_permitted = ground (arith, append-nil s.permitted)

      step_lost : s'.lost_permissions ≡ s.lost_permissions ++ ids (filter is_lost (change ∷ []))
      unfolding scan_change
      step_lost = ground (arith, append-nil s.lost_permissions)

      step_seq : s'.last_processed_seq ≡ change.seq
      unfolding scan_change
      step_seq = ground arith

    break_reaches :
        (s : Scan) (change : ChangeResult)
        → scan_change permissions filter_of ability limit s change ≡ none
        → reaches (length s.permitted) limit ≡ true
    unfolding scan_change
    break_reaches s change h = ground arith

    Run-cons :
        (s s' out : Scan) (left : ℕ) (change : ChangeResult) (changes : List ChangeResult)
        → scan_change permissions filter_of ability limit s change ≡ some s'
        → Run s' changes out left
        → Run s (change ∷ changes) out left
    Run-cons s s' out left change changes step r = record {
      handled = change ∷ r.handled;
      rest = r.rest;
      parts = ap (λ l. change ∷ l) r.parts;
      permitted =
          r.permitted
          ∙ ap (λ l. l ++ filter is_shown r.handled) (step_permitted s s' change step)
          ∙ append_assoc s.permitted (filter is_shown (change ∷ [])) (filter is_shown r.handled)
          ∙ ap (λ l. s.permitted ++ l) (sym (filter-append is_shown (change ∷ []) r.handled));
      lost =
          r.lost
          ∙ ap (λ l. l ++ ids (filter is_lost r.handled)) (step_lost s s' change step)
          ∙ append_assoc s.lost_permissions (ids (filter is_lost (change ∷ [])))
              (ids (filter is_lost r.handled))
          ∙ ap (λ l. s.lost_permissions ++ l)
              (sym (
                map-append (λ (c : ChangeResult). c.id) (filter is_lost (change ∷ []))
                  (filter is_lost r.handled)))
          ∙ ap (λ l. s.lost_permissions ++ ids l)
              (sym (filter-append is_lost (change ∷ []) r.handled));
      seq = r.seq ∙ ap (λ q. seq_after q r.handled) (step_seq s s' change step);
      count = r.count;
      stopped = r.stopped;
    }

    pub scan_run :
        (s : Scan) (changes : List ChangeResult)
        → Run s changes (scan s changes).0 (scan s changes).1
    unfolding scan_changes
    scan_run s [] = record {
      handled = [];
      rest = [];
      parts = refl;
      permitted = sym (append-nil s.permitted);
      lost = sym (append-nil s.lost_permissions);
      seq = refl;
      count = refl;
      stopped = inl refl;
    }
    scan_run s (change ∷ changes) =
        elim (Option-cases (scan_change permissions filter_of ability limit s change)) [
          | inl e ↦
              rw (e, scan_changes)
                (record {
                  handled = [];
                  rest = change ∷ changes;
                  parts = refl;
                  permitted = sym (append-nil s.permitted);
                  lost = sym (append-nil s.lost_permissions);
                  seq = refl;
                  count = refl;
                  stopped = inr (break_reaches s change e);
                })
          | inr (s', e) ↦
              rw (e, scan_changes)
                (Run-cons s s' (scan s' changes).0 (scan s' changes).1 change changes e
                  (scan_run s' changes))
        ]
