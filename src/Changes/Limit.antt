-- ===== src/Changes/Limit.antt =====
-- `filterChanges` of changes.controller.ts: what a batch shows, how much, and where it resumes.
use replication_backend.Prelude.{
  ◌⊎◌, ℕ, ◌+◌, ◌≤◌, String, true, some, Option, List, [], ◌∷◌, ◌++◌, filter, length, ◌≡◌, ◌≢◌, inl,
  inr, arith, Option-cases, length-append,
}
use replication_backend.Couch.{ChangeResult, ChangesResponse}
use replication_backend.Casl.{Permissions}
use replication_backend.DocumentFilter.{DocumentFilter}
use replication_backend.Changes.{Scan, reaches, scan_change, scan_changes, filter_changes}
use replication_backend.Changes.Batch.{seq_after, ids, is_shown, is_lost, Run, scan_run}

-- Where a client goes on: behind the whole batch, or behind the last change that was handled.
abbrev pub resume_point : String → List ChangeResult → List ChangeResult → String
resume_point batch_end handled [] = batch_end
resume_point batch_end handled (change ∷ rest) = seq_after batch_end handled

module _ (permissions : Permissions) (filter_of : DocumentFilter)
    (ability : permissions.Ability) where
  -- `out` shows a first part of the batch, and the next request begins at the rest.
  pub record Continues (changes : ChangesResponse) (limit : Option ℕ) (out : ChangesResponse)
      : Type 0 where
    pub handled : List ChangeResult
    pub rest : List ChangeResult
    pub parts : changes.results ≡ handled ++ rest
    pub shown : out.results ≡ filter (is_shown permissions filter_of ability) handled
    pub purged : out.lost_permissions ≡ ids (filter (is_lost permissions filter_of ability) handled)
    pub pending : out.pending ≡ changes.pending + length rest
    pub resume : out.last_seq ≡ resume_point changes.last_seq handled rest
    pub full : (rest ≡ []) ⊎ (reaches (length out.results) limit ≡ true)
    pub moves : (limit ≡ some 0) ⊎ ((rest ≡ []) ⊎ (handled ≢ []))

  module _ (changes : ChangesResponse) (limit : Option ℕ) where
    abbrev start : Scan
    start = record { permitted = []; lost_permissions = []; last_processed_seq = changes.last_seq }

    abbrev final : Scan × ℕ
    final = scan_changes permissions filter_of ability limit start changes.results

    abbrev run : Run permissions filter_of ability limit start changes.results final.0 final.1
    run = scan_run permissions filter_of ability limit start changes.results

  step_bound :
      (n : ℕ) (s s' : Scan) (change : ChangeResult)
      → scan_change permissions filter_of ability (some n) s change ≡ some s'
      → length s.permitted ≤ n
      → length s'.permitted ≤ n
  unfolding scan_change
  step_bound n s s' change e h = ground (arith, length-append s.permitted (change ∷ []))

  scan_bound :
      (n : ℕ) (s : Scan) (changes : List ChangeResult)
      → length s.permitted ≤ n
      → length (scan_changes permissions filter_of ability (some n) s changes).0.permitted ≤ n
  unfolding scan_changes
  scan_bound n s [] h = h
  scan_bound n s (change ∷ changes) h =
      elim (Option-cases (scan_change permissions filter_of ability (some n) s change)) [
        | inl e ↦ rw (e, scan_changes) h
        | inr (s', e) ↦
            rw (e, scan_changes) (scan_bound n s' changes (step_bound n s s' change e h))
      ]

  -- A batch never shows more changes than the limit asks for.
  pub filter_changes_bound :
      (changes : ChangesResponse) (n : ℕ)
      → length (filter_changes permissions filter_of changes ability (some n)).results ≤ n
  unfolding filter_changes
  filter_changes_bound changes n = scan_bound n _ changes.results (omega arith)

  -- With the limit 0, a batch that begins with a change that the user may see shows nothing, counts
  -- all of its changes as pending, and yet sends the client on behind the whole batch.
  pub limit_zero_skips :
      (changes : ChangesResponse) (first : ChangeResult) (others : List ChangeResult)
      → changes.results ≡ first ∷ others
      → is_shown permissions filter_of ability first ≡ true
      → filter_changes permissions filter_of changes ability (some 0) ≡ record {
        results = [];
        lost_permissions = [];
        last_seq = changes.last_seq;
        pending = changes.pending + length (first ∷ others);
      }
  unfolding filter_changes scan_changes scan_change
  limit_zero_skips changes first others e h = rw (e, filter_changes, scan_changes) (ground arith)
