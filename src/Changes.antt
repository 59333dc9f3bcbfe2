-- ===== src/Changes.antt =====
-- src/restricted-endpoints/replication/changes/changes.controller.ts: the filter of one batch, and
-- the constants. The loop over batches and the streamed response are in Changes/Stream.antt.
pub mod Batch
pub mod Stream
pub mod Limit
pub mod Written
pub mod Progress
pub mod Ends
mod Tests
use replication_backend.Prelude.{
  ℕ, ◌+◌, ◌*◌, min, String, Bool, true, false, ◌||◌, ◌&&◌, Option, none, some, List, [], ◌∷◌, ◌++◌,
  length, leb, ltb, eqb, if◌then◌else◌, is_some,
}
use replication_backend.Json.{DatabaseDocument, is_deleted}
use replication_backend.Couch.{ChangeResult, ChangesResponse}
use replication_backend.Casl.{Permissions, read, document}
use replication_backend.DocumentFilter.{DocumentFilter, is_replicable}

-- `INTERNAL_LIMIT_MULTIPLIER`, `MAX_PROCESSING_TIME_MS`, `MAX_INTERNAL_LIMIT` and
-- `CLEAN_TOMBSTONE_PROPERTY_COUNT`
abbrev pub internal_limit_multiplier : ℕ
internal_limit_multiplier = 5

abbrev pub max_processing_time_ms : ℕ
max_processing_time_ms = 8000

abbrev pub max_internal_limit : ℕ
max_internal_limit = 1000

abbrev pub clean_tombstone_property_count : ℕ
clean_tombstone_property_count = 3

-- `Math.min(limit * INTERNAL_LIMIT_MULTIPLIER, MAX_INTERNAL_LIMIT)`; no limit is `Infinity`
unfoldable pub internal_limit : Option ℕ → ℕ
internal_limit none = max_internal_limit
internal_limit (some limit) = min (limit * internal_limit_multiplier) max_internal_limit

-- `n >= limit`
abbrev pub reaches : ℕ → Option ℕ → Bool
reaches n none = false
reaches n (some limit) = leb limit n

unfoldable pub is_clean_tombstone : DatabaseDocument → Bool
is_clean_tombstone doc = is_deleted doc && eqb (length doc) clean_tombstone_property_count

-- The variables of the loop in `filterChanges`.
pub record Scan : Type 0 where
  pub permitted : List ChangeResult
  pub lost_permissions : List String
  pub last_processed_seq : String

module _ (permissions : Permissions) (filter_of : DocumentFilter) where
  open permissions use {Ability, can}

  abbrev pub may_read : Ability → Option DatabaseDocument → Bool → Bool
  may_read ability none deleted = deleted
  may_read ability (some doc) deleted = is_clean_tombstone doc || can ability read (document doc)

  unfoldable pub is_permitted : Ability → ChangeResult → Bool
  is_permitted ability change = may_read ability change.doc change.deleted

  -- One round of the loop; `none` is its `break`.
  unfoldable pub scan_change : Ability → Option ℕ → Scan → ChangeResult → Option Scan
  scan_change ability limit s change =
      if is_replicable filter_of change.id
      then (if is_permitted ability change
          then (if reaches (length s.permitted) limit
              then none
              else some (record s {
                permitted = s.permitted ++ change ∷ [];
                last_processed_seq = change.seq;
              }))
          else if is_some change.doc
          then some (record s {
            lost_permissions = s.lost_permissions ++ change.id ∷ [];
            last_processed_seq = change.seq;
          })
          else some (record s { last_processed_seq = change.seq }))
      else some (record s { last_processed_seq = change.seq })

  -- The loop, with the number of changes that a `break` leaves unprocessed.
  unfoldable pub scan_changes : Ability → Option ℕ → Scan → List ChangeResult → Scan × ℕ
  scan_changes ability limit s [] = (s, 0)
  scan_changes ability limit s (change ∷ rest) = elim (scan_change ability limit s change) [
    | none ↦ (s, length (change ∷ rest))
    | some s' ↦ scan_changes ability limit s' rest
  ]

  unfoldable pub filter_changes : ChangesResponse → Ability → Option ℕ → ChangesResponse
  filter_changes changes ability limit =
      let start : Scan = record {
        permitted = [];
        lost_permissions = [];
        last_processed_seq = changes.last_seq;
      } in
      let (s, unprocessed) = scan_changes ability limit start changes.results in
      record {
        results = s.permitted;
        lost_permissions = s.lost_permissions;
        last_seq = if ltb 0 unprocessed then s.last_processed_seq else changes.last_seq;
        pending = changes.pending + unprocessed;
      }
