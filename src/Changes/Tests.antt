-- ===== src/Changes/Tests.antt =====
-- Tests of the changes feed.
use replication_backend.Prelude.{suc, ◌+◌, none, some, [], ◌∷◌, lookup, ◌≡◌, ◌≢◌, refl, arith}
use replication_backend.Effects.{ok}
use replication_backend.DocumentFilter.{is_replicable}
use replication_backend.Changes.{
  filter_changes, max_processing_time_ms, is_permitted, is_clean_tombstone,
}
use replication_backend.Changes.Limit.{limit_zero_skips}
use replication_backend.Changes.Stream.{changes, fresh}
use replication_backend.Changes.Ends.{changes_ends}
use replication_backend.Changes.Written.{HoldsAtMost}
use replication_backend.Changes.Progress.{changes-limit}
use replication_backend.Fixtures.{
  children_only, no_designs, teacher, child, school, change_of, two_changes, surroundings,
  one_result,
}

limit_zero_skips_example :
    filter_changes children_only no_designs two_changes (some teacher) (some 0)
    ≡ record { results = []; lost_permissions = []; last_seq = "2"; pending = 2 }
unfolding is_replicable is_permitted lookup is_clean_tombstone
limit_zero_skips_example =
    limit_zero_skips children_only no_designs (some teacher) two_changes (change_of "1" child)
      (change_of "2" school ∷ []) refl refl

changes-limit_example :
    HoldsAtMost surroundings 1
      (changes surroundings children_only no_designs "app" one_result 3 (some teacher) fresh).1.text
changes-limit_example =
    changes-limit surroundings children_only no_designs "app" one_result 1 refl 3 (some teacher)
      fresh (refl, refl, refl)

changes_ends_example :
    (changes surroundings children_only no_designs "app" one_result
      (suc (0 + max_processing_time_ms))
      (some teacher)
      fresh).0
    ≢ ok none
changes_ends_example =
    changes_ends surroundings children_only no_designs "app" one_result (λ s. omega arith)
      (some teacher) fresh
