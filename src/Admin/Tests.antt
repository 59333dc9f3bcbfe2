-- ===== src/Admin/Tests.antt =====
-- Tests of the deletion of checkpoints.
use replication_backend.Prelude.{String, some, none, List, [], ◌∷◌, filter, ◌≡◌, refl}
use replication_backend.Effects.{ok, throw, other_error}
use replication_backend.Couch.{Couch, DocMetaInf, get}
use replication_backend.Admin.{is_checkpoint, clear_local}
use replication_backend.Admin.Checkpoints.{deletions, sent-clear_local}
use replication_backend.Fixtures.{one_child, start}

abbrev local : String → DocMetaInf
local id = record { id = some id; key = id; doc = none }

abbrev rows : List DocMetaInf
rows = local "_local/a" ∷ local "_local/shard-sync-1" ∷ local "_local/b" ∷ []

-- No document can be deleted.
abbrev locked : Couch
locked = record one_child {
  rows = λ history. ok rows;
  stored = λ history. throw (other_error "locked");
}

sent-clear_local_example :
    (clear_local locked "app" start).1.sent
    ≡ deletions "app"
        (filter is_checkpoint ("_local/a" ∷ "_local/shard-sync-1" ∷ "_local/b" ∷ []))
        (get "app" "_local_docs" [] ∷ start.sent)
sent-clear_local_example =
    sent-clear_local locked "app" start rows ("_local/a" ∷ "_local/shard-sync-1" ∷ "_local/b" ∷ [])
      refl refl
