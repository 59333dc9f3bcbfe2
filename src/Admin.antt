-- ===== src/Admin.antt =====
-- src/admin/admin.service.ts: the deletion of the replication checkpoints of a database.
pub mod Checkpoints
mod Tests
use replication_backend.Prelude.{
  String, Bool, not, ◌&&◌, Option, none, some, List, [], ◌∷◌, filter, includes,
}
use replication_backend.Effects.{
  Error, other_error, Result, ok, throw, result_then, Io, pure, raise, ◌>>=◌, ◌>>◌,
}
use replication_backend.Couch.{World, Couch, DocMetaInf, DocResult, get, delete, send}

-- A row with no id makes `id.includes` throw.
abbrev pub ids_of : List DocMetaInf → Result (List String)
ids_of [] = ok []
ids_of (row ∷ rows) = elim row.id [
  | none ↦ throw (other_error "TypeError")
  | some id ↦ result_then (ids_of rows) λ ids. ok (id ∷ ids)
]

abbrev pub is_checkpoint : String → Bool
is_checkpoint id = not (includes id "purge-mrview") && not (includes id "shard-sync")

-- `Promise.all` of the deletions: each of them is sent, and the first that fails is thrown.
unfoldable pub delete_all : Couch → String → List String → Io World (Unit {0})
delete_all couch db [] w = (ok tt, w)
delete_all couch db (id ∷ ids) w =
    let (r, w1) = send (delete db id []) couch.stored w in
    let (rest, w2) = delete_all couch db ids w1 in (result_then r λ deleted. rest, w2)

-- `clearLocal`
unfoldable pub clear_local : Couch → String → Io World (Unit {0})
clear_local couch db = do
  rows ← send (get db "_local_docs" []) couch.rows
  ids ← λ w. (ids_of rows, w)
  delete_all couch db (filter is_checkpoint ids)
