-- ===== src/Admin/Checkpoints.antt =====
-- What `clearLocal` deletes.
use replication_backend.Prelude.{String, List, [], ◌∷◌, filter, ◌≡◌, refl, ◌∙◌, ap, arith}
use replication_backend.Effects.{ok}
use replication_backend.Couch.{World, Request, Couch, DocMetaInf, get, delete}
use replication_backend.Admin.{ids_of, is_checkpoint, delete_all, clear_local}

-- The deletions as they stand in the history, the latest first.
abbrev pub deletions : String → List String → List Request → List Request
deletions db [] before = before
deletions db (id ∷ ids) before = deletions db ids (delete db id [] ∷ before)

sent-delete_all :
    (couch : Couch) (db : String) (ids : List String) (w : World)
    → (delete_all couch db ids w).1.sent ≡ deletions db ids w.sent
unfolding delete_all
sent-delete_all couch db [] w = refl
sent-delete_all couch db (id ∷ ids) w =
    sent-delete_all couch db ids (record w { sent = delete db id [] ∷ w.sent })

-- Where the local documents are listed, each with its id, every one of them but the bookkeeping of
-- CouchDB itself is asked to be deleted, once and in order, and nothing else; whatever becomes of the
-- single deletions.
pub sent-clear_local :
    (couch : Couch) (db : String) (w : World) (rows : List DocMetaInf) (ids : List String)
    → couch.rows (get db "_local_docs" [] ∷ w.sent) ≡ ok rows
    → ids_of rows ≡ ok ids
    → (clear_local couch db w).1.sent
      ≡ deletions db (filter is_checkpoint ids) (get db "_local_docs" [] ∷ w.sent)
unfolding clear_local
sent-clear_local couch db w rows ids h k =
    let listed : World = record w { sent = get db "_local_docs" [] ∷ w.sent } in
    let ends : (clear_local couch db w).1
        ≡ (delete_all couch db (filter is_checkpoint ids) listed).1 =
      ground (arith, h, k) in
    ap (λ u. u.sent) ends ∙ sent-delete_all couch db (filter is_checkpoint ids) listed
