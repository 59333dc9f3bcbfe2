-- ===== src/DocumentWrite/Delete.antt =====
-- `deleteDocument` of src/restricted-endpoints/document/document-write.service.ts.
use replication_backend.Prelude.{String, false, Option, ◌∷◌, ◌==◌, ◌≡◌, Dict, if◌then◌else◌}
use replication_backend.Json.{DatabaseDocument, Json}
use replication_backend.Effects.{Result, ok, throw}
use replication_backend.Couch.{Couch, World, DocResult, Request, get, delete}
use replication_backend.Casl.{Permissions, Action, document, UserInfo, Lodash}
use replication_backend.Audit.{AuditService}
use replication_backend.Permission.{attachments_db}
use replication_backend.DocumentWrite.{unauthorized}

module _ (permissions : Permissions) (couch : Couch) (audit : AuditService) (lodash : Lodash)
    (db : String) (plain : (db == attachments_db) ≡ false) (doc_id : String)
    (user : Option UserInfo) (query : Dict Json) (w : World) where
  open permissions use {Ability, ability_for, can}

  abbrev pub read_request : Request
  read_request = get db doc_id query

  -- What a DELETE answers about the document that it has read, by the ability of the user.
  abbrev pub decided : DatabaseDocument → Result Ability → Result DocResult
  decided doc (throw e) = throw e
  decided doc (ok ability) =
      if can ability Action.delete (document doc)
      then couch.stored (delete db doc_id query ∷ read_request ∷ w.sent)
      else throw unauthorized

  -- What a DELETE answers, by the reply to reading the document.
  abbrev pub delete_reply : Result DatabaseDocument → Result DocResult
  delete_reply (throw e) = throw e
  delete_reply (ok doc) = decided doc (ability_for user)
