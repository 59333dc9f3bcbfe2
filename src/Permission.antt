-- ===== src/Permission.antt =====
-- src/permissions/permission/permission.service.ts: the subject of a document and the check of one
-- action.
pub mod Allowed
mod Tests
use replication_backend.Prelude.{
  String, Bool, true, false, not, ◌&&◌, ◌||◌, Option, none, some, [], ◌==◌, before, or_else,
  if◌then◌else◌, lookup,
}
use replication_backend.Json.{DatabaseDocument, id_of, non_empty}
use replication_backend.Effects.{Result, ok, throw, other_error, Io, pure, lift, catch, ◌>>=◌}
use replication_backend.Couch.{Couch, World, get, send}
use replication_backend.Casl.{Permissions, Action, read, create, update, document, UserInfo}

-- `subject._id.split(':')[0]`
unfoldable pub detect_document_type : DatabaseDocument → Result String
detect_document_type doc = elim (non_empty (id_of doc)) [
  | none ↦ throw (other_error "Cannot detect document type: missing _id")
  | some id ↦ ok (before b':' id)
]

abbrev pub attachments_db : String
attachments_db = "app-attachments"

abbrev pub is_read : Action → Bool
is_read read = true
is_read _ = false

-- A document that is there, or `undefined` where fetching it fails.
unfoldable pub fetch_or_none : Couch → String → String → Io World (Option DatabaseDocument)
fetch_or_none couch db id =
    catch (do doc ← send (get db id []) couch.document; pure (some doc)) (λ e. pure none)

module _ (permissions : Permissions) (couch : Couch) where
  open permissions use {Ability, ability_for, can}

  -- The answer once the document to check is known; for attachments every action but `read` is
  -- granted by the permission to create or to update the entity.
  unfoldable pub decide : Ability → Action → Bool → Option DatabaseDocument → Bool
  decide ability action attachments none = false
  decide ability action attachments (some doc) =
      if attachments && not (is_read action)
      then can ability create (document doc) || can ability update (document doc)
      else can ability action (document doc)

  unfoldable pub is_allowed_to :
      Action → DatabaseDocument → Option UserInfo → String → Io World Bool
  is_allowed_to action doc user db = do
    ability ← lift (ability_for user)
    if db == attachments_db
        then (do
          entity ← fetch_or_none couch "app" (or_else (id_of doc) "")
          pure (decide ability action true entity))
        else pure (decide ability action false (some doc))
