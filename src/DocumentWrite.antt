-- ===== src/DocumentWrite.antt =====
-- src/restricted-endpoints/document/document-write.service.ts
pub mod Put
pub mod Fields
pub mod Delete
mod Tests
use replication_backend.Prelude.{
  String, Bool, true, false, not, Option, none, some, List, [], ◌∷◌, ◌==◌, Dict, insert,
  if◌then◌else◌,
}
use replication_backend.Json.{Json, str, bool, DatabaseDocument}
use replication_backend.Effects.{http_exception, Error, Io, pure, lift, raise, ◌>>=◌, ◌>>◌}
use replication_backend.Couch.{Couch, World, DocResult, Request, get, put, delete, send}
use replication_backend.Casl.{Permissions, Action, UserInfo, Lodash}
use replication_backend.AuditRecord.{AuditOperation}
use replication_backend.Audit.{AuditEntry, AuditService}
use replication_backend.Permission.{fetch_or_none, is_allowed_to}

-- `new UnauthorizedException('unauthorized', 'User is not permitted')`
abbrev pub unauthorized : Error
unauthorized = http_exception 401 "unauthorized"

-- `Object.assign(target, source)`
unfoldable pub assign : DatabaseDocument → DatabaseDocument → DatabaseDocument
assign target [] = target
assign target ((k, v) ∷ source) = assign (insert k v target) source

-- `if (ifMatch) document._rev = ifMatch`
abbrev pub with_rev : Option String → DatabaseDocument → DatabaseDocument
with_rev none doc = doc
with_rev (some rev) doc = if rev == "" then doc else insert "_rev" (str rev) doc

module _ (permissions : Permissions) (couch : Couch) (audit : AuditService) (lodash : Lodash) where
  open permissions use {Ability, ability_for, permitted_fields_of}

  -- `applyPermissions`, and the assignment of `_rev` after it: that one reaches the result only
  -- where the result is the submitted document itself.
  unfoldable pub apply_fields :
      List String → Option String → DatabaseDocument → DatabaseDocument → DatabaseDocument
  apply_fields [] if_match old_doc new_doc = with_rev if_match new_doc
  apply_fields (f ∷ fs) if_match old_doc new_doc = assign old_doc (lodash.pick new_doc (f ∷ fs))

  abbrev pub final_doc :
      Ability → Option String → DatabaseDocument → DatabaseDocument → DatabaseDocument
  final_doc ability if_match old_doc new_doc =
      apply_fields (permitted_fields_of ability Action.update old_doc) if_match old_doc new_doc

  -- `if (!allowed) throw new UnauthorizedException(…)`
  abbrev pub require : Bool → Io World (Unit {0})
  require allowed = if allowed then pure tt else raise unauthorized

  -- Send the write, record it with the revision that it got, and answer what CouchDB answered.
  unfoldable pub write_and_audit :
      String → Request → (Option String → AuditEntry) → Option UserInfo → Io World DocResult
  write_and_audit db request entry_for user = do
    result ← send request couch.stored
    audit.record_entries db (entry_for result.rev ∷ []) user
    pure result

  abbrev pub entry :
      Option DatabaseDocument → DatabaseDocument → AuditOperation → Option String → AuditEntry
  entry existing doc operation rev = record {
    existing_doc = existing;
    new_doc = doc;
    new_rev = rev;
    operation = operation;
  }

  unfoldable pub create_document : String → DatabaseDocument → Option UserInfo → Io World DocResult
  create_document db doc user = do
    allowed ← is_allowed_to permissions couch Action.create doc user db
    require allowed
    write_and_audit db (put db doc) (entry none doc AuditOperation.create) user

  unfoldable pub update_document :
      String
      → DatabaseDocument
      → DatabaseDocument
      → Option UserInfo
      → Option String
      → Io World DocResult
  update_document db existing doc user if_match = do
    allowed ← is_allowed_to permissions couch Action.update existing user db
    require allowed
    ability ← lift (ability_for user)
    let final = final_doc ability if_match existing doc
    write_and_audit db (put db final) (entry (some existing) final AuditOperation.update) user

  abbrev pub put_over :
      String
      → DatabaseDocument
      → Option UserInfo
      → Option String
      → Option DatabaseDocument
      → Io World DocResult
  put_over db doc user if_match none = create_document db doc user
  put_over db doc user if_match (some existing) = update_document db existing doc user if_match

  -- `document._id = docId`
  abbrev pub named : String → DatabaseDocument → DatabaseDocument
  named doc_id doc = insert "_id" (str doc_id) doc

  unfoldable pub put_document :
      String → String → DatabaseDocument → Option UserInfo → Option String → Io World DocResult
  put_document db doc_id doc user if_match = do
    existing ← fetch_or_none couch db doc_id
    put_over db (named doc_id doc) user if_match existing

  unfoldable pub delete_document :
      String → String → Option UserInfo → Dict Json → Io World DocResult
  delete_document db doc_id user query_params = do
    doc ← send (get db doc_id query_params) couch.document
    allowed ← is_allowed_to permissions couch Action.delete doc user db
    require allowed
    write_and_audit db (delete db doc_id query_params)
        (entry (some doc) (insert "_deleted" (bool true) doc) AuditOperation.delete) user
