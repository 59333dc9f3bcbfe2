-- ===== src/Audit/Service.antt =====
-- `class DefaultAuditService` of src/audit/audit.service.ts, and `class NoopAuditService` of
-- src/audit/noop-audit.service.ts. Outside the program, and parameters here: CouchDB, the server's
-- clock, lodash's `omit`, the diff library, `JSON.stringify` on a text, and the last character of
-- a range of ids (U+FFF0 in the source).
use replication_backend.Prelude.{
  String, Bool, false, not, ◌||◌, Option, none, some, List, [], ◌∷◌, ◌++◌, filter, Dict, contains,
  eqb, length, ◌&◌, is_some, if◌then◌else◌, ◌≡◌, refl, arith, or_else,
}
use replication_backend.Json.{Json, str, num, obj, of_entries, DatabaseDocument, id_of, rev_of}
use replication_backend.Effects.{ok, Io, pure, catch, ◌>>=◌, ◌>>◌}
use replication_backend.Couch.{
  Couch, World, DocResult, BulkDocsRequest, get, post, create_db, audit_records, send,
}
use replication_backend.Casl.{UserInfo, Lodash}
use replication_backend.AuditRecord.{
  AuditOperation, AuditRecordEntity, build_audit_id, audit_id_prefix, audit_user, audit_db_for,
  is_audit_db,
}
use replication_backend.Audit.{AuditEntry, AuditService}
use replication_backend.Audit.Entries.{
  ignored_diff_fields, parent_rev_of, build_bulk_entries, is_relevant, is_create,
}

-- What surrounds the service.
pub record AuditTools : Type 0 where
  pub couch : Couch
  pub now : World → String
  pub lodash : Lodash
  pub diff : Option DatabaseDocument → Option DatabaseDocument → Option Json
  pub stringify_text : String → String
  pub high_sentinel : String

-- `await … .catch(() => undefined)` on an action without a value ends well.
catch_ok : (m : Io World (Unit {0})) (w : World) → (catch m (λ e. pure tt) w).0 ≡ ok tt
catch_ok m w = ground (arith, m w)

module _ (tools : AuditTools) where
  open tools use {couch, now, diff, stringify_text, high_sentinel, lodash.{omit}}

  abbrev pub clean : Option DatabaseDocument → Option DatabaseDocument
  clean none = none
  clean (some doc) = some (omit doc ignored_diff_fields)

  -- `diff: this.clean(existingDoc)`: a document as a JSON value
  unfoldable pub build_baseline :
      String → String → DatabaseDocument → Option UserInfo → String → AuditRecordEntity
  build_baseline db entity_id existing user timestamp = record {
    id = build_audit_id entity_id timestamp (rev_of existing);
    entity_id = entity_id;
    database = db;
    operation = AuditOperation.baseline;
    rev = rev_of existing;
    parent_rev = parent_rev_of existing;
    timestamp = timestamp;
    user = audit_user user;
    diff = some (obj (of_entries (omit existing ignored_diff_fields)));
  }

  unfoldable pub build_record :
      String → String → AuditEntry → Option UserInfo → String → AuditRecordEntity
  build_record db entity_id entry user timestamp =
      let rev : Option String = elim entry.new_rev [
        | some r ↦ some r
        | none ↦ rev_of entry.new_doc
      ] in
      record {
        id = build_audit_id entity_id timestamp rev;
        entity_id = entity_id;
        database = db;
        operation = entry.operation;
        rev = rev;
        parent_rev = parent_rev_of entry.new_doc;
        timestamp = timestamp;
        user = audit_user user;
        diff = diff (clean entry.existing_doc) (clean (some entry.new_doc));
      }

  abbrev pub audit_range : String → Dict Json
  audit_range entity_id =
      ("startkey", str (stringify_text (audit_id_prefix entity_id & ":")))
      ∷ ("endkey", str (stringify_text (audit_id_prefix entity_id & ":" & high_sentinel)))
      ∷ ("limit", num 1)
      ∷ []

  -- A failed lookup counts as audited.
  unfoldable pub is_first_audit_for : String → String → Io World Bool
  is_first_audit_for audit_db entity_id =
      catch
        (do
          rows ← send (get audit_db "_all_docs" (audit_range entity_id)) couch.rows
          pure (eqb (length rows) 0))
        (λ e. pure false)

  unfoldable pub needs_baseline : String → String → AuditEntry → Io World Bool
  needs_baseline audit_db entity_id entry =
      if not (is_some entry.existing_doc) || is_create entry.operation
      then pure false
      else is_first_audit_for audit_db entity_id

  -- The records of one entry: a baseline before it where one is needed.
  unfoldable pub records_after :
      String
      → Option UserInfo
      → String
      → AuditEntry
      → Option DatabaseDocument
      → Io World (List AuditRecordEntity)
  records_after db user timestamp entry none =
      pure (build_record db (or_else (id_of entry.new_doc) "") entry user timestamp ∷ [])
  records_after db user timestamp entry (some existing) =
      let entity_id = or_else (id_of entry.new_doc) "" in
      let written = build_record db entity_id entry user timestamp in
      do
        needed ← needs_baseline (audit_db_for db) entity_id entry
        pure (
            if needed
            then build_baseline db entity_id existing user timestamp ∷ written ∷ []
            else written ∷ [])

  abbrev pub records_of :
      String → Option UserInfo → String → AuditEntry → Io World (List AuditRecordEntity)
  records_of db user timestamp entry = records_after db user timestamp entry entry.existing_doc

  -- `new Date().toISOString()`
  abbrev pub read_clock : Io World String
  read_clock w = (ok (now w), w)

  -- The loop over the relevant entries.
  unfoldable pub build_records :
      String → Option UserInfo → String → List AuditEntry → Io World (List AuditRecordEntity)
  build_records db user timestamp [] = pure []
  build_records db user timestamp (entry ∷ rest) = do
    records ← records_of db user timestamp entry
    others ← build_records db user timestamp rest
    pure (records ++ others)

  -- `this.ensuredDbs.add(auditDb)`
  abbrev pub remember : String → Io World (Unit {0})
  remember audit_db w = (ok tt, record w { ensured_dbs = audit_db ∷ w.ensured_dbs })

  unfoldable pub ensure_db : String → Io World (Unit {0})
  ensure_db audit_db w =
      if contains w.ensured_dbs audit_db
      then (ok tt, w)
      else (do send (create_db audit_db) couch.created; remember audit_db) w

  -- The body of the `try` in `record`.
  unfoldable pub write_records : String → List AuditEntry → Option UserInfo → Io World (Unit {0})
  write_records db relevant user = do
    ensure_db (audit_db_for db)
    timestamp ← read_clock
    records ← build_records db user timestamp relevant
    send (post (audit_db_for db) "_bulk_docs" (audit_records records) []) couch.written
    pure tt

  abbrev pub record_relevant : String → List AuditEntry → Option UserInfo → Io World (Unit {0})
  record_relevant db [] user = pure tt
  record_relevant db (entry ∷ rest) user =
      catch (write_records db (entry ∷ rest) user) (λ e. pure tt)

  unfoldable pub record_entries : String → List AuditEntry → Option UserInfo → Io World (Unit {0})
  record_entries db given user =
      if is_audit_db db then pure tt else record_relevant db (filter is_relevant given) user

  unfoldable pub record_bulk_write :
      String
      → BulkDocsRequest
      → Dict DatabaseDocument
      → List DocResult
      → Option UserInfo
      → Io World (Unit {0})
  record_bulk_write db written existing_docs response user =
      record_entries db (build_bulk_entries written existing_docs response) user

  -- Recording never fails, whatever the database answers.
  pub record_entries_ok :
      (db : String) (given : List AuditEntry) (user : Option UserInfo) (w : World)
      → (record_entries db given user w).0 ≡ ok tt
  unfolding record_entries
  record_entries_ok db given user w =
      ground (arith, catch_ok (write_records db (filter is_relevant given) user) w)

  pub record_bulk_write_ok :
      (db : String) (written : BulkDocsRequest) (existing : Dict DatabaseDocument)
      (response : List DocResult) (user : Option UserInfo) (w : World)
      → (record_bulk_write db written existing response user w).0 ≡ ok tt
  unfolding record_bulk_write
  record_bulk_write_ok db written existing response user w =
      record_entries_ok db (build_bulk_entries written existing response) user w

  -- `AuditModule` with auditing enabled
  unfoldable pub default_audit_service : AuditService
  default_audit_service = record {
    record_entries = record_entries;
    record_bulk_write = record_bulk_write;
    record_entries_ok = record_entries_ok;
    record_bulk_write_ok = record_bulk_write_ok;
  }

-- `AuditModule` with auditing disabled
unfoldable pub noop_audit_service : AuditService
noop_audit_service = record {
  record_entries = λ db given user. pure tt;
  record_bulk_write = λ db written existing response user. pure tt;
  record_entries_ok = λ db given user w. refl;
  record_bulk_write_ok = λ db written existing response user w. refl;
}
