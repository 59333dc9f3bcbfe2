-- ===== src/Audit/Records.antt =====
-- The records that `record` of src/audit/audit.service.ts posts: one for each write, in order, and
-- baselines between them.
use replication_backend.Prelude.{
  String, Bool, true, false, not, ◌||◌, ap₂, ◌∙◌, Option, none, some, List, [], ◌∷◌, ◌++◌, map,
  filter, contains, ◌≡◌, ◌≢◌, refl, arith, All, filter-append, is_some, or_else, inl, inr,
  if◌then◌else◌,
}
use replication_backend.Json.{DatabaseDocument, id_of}
use replication_backend.Effects.{ok, Result-cases, Io, pure}
use replication_backend.Couch.{World, Request, get, post, audit_records}
use replication_backend.Casl.{UserInfo}
use replication_backend.AuditRecord.{AuditOperation, AuditRecordEntity, audit_db_for, is_audit_db}
use replication_backend.Audit.{AuditEntry}
use replication_backend.Audit.Entries.{is_relevant, is_create}
use replication_backend.Audit.Service.{
  AuditTools, build_record, build_baseline, is_first_audit_for, needs_baseline, records_after,
  build_records, ensure_db, write_records, record_entries, audit_range, record_relevant,
}

abbrev pub is_baseline : AuditRecordEntity → Bool
is_baseline r = elim r.operation [ AuditOperation.baseline ↦ true | _ ↦ false ]

abbrev pub written_records : List AuditRecordEntity → List AuditRecordEntity
written_records = filter (λ r. not (is_baseline r))

-- Entries come from writes: none is itself a baseline.
abbrev pub IsWrite : AuditEntry → Type 0
IsWrite entry = entry.operation ≢ AuditOperation.baseline

abbrev head? : List Request → Option Request
head? [] = none
head? (q ∷ qs) = some q

not_baseline :
    (o : AuditOperation)
    → o ≢ AuditOperation.baseline
    → (elim o [ AuditOperation.baseline ↦ true | _ ↦ false ]) ≡ false
not_baseline AuditOperation.baseline h = absurd (h refl)
not_baseline _ h = refl

if_ok :
    (b : Bool) (m n : Io World Bool) (w : World)
    → (x : Bool) × ((m w).0 ≡ ok x)
    → (x : Bool) × ((n w).0 ≡ ok x)
    → (x : Bool) × (((if b then m else n) w).0 ≡ ok x)
if_ok true m n w h k = h
if_ok false m n w h k = k

module _ (tools : AuditTools) (db : String) (user : Option UserInfo) (timestamp : String) where
  abbrev pub record_for : AuditEntry → AuditRecordEntity
  record_for entry = build_record tools db (or_else (id_of entry.new_doc) "") entry user timestamp

  is_first_audit_for_ok :
      (audit_db entity_id : String) (w : World)
      → (b : Bool) × ((is_first_audit_for tools audit_db entity_id w).0 ≡ ok b)
  unfolding is_first_audit_for
  is_first_audit_for_ok audit_db entity_id w =
      elim (Result-cases
        (tools.couch.rows (get audit_db "_all_docs" (audit_range tools entity_id) ∷ w.sent))) [
          | inl (rows, e) ↦ rw e (_, refl)
          | inr (x, e) ↦ rw e (false, refl)
        ]

  needs_baseline_ok :
      (audit_db entity_id : String) (entry : AuditEntry) (w : World)
      → (b : Bool) × ((needs_baseline tools audit_db entity_id entry w).0 ≡ ok b)
  unfolding needs_baseline
  needs_baseline_ok audit_db entity_id entry w =
      if_ok (not (is_some entry.existing_doc) || is_create entry.operation) (pure false)
        (is_first_audit_for tools audit_db entity_id) w (false, refl)
        (is_first_audit_for_ok audit_db entity_id w)

  written_record : (entry : AuditEntry) → IsWrite entry → is_baseline (record_for entry) ≡ false
  unfolding build_record
  written_record entry h = not_baseline entry.operation h

  written_baseline :
      (entity_id : String) (existing : DatabaseDocument)
      → is_baseline (build_baseline tools db entity_id existing user timestamp) ≡ true
  unfolding build_baseline
  written_baseline entity_id existing = refl

  records_after_written :
      (entry : AuditEntry) (existing : Option DatabaseDocument) (w : World)
      → IsWrite entry
      → (records : List AuditRecordEntity) × ((records_after tools db user timestamp entry existing
            w).0
          ≡ ok records)
        × (written_records records ≡ record_for entry ∷ [])
  unfolding records_after
  records_after_written entry none w h = (record_for entry ∷ [], refl, rw (written_record entry h))
  records_after_written entry (some existing) w h =
      let id : String = or_else (id_of entry.new_doc) "" in
      let (b, e) = needs_baseline_ok (audit_db_for db) id entry w in
      let old : AuditRecordEntity = build_baseline tools db id existing user timestamp in
      let records : List AuditRecordEntity =
        if b then old ∷ record_for entry ∷ [] else record_for entry ∷ [] in
      (
        records,
        ground (arith, e),
        ground (arith, written_record entry h, written_baseline id existing),
      )

  -- Each entry leads to one record of its write, in order; whatever the database answers.
  build_records_written :
      (entries : List AuditEntry) (w : World)
      → All IsWrite entries
      → (records : List AuditRecordEntity) × ((build_records tools db user timestamp entries w).0
          ≡ ok records)
        × (written_records records ≡ map record_for entries)
  unfolding build_records
  build_records_written [] w h = ([], refl, refl)
  build_records_written (entry ∷ rest) w h =
      let (first, e, k) = records_after_written entry entry.existing_doc w h.0 in
      let w' : World = (records_after tools db user timestamp entry entry.existing_doc w).1 in
      let (others, e', k') = build_records_written rest w' h.1 in
      (
        first ++ others,
        ground (arith, e, e'),
        filter-append (λ r. not (is_baseline r)) first others ∙ ap₂ ◌++◌ k k',
      )

-- A request for the last place of a log.
abbrev pub last_request : World → Option Request
last_request w = head? w.sent

module _ (tools : AuditTools) (db : String) (user : Option UserInfo) where
  post_of : List AuditRecordEntity → Request
  post_of records = post (audit_db_for db) "_bulk_docs" (audit_records records) []

  ensure_db_known :
      (w : World)
      → contains w.ensured_dbs (audit_db_for db) ≡ true
      → ensure_db tools (audit_db_for db) w ≡ (ok tt, w)
  unfolding ensure_db
  ensure_db_known w known = rw known

  write_records-posts :
      (relevant : List AuditEntry) (w : World) (records : List AuditRecordEntity)
      → contains w.ensured_dbs (audit_db_for db) ≡ true
      → (build_records tools db user (tools.now w) relevant w).0 ≡ ok records
      → last_request (write_records tools db relevant user w).1 ≡ some (post_of records)
  unfolding write_records post_of
  write_records-posts relevant w records known e = ground (arith, ensure_db_known w known, e)

  record_relevant-posts :
      (relevant : List AuditEntry) (w : World) (records : List AuditRecordEntity)
      → relevant ≢ []
      → contains w.ensured_dbs (audit_db_for db) ≡ true
      → (build_records tools db user (tools.now w) relevant w).0 ≡ ok records
      → last_request (record_relevant tools db relevant user w).1 ≡ some (post_of records)
  record_relevant-posts [] w records h known e = absurd (h refl)
  record_relevant-posts (entry ∷ rest) w records h known e =
      ground (arith, write_records-posts (entry ∷ rest) w records known e)

  -- With the audit database known to exist, a write that is worth recording ends in one request to
  -- it, which posts a record for each relevant entry, in the order of the entries, with the time of
  -- the server; all other records in it are baselines.
  pub record_entries-posts :
      (given : List AuditEntry) (w : World)
      → is_audit_db db ≡ false
      → contains w.ensured_dbs (audit_db_for db) ≡ true
      → filter is_relevant given ≢ []
      → All IsWrite (filter is_relevant given)
      → (records : List AuditRecordEntity) × (last_request (record_entries tools db given user w).1
          ≡ some (post (audit_db_for db) "_bulk_docs" (audit_records records) []))
        × (written_records records
            ≡ map (record_for tools db user (tools.now w)) (filter is_relevant given))
  unfolding record_entries
  record_entries-posts given w plain known some_left h =
      let relevant : List AuditEntry = filter is_relevant given in
      let (records, e, k) = build_records_written tools db user (tools.now w) relevant w h in
      (
        records,
        rw plain (unfold post_of in record_relevant-posts relevant w records some_left known e),
        k,
      )
