-- ===== src/Audit/Trail.antt =====
-- What `record` of src/audit/audit.service.ts writes, and where.
use replication_backend.Prelude.{
  String, Bool, true, false, Option, none, some, List, [], ◌∷◌, ◌++◌, ap, filter, contains, ◌≡◌,
  refl, All, or_else, inl, inr, Bool-cases,
}
use replication_backend.Json.{DatabaseDocument, id_of}
use replication_backend.Effects.{Result}
use replication_backend.Effects.Preserve.{
  Preserves, Preserves-pure, Preserves-bind, Preserves-catch, Preserves-if,
}
use replication_backend.Couch.{
  send, World, Request, get, post, put, delete, create_db, head, audit_records,
}
use replication_backend.Casl.{UserInfo}
use replication_backend.AuditRecord.{AuditOperation, AuditRecordEntity, audit_db_for, is_audit_db}
use replication_backend.Audit.{AuditEntry}
use replication_backend.Audit.Entries.{is_relevant}
use replication_backend.Audit.Service.{
  AuditTools, is_first_audit_for, needs_baseline, records_after, read_clock, record_relevant,
  remember, build_records, ensure_db, write_records, record_entries,
}

abbrev pub is_baseline : AuditRecordEntity → Bool
is_baseline r = elim r.operation [ AuditOperation.baseline ↦ true | _ ↦ false ]

abbrev pub db_of : Request → String
db_of (get db path params) = db
db_of (post db path body params) = db
db_of (put db doc) = db
db_of (delete db id params) = db
db_of (create_db db) = db
db_of (head db path params) = db

-- All requests since the given ones went to one database.
abbrev pub OnlyTo : List Request → String → World → Type 0
OnlyTo before db w =
    (added : List Request) × (w.sent ≡ added ++ before) × All (λ q. db_of q ≡ db) added

module _ {A : Type 0} (before : List Request) where
  pub OnlyTo-send :
      (db : String) (q : Request) (answer : List Request → Result A)
      → db_of q ≡ db
      → Preserves (OnlyTo before db) (send q answer)
  OnlyTo-send db q answer e = record {
    run = λ w (added, parts, all). (q ∷ added, ap (λ qs. q ∷ qs) parts, (e, all));
  }

module _ (tools : AuditTools) (before : List Request) where
  needs_baseline-OnlyTo :
      (audit_db entity_id : String) (entry : AuditEntry)
      → Preserves (OnlyTo before audit_db) (needs_baseline tools audit_db entity_id entry)
  unfolding needs_baseline is_first_audit_for
  needs_baseline-OnlyTo audit_db entity_id entry = Preserves-if _ _ _ (Preserves-pure false) (
      Preserves-catch _ _
        (Preserves-bind _ _ (OnlyTo-send before audit_db _ tools.couch.rows refl)
          (λ rows. Preserves-pure _))
        (λ e. Preserves-pure false))

  module _ (db : String) (user : Option UserInfo) where
    abbrev audit_db : String
    audit_db = audit_db_for db

    records_after-OnlyTo :
        (timestamp : String) (entry : AuditEntry) (existing : Option DatabaseDocument)
        → Preserves (OnlyTo before audit_db) (records_after tools db user timestamp entry existing)
    unfolding records_after
    records_after-OnlyTo timestamp entry none = Preserves-pure _
    records_after-OnlyTo timestamp entry (some existing) =
        Preserves-bind _ _ (needs_baseline-OnlyTo audit_db (or_else (id_of entry.new_doc) "") entry)
          (λ b. Preserves-pure _)

    build_records-OnlyTo :
        (timestamp : String) (entries : List AuditEntry)
        → Preserves (OnlyTo before audit_db) (build_records tools db user timestamp entries)
    unfolding build_records
    build_records-OnlyTo timestamp [] = Preserves-pure []
    build_records-OnlyTo timestamp (entry ∷ rest) =
        Preserves-bind _ _ (records_after-OnlyTo timestamp entry entry.existing_doc) (λ records.
          Preserves-bind _ _ (build_records-OnlyTo timestamp rest) (λ others. Preserves-pure _))

    ensure_db-OnlyTo : Preserves (OnlyTo before audit_db) (ensure_db tools audit_db)
    unfolding ensure_db
    ensure_db-OnlyTo = record {
      run = λ w h. elim (Bool-cases (contains w.ensured_dbs audit_db)) [
        | inl e ↦ rw e h
        | inr e ↦ rw e (
            (Preserves-bind (send (create_db audit_db) tools.couch.created)
                (λ _. remember tools audit_db)
                (OnlyTo-send before audit_db (create_db audit_db) tools.couch.created refl)
                (λ _. record { run = λ w' h'. h' })).run
              w h)
      ];
    }

    write_records-OnlyTo :
        (relevant : List AuditEntry)
        → Preserves (OnlyTo before audit_db) (write_records tools db relevant user)
    unfolding write_records
    write_records-OnlyTo relevant = Preserves-bind _ _ ensure_db-OnlyTo (λ _.
        Preserves-bind (read_clock tools) _ (record { run = λ w h. h })
          (λ timestamp. Preserves-bind _ _ (build_records-OnlyTo timestamp relevant) (λ records.
            Preserves-bind _ _
              (OnlyTo-send before audit_db (post audit_db "_bulk_docs" (audit_records records) [])
                tools.couch.written refl)
              (λ _. Preserves-pure tt))))

    record_relevant-OnlyTo :
        (relevant : List AuditEntry)
        → Preserves (OnlyTo before audit_db) (record_relevant tools db relevant user)
    record_relevant-OnlyTo [] = Preserves-pure tt
    record_relevant-OnlyTo (entry ∷ rest) =
        Preserves-catch _ _ (write_records-OnlyTo (entry ∷ rest)) (λ e. Preserves-pure tt)

module _ (tools : AuditTools) (db : String) (user : Option UserInfo) (w : World) where
  -- Whatever requests were made before, recording a write adds requests to the audit database of the
  -- one that was written and to no other: no entity document is read or changed by it.
  pub record_entries-OnlyTo :
      (given : List AuditEntry)
      → OnlyTo w.sent (audit_db_for db) (record_entries tools db given user w).1
  unfolding record_entries
  record_entries-OnlyTo given =
      (Preserves-if (is_audit_db db) _ _ (Preserves-pure tt)
          (record_relevant-OnlyTo tools w.sent db user (filter is_relevant given))).run
        w ([], refl, tt)
