-- ===== src/Audit/Tests.antt =====
-- Tests of the audit log.
use replication_backend.Prelude.{
  some, List, [], ◌∷◌, filter, All, map, ◌≡◌, refl, lookup, ends_with,
}
use replication_backend.Couch.{World, put, post, audit_records}
use replication_backend.AuditRecord.{AuditRecordEntity, is_audit_db, audit_db_for, is_replicable_id}
use replication_backend.Audit.Entries.{build_bulk_entries, is_relevant}
use replication_backend.Audit.Bulk.{
  new_docs, is_reported, IsAccurate, build_bulk_entries-is_reported, build_bulk_entries-IsAccurate,
}
use replication_backend.Audit.Service.{record_entries}
use replication_backend.Audit.Trail.{OnlyTo, record_entries-OnlyTo}
use replication_backend.Audit.Records.{
  last_request, written_records, record_for, record_entries-posts,
}
use replication_backend.Fixtures.{
  two_docs, stored_children, success, start, tools, teacher, renaming, renamed_child,
}

build_bulk_entries-is_reported_example :
    new_docs (build_bulk_entries two_docs stored_children (success ∷ []))
    ≡ filter (is_reported two_docs (success ∷ [])) two_docs.docs
build_bulk_entries-is_reported_example =
    build_bulk_entries-is_reported two_docs stored_children (success ∷ [])

build_bulk_entries-IsAccurate_example :
    All
      (IsAccurate two_docs stored_children (success ∷ []))
      (build_bulk_entries two_docs stored_children (success ∷ []))
build_bulk_entries-IsAccurate_example =
    build_bulk_entries-IsAccurate two_docs stored_children (success ∷ [])

-- The state after the write that is recorded.
abbrev after_write : World
after_write = record { sent = put "app" renamed_child ∷ []; ensured_dbs = [] }

record_entries-OnlyTo_example :
    OnlyTo after_write.sent
      (audit_db_for "app")
      (record_entries tools "app" (renaming ∷ []) (some teacher) after_write).1
record_entries-OnlyTo_example =
    record_entries-OnlyTo tools "app" (some teacher) after_write (renaming ∷ [])

record_entries-posts_example :
    (records : List AuditRecordEntity) × (last_request
        (record_entries tools "app" (renaming ∷ []) (some teacher) start).1
      ≡ some (post (audit_db_for "app") "_bulk_docs" (audit_records records) []))
    × (written_records records
        ≡ map
            (record_for tools "app" (some teacher) (tools.now start))
            (filter is_relevant (renaming ∷ [])))
unfolding is_audit_db audit_db_for ends_with lookup is_replicable_id
record_entries-posts_example =
    record_entries-posts tools "app" (some teacher) (renaming ∷ []) start refl refl (cc) (cc, tt)
