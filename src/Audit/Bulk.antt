-- ===== src/Audit/Bulk.antt =====
-- Which documents of a bulk write reach the audit log (`buildBulkEntries`, `indexBulkResponse` and
-- `toAuditEntry` of src/audit/audit.service.ts).
use replication_backend.Prelude.{
  String, Bool, false, not, ◌&&◌, ◌||◌, Option, none, some, List, [], ◌∷◌, ◌++◌, map, filter,
  filter_map, any, contains, Dict, lookup, lookup-insert, is_some, ◌==◌, ◌≡◌, refl, ◌∙◌, arith,
  Option-cases, Bool-cases, true, inl, inr, All, if◌then◌else◌,
}
use replication_backend.AuditRecord.{AuditOperation}
use replication_backend.Json.{DatabaseDocument, is_deleted, id_of, non_empty}
use replication_backend.Couch.{DocResult, BulkDocsRequest}
use replication_backend.Audit.{AuditEntry}
use replication_backend.Audit.Entries.{
  BulkIndex, index_result, index_bulk_response, no_results, to_audit_entry, build_bulk_entries,
  is_push, operation_of,
}

-- What the response says of an id.
abbrev pub reports_error : String → DocResult → Bool
reports_error id result = result.id == id && is_some (non_empty result.error)

abbrev pub reports_success : String → DocResult → Bool
reports_success id result = result.id == id && not (is_some (non_empty result.error))

contains-append :
    (xs : List String) (y id : String) → contains (xs ++ y ∷ []) id ≡ (contains xs id || y == id)
contains-append [] y id = ground arith
contains-append (x ∷ xs) y id = ground (arith, contains-append xs y id)

error_ids-index :
    (id : String) (response : List DocResult) (index : BulkIndex)
    → contains (index_bulk_response response index).error_ids id
      ≡ (contains index.error_ids id || any (reports_error id) response)
unfolding index_bulk_response
error_ids-index id [] index = ground arith
error_ids-index id (result ∷ rest) index =
    error_ids-index id rest (index_result result index)
    ∙ ground (arith, contains-append index.error_ids result.id id)

rev_by_id-index :
    (id : String) (response : List DocResult) (index : BulkIndex)
    → is_some (lookup id (index_bulk_response response index).rev_by_id)
      ≡ (is_some (lookup id index.rev_by_id) || any (reports_success id) response)
unfolding index_bulk_response
rev_by_id-index id [] index = ground arith
rev_by_id-index id (result ∷ rest) index =
    rev_by_id-index id rest (index_result result index)
    ∙ ground (arith, lookup-insert result.id id result.rev index.rev_by_id)

-- The response reports no failure for the id of the document: a push is answered with the errors
-- alone, any other write with a result for each document.
pub is_reported : BulkDocsRequest → List DocResult → DatabaseDocument → Bool
is_reported written response doc = elim (non_empty (id_of doc)) [
  | none ↦ false
  | some id ↦
      if is_push written
      then not (any (reports_error id) response)
      else any (reports_success id) response
]

abbrev new_doc_of : Option AuditEntry → Option DatabaseDocument
new_doc_of none = none
new_doc_of (some entry) = some entry.new_doc

new_doc-to_audit_entry :
    (written : BulkDocsRequest) (existing : Dict DatabaseDocument) (response : List DocResult)
    (doc : DatabaseDocument)
    → new_doc_of
        (to_audit_entry doc existing (index_bulk_response response no_results) (is_push written))
      ≡ (if is_reported written response doc then some doc else none)
unfolding to_audit_entry is_reported lookup
new_doc-to_audit_entry written existing response doc = elim (Option-cases (non_empty (id_of doc))) [
  | inl e ↦ ground (arith, e)
  | inr (id, e) ↦
      ground
        (arith, e, error_ids-index id response no_results, rev_by_id-index id response no_results)
]

abbrev pub new_docs : List AuditEntry → List DatabaseDocument
new_docs = map (λ (entry : AuditEntry). entry.new_doc)

module _ (written : BulkDocsRequest) (existing : Dict DatabaseDocument)
    (response : List DocResult) where
  abbrev entry_of : DatabaseDocument → Option AuditEntry
  entry_of doc =
      to_audit_entry doc existing (index_bulk_response response no_results) (is_push written)

  entries_of :
      (docs : List DatabaseDocument)
      → new_docs (filter_map entry_of docs) ≡ filter (is_reported written response) docs
  entries_of [] = refl
  entries_of (doc ∷ docs) = elim (Option-cases (entry_of doc)) [
    | inl e ↦
        ground (arith, e, new_doc-to_audit_entry written existing response doc, entries_of docs)
    | inr (entry, e) ↦
        ground (arith, e, new_doc-to_audit_entry written existing response doc, entries_of docs)
  ]

  -- The documents audited for a bulk write are those of the request with an id for which the response
  -- reports success, or for a push no error, in order. So of two documents with one id both are
  -- audited or none is, also where CouchDB has stored the first and refused the second.
  pub build_bulk_entries-is_reported :
      new_docs (build_bulk_entries written existing response)
      ≡ filter (is_reported written response) written.docs
  unfolding build_bulk_entries
  build_bulk_entries-is_reported = entries_of written.docs

  -- The operation that writing a document is, by the document stored before.
  pub data IsOperation (doc : DatabaseDocument)
      : Option DatabaseDocument → AuditOperation → Type 0 where
    deletes :
        (before : Option DatabaseDocument)
        → is_deleted doc ≡ true
        → IsOperation doc before AuditOperation.delete
    updates :
        (old : DatabaseDocument)
        → is_deleted doc ≡ false
        → IsOperation doc (some old) AuditOperation.update
    creates : is_deleted doc ≡ false → IsOperation doc none AuditOperation.create

  operation_of-IsOperation :
      (doc : DatabaseDocument) (before : Option DatabaseDocument)
      → IsOperation doc before (operation_of doc before)
  operation_of-IsOperation doc none = elim (Bool-cases (is_deleted doc)) [
    | inl e ↦ rw e (deletes none e)
    | inr e ↦ rw e (creates e)
  ]
  operation_of-IsOperation doc (some old) = elim (Bool-cases (is_deleted doc)) [
    | inl e ↦ rw e (deletes (some old) e)
    | inr e ↦ rw e (updates old e)
  ]

  -- An entry names the operation that took place and the document that it replaced.
  abbrev pub IsAccurate : AuditEntry → Type 0
  IsAccurate entry =
      (id : String) × (non_empty (id_of entry.new_doc) ≡ some id)
      × (entry.existing_doc ≡ lookup id existing)
      × IsOperation entry.new_doc (lookup id existing) entry.operation

  entry-IsAccurate :
      (doc : DatabaseDocument) (entry : AuditEntry) → entry_of doc ≡ some entry → IsAccurate entry
  unfolding to_audit_entry
  entry-IsAccurate doc entry h = elim (Option-cases (non_empty (id_of doc))) [
    | inl e ↦ absurd (ground (arith, e))
    | inr (id, e) ↦
        let same_doc : entry.new_doc ≡ doc = ground (arith, e) in
        let same_op : entry.operation ≡ operation_of doc (lookup id existing) = ground (arith, e) in
        (
          id,
          ground (arith, e),
          ground (arith, e),
          rw (same_doc, same_op) (operation_of-IsOperation doc (lookup id existing)),
        )
  ]

  All-entry : (docs : List DatabaseDocument) → All IsAccurate (filter_map entry_of docs)
  All-entry [] = tt
  All-entry (doc ∷ docs) = elim (Option-cases (entry_of doc)) [
    | inl e ↦ rw (e, All) (All-entry docs)
    | inr (entry, e) ↦ rw (e, All) (entry-IsAccurate doc entry e, All-entry docs)
  ]

  -- Each entry of a bulk write is a deletion if the written document is one, else an update if a
  -- document was stored under its id, else a create; and that stored document, if there was one, is
  -- the before-state of the entry.
  pub build_bulk_entries-IsAccurate : All IsAccurate (build_bulk_entries written existing response)
  unfolding build_bulk_entries
  build_bulk_entries-IsAccurate = All-entry written.docs
