-- ===== src/BulkDocument/Tests.antt =====
-- Tests of bulk writes and bulk reads.
use replication_backend.Prelude.{none, some, [], ◌∷◌, Memᴰ, ◌↔◌, ◌≡◌, ◌≢◌, refl, true, lookup}
use replication_backend.Json.{DatabaseDocument}
use replication_backend.Effects.{ok}
use replication_backend.Couch.{BulkDocsRequest, DocMetaInf}
use replication_backend.DocumentFilter.{is_replicable}
use replication_backend.BulkDocument.{
  filter_docs, split_docs, handle_bulk_docs, BulkGetResult, DocOutcome, ok_doc,
  bulk_get_result_mapper, is_permitted_bulk_get_doc, all_docs_row_filter, has_permissions_for_doc,
}
use replication_backend.BulkDocument.Writable.{MayWrite, mem-filter_docs}
use replication_backend.BulkDocument.Handle.{fetch, reply_to, handle_bulk_docs-reply}
use replication_backend.BulkDocument.Reads.{Shown, bulk_get_keeps}
use replication_backend.Audit.Service.{default_audit_service}
use replication_backend.Fixtures.{
  children_only, no_designs, teacher, child, renamed_child, two_docs, stored_children, one_child,
  start, tools,
}

mem-filter_docs_example :
    (filtered : BulkDocsRequest) × (filter_docs children_only no_designs two_docs
        (some teacher)
        stored_children
      ≡ ok filtered)
    × ((doc : DatabaseDocument)
        → Memᴰ doc filtered.docs ↔ (
            Memᴰ doc two_docs.docs
            × MayWrite children_only no_designs (some teacher) stored_children doc))
mem-filter_docs_example =
    mem-filter_docs children_only no_designs two_docs (some teacher) stored_children (some teacher)
      refl

-- Two submissions for the stored child.
abbrev both : BulkDocsRequest
both = record { new_edits = none; docs = child ∷ renamed_child ∷ [] }

sent_on : filter_docs children_only no_designs both (some teacher) stored_children ≡ ok both
unfolding filter_docs split_docs has_permissions_for_doc is_replicable lookup
sent_on = refl

handle_bulk_docs-reply_example :
    (handle_bulk_docs children_only no_designs one_child
      (default_audit_service tools)
      two_docs
      (some teacher)
      "app"
      start).0
    ≡ reply_to children_only no_designs one_child
        (default_audit_service tools)
        two_docs
        (some teacher)
        "app"
        start
        (one_child.rows (
          fetch children_only no_designs one_child
            (default_audit_service tools)
            two_docs
            (some teacher)
            "app"
            start
          ∷ []))
handle_bulk_docs-reply_example =
    handle_bulk_docs-reply children_only no_designs one_child (default_audit_service tools) two_docs
      (some teacher) "app" start

abbrev result : BulkGetResult
result = record { id = "Child:1"; docs = ok_doc child ∷ [] }

kept : bulk_get_result_mapper children_only no_designs (some teacher) result ≡ some result
unfolding bulk_get_result_mapper is_permitted_bulk_get_doc is_replicable lookup
kept = refl

bulk_get_keeps_example :
    (result.id ≡ result.id)
    × (is_replicable no_designs result.id ≡ true)
    × (result.docs ≢ [])
    × ((d : DocOutcome)
        → Memᴰ d result.docs
          ↔ (Memᴰ d result.docs × Shown children_only no_designs (some teacher) d))
bulk_get_keeps_example = bulk_get_keeps children_only no_designs (some teacher) result result kept

abbrev child_row : DocMetaInf
child_row = record { id = some "Child:1"; key = "Child:1"; doc = some child }

passes : all_docs_row_filter children_only no_designs (some teacher) child_row ≡ true
unfolding all_docs_row_filter is_replicable lookup
passes = refl
