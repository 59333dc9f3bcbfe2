-- ===== src/BulkDocument/Handle.antt =====
-- `handleBulkDocs` of bulk-document.service.ts as a whole.
use replication_backend.Prelude.{String, Option, List, [], ◌∷◌, ◌≡◌, arith, inl, inr, true}
use replication_backend.Json.{bool}
use replication_backend.Effects.{Result, ok, throw, Error, Result-cases}
use replication_backend.Couch.{
  Couch, World, DocMetaInf, DocResult, BulkDocsRequest, Request, post, keys, bulk_docs,
}
use replication_backend.Casl.{Permissions, UserInfo}
use replication_backend.DocumentFilter.{DocumentFilter}
use replication_backend.Audit.{AuditService}
use replication_backend.BulkDocument.{
  ids_of, index_rows, filter_docs, fetch_existing_docs, handle_bulk_docs,
}

module _ (permissions : Permissions) (filter_of : DocumentFilter) (couch : Couch)
    (audit : AuditService) (request : BulkDocsRequest) (user : Option UserInfo) (db : String)
    (w : World) where
  -- The read of the stored documents, and the write of the permitted ones.
  abbrev pub fetch : Request
  fetch = post db "_all_docs" (keys (ids_of request.docs)) (("include_docs", bool true) ∷ [])

  abbrev pub filtered_to : List DocMetaInf → Result BulkDocsRequest
  filtered_to rows = filter_docs permissions filter_of request user (index_rows rows [])

  abbrev pub write : BulkDocsRequest → Request
  write filtered = post db "_bulk_docs" (bulk_docs filtered) []

  abbrev pub written_to : Result BulkDocsRequest → Result (List DocResult)
  written_to (throw e) = throw e
  written_to (ok filtered) = couch.written (write filtered ∷ fetch ∷ w.sent)

  abbrev pub reply_to : Result (List DocMetaInf) → Result (List DocResult)
  reply_to (throw e) = throw e
  reply_to (ok rows) = written_to (filtered_to rows)

  -- The client gets what CouchDB answers to the write of the permitted documents, or the exception
  -- of the read before it or of the filter; the audit log, whatever happens in it, changes neither.
  pub handle_bulk_docs-reply :
      (handle_bulk_docs permissions filter_of couch audit request user db w).0
      ≡ reply_to (couch.rows (fetch ∷ w.sent))
  unfolding handle_bulk_docs fetch_existing_docs
  handle_bulk_docs-reply = elim (Result-cases (couch.rows (fetch ∷ w.sent))) [
    | inr (e, h) ↦ ground (arith, h)
    | inl (rows, h) ↦ elim (Result-cases (filtered_to rows)) [
      | inr (e, f) ↦ ground (arith, h, f)
      | inl (filtered, f) ↦ elim (Result-cases (couch.written (write filtered ∷ fetch ∷ w.sent))) [
        | inr (e, k) ↦ ground (arith, h, f, k)
        | inl (response, k) ↦ ground (
          arith,
          h,
          f,
          k,
          audit.record_bulk_write_ok db filtered (index_rows rows []) response user
              (record w { sent = write filtered ∷ fetch ∷ w.sent }),
        )
      ]
    ]
  ]

  -- Where the stored documents cannot be read, nothing is written or audited.
  pub handle_bulk_docs-fetch_fails :
      (e : Error)
      → couch.rows (fetch ∷ w.sent) ≡ throw e
      → handle_bulk_docs permissions filter_of couch audit request user db w
        ≡ (throw e, record w { sent = fetch ∷ w.sent })
  unfolding handle_bulk_docs fetch_existing_docs
  handle_bulk_docs-fetch_fails e h = ground (arith, h)
