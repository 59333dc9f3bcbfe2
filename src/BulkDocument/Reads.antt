-- ===== src/BulkDocument/Reads.antt =====
-- What the read endpoints of bulk-document.service.ts show: `_bulk_get`, `_all_docs`, `_find`.
use replication_backend.Prelude.{
  String, true, none, some, List, [], ◌∷◌, filter, Memᴰ, mem-filter, ◌≡◌, ◌≢◌, refl, ◌↔◌, ◌⊎◌,
  arith, Bool-cases, inl, inr,
}
use replication_backend.Json.{DatabaseDocument, is_deleted, non_empty}
use replication_backend.Couch.{DocMetaInf}
use replication_backend.Casl.{Permissions, read, document}
use replication_backend.DocumentFilter.{DocumentFilter, is_replicable}
use replication_backend.BulkDocument.{
  DocOutcome, ok_doc, error_doc, BulkGetResult, with_docs, is_permitted_bulk_get_doc,
  bulk_get_result_mapper, all_docs_row_filter,
}

with_docs-some :
    (id : String) (docs : List DocOutcome) (r : BulkGetResult)
    → with_docs id docs ≡ some r
    → (r.id ≡ id) × (r.docs ≡ docs) × (r.docs ≢ [])
with_docs-some id [] r h = cc
with_docs-some id (doc ∷ docs) r h = ground arith

module _ (permissions : Permissions) (filter_of : DocumentFilter)
    (ability : permissions.Ability) where
  open permissions use {can}

  -- The user may see the content of `doc`.
  abbrev pub IsVisible : DatabaseDocument → Type 0
  IsVisible doc = (is_deleted doc ≡ true) ⊎ (can ability read (document doc) ≡ true)

  abbrev pub Shown : DocOutcome → Type 0
  Shown (ok_doc doc) = IsVisible doc
  Shown (error_doc e) = Unit

  permitted_iff_Shown :
      (d : DocOutcome)
      → (is_permitted_bulk_get_doc permissions filter_of ability d ≡ true) ↔ Shown d
  unfolding is_permitted_bulk_get_doc
  permitted_iff_Shown (ok_doc doc) = (λ h. ground arith, λ h. ground arith)
  permitted_iff_Shown (error_doc e) = (λ h. tt, λ h. refl)

  -- A `_bulk_get` result that is kept has the id that it had, which is replicated, and at least one
  -- entry; its entries are exactly those of the original that are errors, deletions or readable.
  pub bulk_get_keeps :
      (result r : BulkGetResult)
      → bulk_get_result_mapper permissions filter_of ability result ≡ some r
      → (r.id ≡ result.id)
        × (is_replicable filter_of r.id ≡ true)
        × (r.docs ≢ [])
        × ((d : DocOutcome) → Memᴰ d r.docs ↔ (Memᴰ d result.docs × Shown d))
  unfolding bulk_get_result_mapper
  bulk_get_keeps result r h =
      let kept : List DocOutcome =
        filter (is_permitted_bulk_get_doc permissions filter_of ability) result.docs in
      elim (Bool-cases (is_replicable filter_of result.id)) [
        | inr e ↦ absurd (ground (arith, e))
        | inl e ↦
            let made = with_docs-some result.id kept r (rw e at h) in
            (
              made.0,
              rw made.0 e,
              made.2,
              λ d.
                  let mem =
                    mem-filter (is_permitted_bulk_get_doc permissions filter_of ability) result.docs
                      d in
                  let shown = permitted_iff_Shown d in
                  rw made.1
                    (λ m. ((mem.0 m).0, shown.0 (mem.0 m).1), λ m. mem.1 (m.0, shown.1 m.1)),
            )
      ]

  -- A row of `_all_docs` that passes the filter and holds a document holds one that the user may see:
  -- a readable one, or a deletion.
  pub all_docs_row-IsVisible :
      (row : DocMetaInf) (doc : DatabaseDocument)
      → row.doc ≡ some doc
      → non_empty row.id ≢ none
      → all_docs_row_filter permissions filter_of ability row ≡ true
      → IsVisible doc
  unfolding all_docs_row_filter
  all_docs_row-IsVisible row doc e n h = ground arith
