-- ===== src/BulkDocument.antt =====
-- src/restricted-endpoints/replication/bulk-document/bulk-document.service.ts
pub mod Writable
pub mod Reads
pub mod Handle
mod Tests
use replication_backend.Prelude.{
  String, Bool, true, false, not, ◌&&◌, ◌||◌, Option, none, some, List, [], ◌∷◌, map, filter,
  filter_map, Dict, lookup, insert, if◌then◌else◌, is_some,
}
use replication_backend.Json.{Json, DatabaseDocument, id_of, is_deleted, non_empty, bool}
use replication_backend.Effects.{Result, ok, result_then, lift, Io, pure, ◌>>=◌, ◌>>◌}
use replication_backend.Couch.{
  Couch, World, DocMetaInf, DocResult, BulkDocsRequest, Request, post, keys, bulk_docs, send,
}
use replication_backend.Casl.{Permissions, Action, read, create, update, delete, document, UserInfo}
use replication_backend.DocumentFilter.{DocumentFilter, is_replicable}
use replication_backend.Audit.{AuditService}

-- `OkDoc | ErrorDoc` of a `_bulk_get` result
pub data DocOutcome : Type 0 where
  ok_doc : DatabaseDocument → DocOutcome
  error_doc : DocResult → DocOutcome

-- `class BulkGetResult`
pub record BulkGetResult : Type 0 where
  pub id : String
  pub docs : List DocOutcome

-- A row enters the `Map` of `fetchExistingDocs` under its id, if it has a document.
abbrev pub index_row : DocMetaInf → Dict DatabaseDocument → Dict DatabaseDocument
index_row row found = elim row.doc [
  | none ↦ found
  | some doc ↦ elim row.id [ none ↦ found | some id ↦ insert id doc found ]
]

-- the loop over `response.rows`
unfoldable pub index_rows : List DocMetaInf → Dict DatabaseDocument → Dict DatabaseDocument
index_rows [] found = found
index_rows (row ∷ rest) found = index_rows rest (index_row row found)

-- `docs.map((doc) => doc._id).filter((id) => !!id)`
abbrev pub ids_of : List DatabaseDocument → List String
ids_of docs = filter_map (λ doc. non_empty (id_of doc)) docs

-- Only results where at least one document is left.
abbrev pub with_docs : String → List DocOutcome → Option BulkGetResult
with_docs id [] = none
with_docs id (doc ∷ docs) = some (record { id = id; docs = doc ∷ docs })

module _ (permissions : Permissions) (filter_of : DocumentFilter) where
  open permissions use {Ability, ability_for, can}

  unfoldable pub is_permitted_bulk_get_doc : Ability → DocOutcome → Bool
  is_permitted_bulk_get_doc ability (ok_doc doc) = is_deleted doc || can ability read (document doc)
  is_permitted_bulk_get_doc ability (error_doc e) = true

  -- The filters of the read endpoints, each of the ability that it gets when it is made
  unfoldable pub bulk_get_result_mapper : Ability → BulkGetResult → Option BulkGetResult
  bulk_get_result_mapper ability result =
      let kept = filter (is_permitted_bulk_get_doc ability) result.docs in
      if is_replicable filter_of result.id then with_docs result.id kept else none

  -- A row with no id is an error entry and passes; one with no document shows its id alone.
  abbrev pub is_readable_row : Ability → Option DatabaseDocument → Bool
  is_readable_row ability none = true
  is_readable_row ability (some doc) = is_deleted doc || can ability read (document doc)

  unfoldable pub all_docs_row_filter : Ability → DocMetaInf → Bool
  all_docs_row_filter ability row = elim (non_empty row.id) [
    | none ↦ true
    | some id ↦ is_replicable filter_of id && is_readable_row ability row.doc
  ]

  unfoldable pub find_doc_filter : Ability → DatabaseDocument → Bool
  find_doc_filter ability doc = elim (non_empty (id_of doc)) [
    | none ↦ false
    | some id ↦ is_replicable filter_of id && can ability read (document doc)
  ]

  -- The stored document decides, if there is one; the submitted one only for a create.
  unfoldable pub has_permissions_for_doc :
      DatabaseDocument → Option DatabaseDocument → Ability → Bool
  has_permissions_for_doc updated (some existing) ability =
      if is_deleted updated
      then can ability delete (document existing)
      else can ability update (document existing)
  has_permissions_for_doc updated none ability = can ability create (document updated)

  -- The loop of `filterDocs`: the permitted documents, and the ids that the log names as denied.
  unfoldable pub split_docs :
      Ability → Dict DatabaseDocument → List DatabaseDocument → List DatabaseDocument × List String
  split_docs ability existing [] = ([], [])
  split_docs ability existing (doc ∷ docs) =
      let (permitted, denied) = split_docs ability existing docs in
      elim (non_empty (id_of doc)) [
        | none ↦ (permitted, denied)
        | some id ↦
            if not (is_replicable filter_of id)
            then (permitted, denied)
            else if has_permissions_for_doc doc (lookup id existing) ability
            then (doc ∷ permitted, denied)
            else (permitted, id ∷ denied)
      ]

  unfoldable pub filter_docs :
      BulkDocsRequest → Option UserInfo → Dict DatabaseDocument → Result BulkDocsRequest
  filter_docs request user existing =
      result_then (ability_for user)
        λ ability. ok (record request { docs = (split_docs ability existing request.docs).0 })

  module _ (couch : Couch) where
    unfoldable pub fetch_existing_docs :
        List DatabaseDocument → String → Io World (Dict DatabaseDocument)
    fetch_existing_docs docs db = do
      rows ←
          send (post db "_all_docs" (keys (ids_of docs)) (("include_docs", bool true) ∷ []))
            couch.rows
      pure (index_rows rows [])

    unfoldable pub filter_bulk_docs_request :
        BulkDocsRequest → Option UserInfo → String → Io World BulkDocsRequest
    filter_bulk_docs_request request user db = do
      existing ← fetch_existing_docs request.docs db
      lift (filter_docs request user existing)

    unfoldable pub handle_bulk_docs :
        AuditService → BulkDocsRequest → Option UserInfo → String → Io World (List DocResult)
    handle_bulk_docs audit request user db = do
      existing ← fetch_existing_docs request.docs db
      filtered ← lift (filter_docs request user existing)
      response ← send (post db "_bulk_docs" (bulk_docs filtered) []) couch.written
      audit.record_bulk_write db filtered existing response user
      pure response
