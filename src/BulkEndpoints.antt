-- ===== src/BulkEndpoints.antt =====
-- src/restricted-endpoints/replication/bulk-document/bulk-doc-endpoints.controller.ts: the endpoints
-- that stream filtered responses of CouchDB.
pub mod Streamed
pub mod Shown
mod Tests
use replication_backend.Prelude.{
  String, Bool, true, false, not, ◌||◌, Option, none, some, List, [], ◌∷◌, Dict, lookup, ◌==◌,
  is_some, if◌then◌else◌,
}
use replication_backend.Json.{
  Json, null, str, arr, obj, Items, nil, cons, Fields, end, field, entries, truthy,
  DatabaseDocument,
}
use replication_backend.Effects.{
  lift, Error, other_error, Result, ok, throw, result_then, Io, pure, ◌>>=◌,
}
use replication_backend.Casl.{Permissions, UserInfo}
use replication_backend.Couch.{
  World, Request, Couch, get, post, Body, json, BulkDocsRequest, DocResult, DocMetaInf, send,
}
use replication_backend.DocumentFilter.{DocumentFilter, is_replicable}
use replication_backend.Audit.{AuditService}
use replication_backend.BulkDocument.{
  DocOutcome, ok_doc, error_doc, is_permitted_bulk_get_doc, all_docs_row_filter, find_doc_filter,
  handle_bulk_docs,
}
use replication_backend.JsonFilter.{
  Token, StreamJson, Transform, new_transform, process_tokens, flush,
}

-- A response of CouchDB as the token parser hands it on: the tokens, and the error that broke the
-- stream or the parsing behind them, if one did.
pub record Source : Type 0 where
  pub tokens : List Token
  pub broken : Option Error

-- The response socket: whether the client goes away before the end, and whether the response had
-- started when a stream failed that had pushed the given text.
pub record Sink : Type 0 where
  pub disconnects : Bool
  pub started : String → Bool

-- What the client gets: a whole response, a regular error, or a response that is cut off.
pub data Reply : Type 0 where
  replied : String → Reply
  refused : Error → Reply
  cut_off : String → Reply

abbrev pub type_error : Error
type_error = other_error "TypeError"

-- `typeof id === 'string'`, as the callee needs it; a falsy value is `none`.
abbrev pub optional_id : Option Json → Result (Option String)
optional_id (some (str id)) = ok (some id)
optional_id v = if truthy v then throw type_error else ok none

-- A document that CASL is asked about; a falsy value is `none`, and what is no document is refused.
abbrev pub optional_doc : Option Json → Result (Option DatabaseDocument)
optional_doc (some (obj fs)) = ok (some (entries fs))
optional_doc v = if truthy v then throw type_error else ok none

abbrev pub kept_if : Bool → Json → Option Json
kept_if keep v = if keep then some v else none

-- `id`, `doc` of a row
abbrev pub row_of : Dict Json → Result DocMetaInf
row_of row = result_then (optional_id (lookup "id" row)) λ id.
    result_then (optional_doc (lookup "doc" row))
      λ doc. ok (record { id = id; key = ""; doc = doc })

-- An entry of a `_bulk_get` result.
abbrev pub outcome_of : Json → Result DocOutcome
outcome_of null = throw type_error
outcome_of (obj fs) = elim (lookup "ok" (entries fs)) [
  | none ↦ ok (error_doc (record { id = ""; rev = none; error = none }))
  | some (obj doc) ↦ ok (ok_doc (entries doc))
  | some _ ↦ throw type_error
]
outcome_of _ = ok (error_doc (record { id = ""; rev = none; error = none }))

module _ (permissions : Permissions) (filter_of : DocumentFilter) where
  open permissions use {Ability, ability_for}

  -- `(doc) => (isPermitted(doc) ? doc : undefined)`
  unfoldable pub find_item : Ability → Json → Result (Option Json)
  find_item ability null = throw type_error
  find_item ability (obj fs) =
      ok (kept_if (find_doc_filter permissions filter_of ability (entries fs)) (obj fs))
  find_item ability v = ok none

  -- `(row) => (isPermitted(row) ? row : undefined)`
  unfoldable pub all_docs_item : Ability → Json → Result (Option Json)
  all_docs_item ability null = throw type_error
  all_docs_item ability (obj fs) =
      result_then (row_of (entries fs))
        λ row. ok (kept_if (all_docs_row_filter permissions filter_of ability row) (obj fs))
  all_docs_item ability v = ok (some v)

  unfoldable pub permitted_entries : Ability → Items → Result Items
  permitted_entries ability nil = ok nil
  permitted_entries ability (cons v vs) =
      let rest = permitted_entries ability vs in
      result_then (outcome_of v) λ outcome. result_then rest λ kept. ok (
        if is_permitted_bulk_get_doc permissions filter_of ability outcome
        then cons v kept
        else kept)

  abbrev pub with_entries : String → Items → Option Json
  with_entries id nil = none
  with_entries id (cons v vs) =
      some (obj (field "id" (str id) (field "docs" (arr (cons v vs)) end)))

  -- `bulkGetResultMapper(user)` on a result as it comes
  unfoldable pub bulk_get_item : Ability → Json → Result (Option Json)
  bulk_get_item ability (obj fs) = elim (lookup "id" (entries fs)) [
    | some (str id) ↦
        if is_replicable filter_of id
        then (elim (lookup "docs" (entries fs)) [
          | some (arr docs) ↦
              result_then (permitted_entries ability docs) λ kept. ok (with_entries id kept)
          | _ ↦ throw type_error
        ])
        else ok none
    | _ ↦ throw type_error
  ]
  bulk_get_item ability v = throw type_error

-- `streamFiltered`
module _ (lib : StreamJson) (sink : Sink) where
  -- `pipeline(source, jsonTokenParser(), filtered)`
  unfoldable pub parsing :
      String → (Json → Result (Option Json)) → Source → Result (Unit {0}) × Transform lib
  parsing array_field map_item source =
      let (r, s) = process_tokens lib array_field map_item source.tokens (new_transform lib) in
      elim r [
        | throw e ↦ (throw e, s)
        | ok _ ↦ elim source.broken [
          | some e ↦ (throw e, s)
          | none ↦ flush lib array_field map_item s
        ]
      ]

  unfoldable pub stream_filtered : Source → String → (Json → Result (Option Json)) → Reply
  stream_filtered source array_field map_item =
      let (r, s) = parsing array_field map_item source in
      if sink.disconnects then cut_off s.pushed else elim r [
        | ok _ ↦ replied s.pushed
        | throw e ↦ if sink.started s.pushed then cut_off s.pushed else refused e
      ]

  module _ (permissions : Permissions) (filter_of : DocumentFilter)
      (stream : List Request → Result Source) where
    -- `find`, `bulkGetPost`, `allDocs` and `allDocsGet`
    unfoldable pub find : String → Json → Option UserInfo → Io World Reply
    find db body user = do
      source ← send (post db "_find" (json body) []) stream
      ability ← lift (permissions.ability_for user)
      pure (stream_filtered source "docs" (find_item permissions filter_of ability))

    unfoldable pub bulk_get_post : String → Dict Json → Json → Option UserInfo → Io World Reply
    bulk_get_post db query_params body user = do
      source ← send (post db "_bulk_get" (json body) query_params) stream
      ability ← lift (permissions.ability_for user)
      pure (stream_filtered source "results" (bulk_get_item permissions filter_of ability))

    abbrev pub stream_all_docs : Source → Option UserInfo → Io World Reply
    stream_all_docs source user = do
      ability ← lift (permissions.ability_for user)
      pure (stream_filtered source "rows" (all_docs_item permissions filter_of ability))

    unfoldable pub all_docs : String → Dict Json → Option UserInfo → Json → Io World Reply
    all_docs db query_params user body = do
      source ← send (post db "_all_docs" (json body) query_params) stream
      stream_all_docs source user

    unfoldable pub all_docs_get : String → Dict Json → Option UserInfo → Io World Reply
    all_docs_get db query_params user = do
      source ← send (get db "_all_docs" query_params) stream
      stream_all_docs source user

-- `bulkDocs`
abbrev pub bulk_docs_endpoint :
    Permissions
    → DocumentFilter
    → Couch
    → AuditService
    → String
    → BulkDocsRequest
    → Option UserInfo
    → Io World (List DocResult)
bulk_docs_endpoint permissions filter_of couch audit db body user =
    handle_bulk_docs permissions filter_of couch audit body user db

-- `create_index`: forwarded as it is
abbrev pub create_index : {A : Type 0} → (List Request → Result A) → String → Json → Io World A
create_index answer db body = send (post db "_index" (json body) []) answer
