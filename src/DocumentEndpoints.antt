-- ===== src/DocumentEndpoints.antt =====
-- The endpoints of single documents: src/restricted-endpoints/document/document.controller.ts and
-- design-document.controller.ts, and attachment/attachment/attachment.controller.ts.
pub mod Views
pub mod Guards
mod Tests
use replication_backend.Prelude.{
  String, Bool, true, false, not, ◌&&◌, ◌||◌, Option, none, some, List, [], ◌∷◌, Dict, lookup,
  insert, ◌==◌, ◌&◌, filter, map, filter_map, strip_suffix, if◌then◌else◌,
}
use replication_backend.Json.{Json, bool, str, obj, entries, truthy, DatabaseDocument}
use replication_backend.Effects.{
  Error, http_exception, Result, ok, throw, Io, pure, lift, raise, ◌>>=◌, ◌>>◌,
}
use replication_backend.Casl.{
  Permissions, Action, read, update, delete, manage, document, type_name, UserInfo, Lodash,
}
use replication_backend.Couch.{World, Request, Couch, DocResult, get, put, head, send}
use replication_backend.Audit.{AuditService}
use replication_backend.Permission.{is_allowed_to}
use replication_backend.DocumentWrite.{unauthorized, put_document, delete_document}

-- `type ViewResponse`: its rows, and what else it has
pub record ViewResponse : Type 0 where
  pub rows : List (Dict Json)
  pub others : Dict Json

-- `new ForbiddenException(…)` of the attachments and of the design documents
abbrev pub forbidden : Error
forbidden = http_exception 403 "unauthorized"

abbrev pub no_design_permission : Error
no_design_permission = http_exception 403 "Missing permission to manage design documents"

abbrev pub is_true : Option Json → Bool
is_true (some (bool b)) = b
is_true _ = false

-- `row?.doc`, `row?.value` where they are objects
abbrev pub object_at : String → Dict Json → Option (Dict Json)
object_at key row = elim (lookup key row) [ some (obj fs) ↦ some (entries fs) | _ ↦ none ]

abbrev pub flag_of : Option (Dict Json) → String → Bool
flag_of none key = false
flag_of (some fields) key = is_true (lookup key fields)

unfoldable pub is_deleted_row : Dict Json → Bool
is_deleted_row row =
    flag_of (object_at "doc" row) "_deleted"
    || flag_of (object_at "value" row) "deleted"
    || is_true (lookup "deleted" row)

abbrev pub include_docs : Dict Json → Bool
include_docs query_params = elim (lookup "include_docs" query_params) [
  | some (bool b) ↦ b
  | some (str text) ↦ text == "true"
  | _ ↦ false
]

-- `forwardHeader`: of the named headers, those that CouchDB has sent
abbrev pub forward_header : (String → String) → Dict String → List String → List (String × String)
forward_header lower headers names =
    filter_map
      (λ name. elim (lookup (lower name) headers) [
        | none ↦ none
        | some value ↦ if value == "" then none else some (name, value)
      ])
      names

module _ (permissions : Permissions) (couch : Couch) where
  open permissions use {Ability, ability_for, can}

  -- `headDocument`: the headers of the response
  unfoldable pub head_document :
      (List Request → Result (Dict String))
      → (String → String)
      → String
      → String
      → Option UserInfo
      → Dict Json
      → Io World (List (String × String))
  head_document headers lower db doc_id user query_params = lift (ability_for user) >>= λ ability.
      if not (can ability read (document (("_id", str doc_id) ∷ [])))
      then raise unauthorized
      else do
        found ← send (head db doc_id query_params) headers
        pure (
            forward_header lower found ("ETag" ∷ "X-Couch-Request-ID" ∷ "X-CouchDB-Body-Time" ∷ []))

  unfoldable pub get_document :
      String → String → Option UserInfo → Dict Json → Io World DatabaseDocument
  get_document db doc_id user query_params = do
    doc ← send (get db doc_id query_params) couch.document
    allowed ← is_allowed_to permissions couch read doc user db
    if allowed then pure doc else raise unauthorized

  unfoldable pub get_design_doc : String → String → Dict Json → Io World DatabaseDocument
  get_design_doc db design_name query_params =
      send (get db ("_design/" & design_name) query_params) couch.document

  unfoldable pub put_design_doc :
      String → String → DatabaseDocument → Option UserInfo → Io World DocResult
  put_design_doc db design_name doc user = lift (ability_for user) >>= λ ability.
      if not (can ability manage (type_name "_design"))
      then raise no_design_permission
      else send (put db (insert "_id" (str ("_design/" & design_name)) doc)) couch.stored

  -- A row of a view that is asked for with its documents
  unfoldable pub is_shown_row : Ability → Dict Json → Bool
  is_shown_row ability row =
      if is_deleted_row row
      then true
      else elim (object_at "doc" row) [ none ↦ false | some doc ↦ can ability read (document doc) ]

  unfoldable pub query_view :
      (List Request → Result ViewResponse)
      → String
      → String
      → String
      → Option UserInfo
      → Dict Json
      → Io World ViewResponse
  query_view views db design_name view_name user query_params = do
    result ← send (get db ("_design/" & design_name & "/_view/" & view_name) query_params) views
    if include_docs query_params
        then (do
          ability ← lift (ability_for user)
          pure (record result { rows = filter (is_shown_row ability) result.rows }))
        else pure result

  -- `ensurePermissions`
  abbrev pub refuse : Option UserInfo → Io World (Unit {0})
  refuse none = raise unauthorized
  refuse (some user) = raise forbidden

  unfoldable pub ensure_permissions :
      Option UserInfo → Action → String → String → Io World (Unit {0})
  ensure_permissions user action db doc_id = do
    doc ← send (get (strip_suffix "-attachments" db) doc_id []) couch.document
    allowed ← is_allowed_to permissions couch action doc user db
    if allowed then pure tt else refuse user

  -- `createAttachment` and `getAttachment`: what the proxy does with a request that is let through
  unfoldable pub create_attachment :
      {A : Type 0} → Io World A → String → String → Option UserInfo → Io World A
  create_attachment proxy db doc_id user = ensure_permissions user update db doc_id >> proxy

  unfoldable pub get_attachment :
      {A : Type 0} → Io World A → String → String → Option UserInfo → Io World A
  get_attachment proxy db doc_id user = ensure_permissions user read db doc_id >> proxy

  unfoldable pub delete_attachment :
      String → String → String → Dict Json → Option UserInfo → Io World DocResult
  delete_attachment db doc_id property params user =
      ensure_permissions user delete db doc_id
      >> send (Request.delete db (doc_id & "/" & property) params) couch.stored

-- `putDocument` and `deleteDocument`
module _ (permissions : Permissions) (couch : Couch) (audit : AuditService) (lodash : Lodash) where
  abbrev pub put_document_endpoint :
      String → String → DatabaseDocument → Option UserInfo → Option String → Io World DocResult
  put_document_endpoint db doc_id doc user if_match =
      put_document permissions couch audit lodash db doc_id doc user if_match

  abbrev pub delete_document_endpoint :
      String → String → Option UserInfo → Dict Json → Io World DocResult
  delete_document_endpoint db doc_id user query_params =
      delete_document permissions couch audit lodash db doc_id user query_params
