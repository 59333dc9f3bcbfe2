-- ===== src/CouchdbClient.antt =====
-- src/couchdb/couchdb.service.ts: the addresses of requests and the exceptions of failed ones. How
-- bytes are read as text and text as JSON is a parameter.
pub mod Failures
mod Tests
use replication_backend.Prelude.{
  ℕ, ◌+◌, ◌*◌, String, Bool, true, false, Option, none, some, List, [], ◌∷◌, ◌++◌, ◌==◌, ◌&◌, ltb,
  eqb, or_else, lookup, if◌then◌else◌,
}
use replication_backend.Json.{Json, str, obj, field, end, DatabaseDocument, id_of, non_empty}
use replication_backend.Effects.{Error, http_exception, axios_error, other_error, Result, ok, throw}

-- `FIRST_NON_SUCCESS_STATUS`
abbrev pub first_non_success_status : ℕ
first_non_success_status = 300

abbrev pub max_error_body_bytes : ℕ
max_error_body_bytes = 64 * 1024

-- A piece of a body: how many bytes it has, and what they are.
pub record Chunk : Type 0 where
  pub size : ℕ
  pub bytes : String

-- A body that was read, or a stream: the pieces that arrive, and whether it breaks off or stalls
-- behind them.
pub data ResponseBody : Type 0 where
  value : Json → ResponseBody
  stream : List Chunk → Bool → ResponseBody

-- `interface AxiosErrorLike`
pub record AxiosErrorLike : Type 0 where
  pub message : Option String
  pub response : Option (ℕ × ResponseBody)

-- What a request rejects with: an HttpException, or the error of axios as it is.
pub data Rejection : Type 0 where
  http : ℕ → ResponseBody → Rejection
  as_it_is : AxiosErrorLike → Rejection

-- `buildDocUrl`
unfoldable pub build_doc_url : String → Option String → Option String → String
build_doc_url database_url db document_id =
    let with_db : String = elim (non_empty db) [
      | none ↦ database_url & "/"
      | some name ↦ database_url & "/" & name & "/"
    ] in
    elim (non_empty document_id) [ none ↦ with_db | some id ↦ with_db & id ]

-- The address that `put` sends a document to
abbrev pub put_url : String → String → DatabaseDocument → String
put_url database_url db doc = build_doc_url database_url (some db) (id_of doc)

unfoldable pub to_nest_exception : AxiosErrorLike → Rejection
to_nest_exception err = elim err.response [
  | none ↦ as_it_is err
  | some (status, body) ↦
      if ltb status first_non_success_status
      then http 502 (
          value (
            obj (
              field "error" (str "bad_gateway")
                (field "reason" (str (or_else err.message "incomplete response")) end))))
      else http status body
]

-- The loop of `readBoundedText`: the pieces, unless they become too large.
unfoldable pub read_chunks : ℕ → List Chunk → List Chunk → Option (List Chunk)
read_chunks size [] read = some read
read_chunks size (chunk ∷ chunks) read =
    let rest = read_chunks (size + chunk.size) chunks (read ++ chunk ∷ []) in
    if ltb max_error_body_bytes (size + chunk.size) then none else rest

-- `err?.status ?? err?.getStatus?.()`
abbrev pub status_of : Error → Option ℕ
status_of (http_exception status message) = some status
status_of (axios_error status) = status
status_of (other_error message) = none

abbrev pub is_status : ℕ → Option ℕ → Bool
is_status status none = false
is_status status (some s) = eqb s status

-- `createDb`, on the outcome of the PUT
unfoldable pub create_db : Result (Unit {0}) → Result (Unit {0})
create_db (ok created) = ok tt
create_db (throw e) = if is_status 412 (status_of e) then ok tt else throw e

module _ (decode : List Chunk → String) (parse_json : String → Option Json) where
  -- `readBoundedText`
  unfoldable pub read_bounded_text : List Chunk → Bool → Option String
  read_bounded_text chunks broken = elim (read_chunks 0 chunks []) [
    | none ↦ none
    | some read ↦ if broken then none else some (decode read)
  ]

  unfoldable pub to_buffered_error : Rejection → Rejection
  to_buffered_error (as_it_is err) = as_it_is err
  to_buffered_error (http status (value body)) = http status (value body)
  to_buffered_error (http status (stream chunks broken)) = elim (read_bounded_text chunks broken) [
    | none ↦ http status (value (obj (field "error" (str "unreadable_error_body") end)))
    | some text ↦ http status (value (or_else (parse_json text) (str text)))
  ]

  -- What `requestStream` rejects with when axios rejects: the interceptor of responses comes first.
  unfoldable pub stream_rejection : AxiosErrorLike → Rejection
  stream_rejection err = to_buffered_error (to_nest_exception err)
