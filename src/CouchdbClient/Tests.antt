-- ===== src/CouchdbClient/Tests.antt =====
-- Tests of the exceptions of the HTTP client.
use replication_backend.Prelude.{String, false, Option, some, none, List, [], ◌∷◌, ◌≡◌, refl}
use replication_backend.Json.{Json}
use replication_backend.CouchdbClient.{
  Chunk, stream, AxiosErrorLike, build_doc_url, stream_rejection,
}
use replication_backend.CouchdbClient.Failures.{HasStatus, stream_rejection-HasStatus}

abbrev first_bytes : List Chunk → String
first_bytes [] = ""
first_bytes (chunk ∷ chunks) = chunk.bytes

abbrev no_json : String → Option Json
no_json text = none

abbrev pieces : List Chunk
pieces = record { size = 3; bytes = "bad" } ∷ record { size = 70000; bytes = "more" } ∷ []

abbrev gone : AxiosErrorLike
gone = record { message = none; response = some (404, stream pieces false) }

stream_rejection-HasStatus_example :
    HasStatus first_bytes no_json 404 (stream_rejection first_bytes no_json gone)
stream_rejection-HasStatus_example =
    stream_rejection-HasStatus first_bytes no_json gone 404 (stream pieces false) refl

address : build_doc_url "http://db" (some "app") (some "_find") ≡ "http://db/app/_find"
unfolding build_doc_url
address = refl
