-- ===== src/Couch.antt =====
-- The HTTP client of CouchDB (src/couchdb/couchdb.service.ts) as its callers see it. The database
-- is a service outside the program: `Couch` answers each request from all requests so far, in any
-- way it likes, an exception included. What the program has sent is its observable behaviour.
use replication_backend.Prelude.{ℕ, String, Bool, Option, List, ◌∷◌, Dict}
use replication_backend.Json.{Json, DatabaseDocument}
use replication_backend.AuditRecord.{AuditRecordEntity}
use replication_backend.Effects.{Result, Io}

-- `class DocMetaInf`
pub record DocMetaInf : Type 0 where
  pub id : Option String
  pub key : String
  pub doc : Option DatabaseDocument

-- `type BulkDocsResponse = (DocSuccess | DocError)[]`; `error` is what distinguishes the two
pub record DocResult : Type 0 where
  pub id : String
  pub rev : Option String
  pub error : Option String

-- `class BulkDocsRequest`; `new_edits` may be left out of the body
pub record BulkDocsRequest : Type 0 where
  pub new_edits : Option Bool
  pub docs : List DatabaseDocument

-- `interface ChangeResult`
pub record ChangeResult : Type 0 where
  pub id : String
  pub seq : String
  pub deleted : Bool
  pub doc : Option DatabaseDocument

-- `interface ChangesResponse`
pub record ChangesResponse : Type 0 where
  pub last_seq : String
  pub results : List ChangeResult
  pub pending : ℕ
  pub lost_permissions : List String

-- Bodies of a POST: a bulk write, a list of keys, audit records, or any JSON value that is passed on.
pub data Body : Type 0 where
  bulk_docs : BulkDocsRequest → Body
  keys : List String → Body
  audit_records : List AuditRecordEntity → Body
  json : Json → Body

-- One constructor for each method of `CouchdbService` that the modelled code calls.
pub data Request : Type 0 where
  get : (db path : String) → Dict Json → Request
  post : (db path : String) → Body → Dict Json → Request
  put : (db : String) → DatabaseDocument → Request
  delete : (db id : String) → Dict Json → Request
  head : (db path : String) → Dict Json → Request
  create_db : (db : String) → Request

-- The answers, each to the head of the history, the request just sent.
pub record Couch : Type 0 where
  pub document : List Request → Result DatabaseDocument
  pub rows : List Request → Result (List DocMetaInf)
  pub changes : List Request → Result ChangesResponse
  pub written : List Request → Result (List DocResult)
  pub stored : List Request → Result DocResult
  pub created : List Request → Result (Unit {0})

-- What the services of one backend share: the requests sent, the latest first, and the audit
-- databases that `DefaultAuditService` knows to exist.
pub record World : Type 0 where
  pub sent : List Request
  pub ensured_dbs : List String

-- `await firstValueFrom(this.couchdbService.…)`
abbrev pub send : {A : Type 0} → Request → (List Request → Result A) → Io World A
send q answer w = let sent = q ∷ w.sent in (answer sent, record w { sent = sent })
