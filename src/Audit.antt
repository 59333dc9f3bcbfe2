-- ===== src/Audit.antt =====
-- What the write paths see of the audit log: `abstract class AuditService` of
-- src/audit/audit.service.ts, and `interface AuditEntry` of src/audit/audit-record.dto.ts.
pub mod Entries
pub mod Service
pub mod Bulk
pub mod Trail
pub mod Records
mod Tests
use replication_backend.Prelude.{String, Option, List, Dict, ◌≡◌}
use replication_backend.Json.{DatabaseDocument}
use replication_backend.Effects.{Io, ok}
use replication_backend.Couch.{World, BulkDocsRequest, DocResult}
use replication_backend.AuditRecord.{AuditOperation}
use replication_backend.Casl.{UserInfo}

-- `interface AuditEntry`
pub record AuditEntry : Type 0 where
  pub existing_doc : Option DatabaseDocument
  pub new_doc : DatabaseDocument
  pub new_rev : Option String
  pub operation : AuditOperation

-- The contract: both operations end without an exception, whatever the database does.
pub record AuditService : Type 0 where
  pub record_entries : String → List AuditEntry → Option UserInfo → Io World (Unit {0})
  pub record_bulk_write :
      String
      → BulkDocsRequest
      → Dict DatabaseDocument
      → List DocResult
      → Option UserInfo
      → Io World (Unit {0})
  pub record_entries_ok :
      (db : String) (entries : List AuditEntry) (user : Option UserInfo) (w : World)
      → (record_entries db entries user w).0 ≡ ok tt
  pub record_bulk_write_ok :
      (db : String) (written : BulkDocsRequest) (existing : Dict DatabaseDocument)
      (response : List DocResult) (user : Option UserInfo) (w : World)
      → (record_bulk_write db written existing response user w).0 ≡ ok tt
