-- ===== src/AuditRecord.antt =====
-- src/audit/audit-record.dto.ts and src/audit/audit.config.ts: records of the audit log, their ids,
-- and the names of audit databases.
pub mod Ids
use replication_backend.Prelude.{
  String, Bool, not, ◌&&◌, Option, none, some, List, [], ◌==◌, ◌&◌, starts_with, ends_with, or_else,
  false,
}
use replication_backend.Json.{Json}
use replication_backend.Casl.{UserInfo}

-- `type AuditOperation`
pub data AuditOperation : Type 0 where
  create update delete baseline : AuditOperation

-- The user of a record; `undefined` fields of an anonymous write are `none`.
pub record AuditUser : Type 0 where
  pub id : Option String
  pub name : Option String
  pub roles : List String

-- `class AuditRecordEntity`
pub record AuditRecordEntity : Type 0 where
  pub id : String
  pub entity_id : String
  pub database : String
  pub operation : AuditOperation
  pub rev : Option String
  pub parent_rev : Option String
  pub timestamp : String
  pub user : AuditUser
  pub diff : Option Json

-- `AuditRecordEntity.ENTITY_TYPE` and `AuditConfig.AUDIT_DB_SUFFIX`
abbrev pub entity_type : String
entity_type = "AuditRecord"

abbrev pub audit_db_suffix : String
audit_db_suffix = "-audit"

unfoldable pub audit_id_prefix : String → String
audit_id_prefix entity_id = entity_type & ":" & entity_id

unfoldable pub build_audit_id : String → String → Option String → String
unfolding audit_id_prefix
build_audit_id entity_id timestamp rev =
    audit_id_prefix entity_id & ":" & timestamp & ":" & or_else rev "na"

unfoldable pub audit_user : Option UserInfo → AuditUser
audit_user none = record { id = none; name = none; roles = [] }
audit_user (some user) = record { id = some user.id; name = some user.name; roles = user.roles }

unfoldable pub audit_db_for : String → String
audit_db_for db = db & audit_db_suffix

unfoldable pub is_audit_db : String → Bool
is_audit_db db = not (db == "") && ends_with db audit_db_suffix

unfoldable pub is_replicable_id : Option String → Bool
is_replicable_id none = false
is_replicable_id (some id) =
    not (id == "") && not (starts_with id "_design/") && not (starts_with id "_local/")
