-- ===== src/Lib.antt =====
-- Verification library of the replication backend: a NestJS server that stands between offline-first
-- clients and CouchDB, and lets through what the permissions of a user allow.
--
-- How the parts interact: a bulk write (BulkDocument) reads the stored documents, keeps the
-- submitted ones that CASL permits, writes them and hands the write to the audit log (Audit). A
-- single write (DocumentWrite) asks the permission check (Permission) about the stored document,
-- writes, and records an audit entry. The changes feed (Changes) reads batches from CouchDB until
-- the limit or the deadline is reached and streams the permitted changes. All of them use the
-- document filter (DocumentFilter). The permission document (RulesConfig) is normalized when it is
-- loaded, and the managed rules are merged into it. The rules service (Rules)
-- holds the configuration in force, follows its updates, and gives each user the rules of the roles;
-- RulesLoading loads it at the start and after each change that the feed (DocumentChanges) reports.
-- The bulk endpoints (BulkEndpoints) stream responses of CouchDB through the JSON filter (JsonFilter),
-- which asks BulkDocument about each item. The permission check (PermissionCheck) resolves users
-- through the cache of identities (UserIdentity), which the same feed invalidates.
--
-- The files, and the code that they model:
--   Prelude, Json, Effects: shared names and lemmas, JSON documents, exceptions and actions on a state
--   Casl, Couch: what the program uses of @casl/ability and lodash, and the HTTP client of CouchDB
--     (src/couchdb/couchdb.service.ts) as its callers see it
--   DocumentFilter: src/restricted-endpoints/replication/document-filter/document-filter.service.ts
--   BulkDocument: src/restricted-endpoints/replication/bulk-document/bulk-document.service.ts
--   Changes: src/restricted-endpoints/replication/changes/changes.controller.ts, with
--     ChangesResponseStream and the loop of ChangesController in Changes/Stream.antt
--   DocumentWrite: src/restricted-endpoints/document/document-write.service.ts
--   Permission: src/permissions/permission/permission.service.ts
--   RulesConfig: src/permissions/rules/permission.ts, default-permissions.ts,
--     permission-config.validator.ts, and normalizeSectionKeys and bootstrapPermissions of
--     rules.service.ts
--   Rules: getRulesForUser, injectUserVariablesIntoRules and the updates of src/permissions/rules/rules.service.ts
--   RulesLoading: loadInitialPermissions and watchPermissionChanges of the same file
--   WriteBack: ensureManagedDefaults and writeManagedDefaults of the same file
--   JsonFilter, Json/Text: src/common/json-array-filter.ts, and the JSON text of a value
--   BulkEndpoints: src/restricted-endpoints/replication/bulk-document/bulk-doc-endpoints.controller.ts
--   UserIdentity: src/permissions/user-identity/user-identity.service.ts; UserAdmin is the interface of
--     user-admin.service.ts
--   AbilityCache: getAbilityFor of src/permissions/permission/permission.service.ts, with its cache
--   DocumentEndpoints: document.controller.ts and design-document.controller.ts of
--     src/restricted-endpoints/document, and src/restricted-endpoints/attachment/attachment/attachment.controller.ts
--   CouchdbClient: src/couchdb/couchdb.service.ts, addresses and exceptions
--   Keycloak: src/permissions/user-identity/keycloak-user-admin.service.ts, an implementation of UserAdmin
--   Admin: src/admin/admin.service.ts
--   PermissionCheck: src/permissions/permission-check/permission-check.controller.ts
--   ErrorClassification: src/common/http-error-classification.ts
--   DocumentChanges: src/couchdb/document-changes.service.ts
--   AuditRecord: src/audit/audit-record.dto.ts and audit.config.ts
--   Audit: src/audit/audit.service.ts and noop-audit.service.ts; AuditService is the interface that
--     the write paths use, with the contract that recording ends without an exception
--   Backoff: src/common/exponential-backoff.ts
--   Fixtures: data for the tests, which stand in the Tests module of each part
--
-- State: World holds the requests sent to CouchDB, the latest first, and the audit databases known
-- to exist; Response holds what a changes request has sent and written. An action (Io) takes a state
-- and returns a result or an exception with the state that it leaves; await and catch are its bind
-- and its handler. CouchDB is a parameter that answers each request from all requests so far.
--
-- Bounds: revisions, limits and times are natural numbers. The loop of a changes request runs on
-- fuel; with a clock that advances by a millisecond for each request, 8001 rounds from the start of
-- the clock on are enough, since the loop stops at its deadline of 8000 milliseconds. The write-back
-- makes three attempts, as in the source. The startup loop runs on fuel; its waits after nine failures
-- are longer than its 60 seconds, so ten rounds are enough.
--
-- Parameters: CouchDB, Keycloak, CASL, lodash, the diff library, the clock, JSON.stringify and the
-- socket; of stream-json the Assembler, with the hypothesis that it assembles the tokens of a value to
-- that value. The theorem on cached abilities supposes that JSON.parse reads back the texts that are
-- compared.
-- For the endpoints, building the ability of a user is a parameter that gives one or throws; AbilityCache
-- models it with its cache. Texts are compared and cut as sequences of characters.
--
-- Not modelled: logging, the wiring of modules, authentication, the sending of HTTP requests, the
-- proxy for attachments and the backpressure of streams.
pub mod Prelude
pub mod Json
pub mod Effects
pub mod Casl
pub mod AuditRecord
pub mod Couch
pub mod DocumentFilter
pub mod Audit
pub mod BulkDocument
pub mod Changes
pub mod Backoff
pub mod Permission
pub mod DocumentWrite
pub mod RulesConfig
pub mod Rules
pub mod WriteBack
pub mod RulesLoading
pub mod Keycloak
pub mod CouchdbClient
pub mod Admin
pub mod DocumentEndpoints
pub mod AbilityCache
pub mod JsonFilter
pub mod BulkEndpoints
pub mod UserIdentity
pub mod PermissionCheck
pub mod ErrorClassification
pub mod DocumentChanges
pub mod Fixtures
