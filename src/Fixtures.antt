-- ===== src/Fixtures.antt =====
-- Test data: a small permission system, a database with fixed answers, and the libraries outside
-- the program, each as a concrete function.
pub mod Equality
pub mod Assembler
pub mod Accounts
use replication_backend.Prelude.{
  String, Bool, true, false, not, Option, none, some, [], ◌∷◌, ◌==◌, ◌&◌, starts_with, or_else,
  filter, contains, Dict, length, if◌then◌else◌,
}
use replication_backend.Json.{str, DatabaseDocument, id_of}
use replication_backend.Effects.{ok, throw, other_error}
use replication_backend.Casl.{Subject, document, type_name, UserInfo, Lodash, Permissions}
use replication_backend.Couch.{
  Couch, World, BulkDocsRequest, DocResult, ChangeResult, ChangesResponse,
}
use replication_backend.DocumentFilter.{DocumentFilter}
use replication_backend.Audit.{AuditEntry}
use replication_backend.AuditRecord.{AuditOperation}
use replication_backend.Audit.Service.{AuditTools}
use replication_backend.ErrorClassification.{ErrorTexts}
use replication_backend.Changes.Stream.{Surroundings, ChangesParams}

abbrev pub teacher : UserInfo
teacher = record { id = "u1"; name = "teacher"; roles = "user_app" ∷ []; projects = [] }

abbrev pub editor : UserInfo
editor = record { id = "u2"; name = "editor"; roles = "user_app" ∷ []; projects = [] }

abbrev pub may_access : Option UserInfo → Subject → Bool
may_access none subject = false
may_access (some user) (document doc) = starts_with (or_else (id_of doc) "") "Child:"
may_access (some user) (type_name name) = name == "Child"

-- A signed-in user may do everything to children, and the editor may change their names only.
abbrev pub children_only : Permissions
children_only = record {
  Ability = Option UserInfo;
  ability_for = λ user. ok user;
  can = λ user action subject. may_access user subject;
  permitted_fields_of = λ user action doc. elim user [
    | none ↦ []
    | some u ↦ if u.name == "editor" then "name" ∷ [] else []
  ];
}

abbrev pub no_designs : DocumentFilter
no_designs = record { ignored_prefixes = "_design/" ∷ [] }

abbrev pub child : DatabaseDocument
child = ("_id", str "Child:1") ∷ ("_rev", str "2-b") ∷ ("name", str "Ada") ∷ []

abbrev pub renamed_child : DatabaseDocument
renamed_child = ("_id", str "Child:1") ∷ ("_rev", str "1-a") ∷ ("name", str "Eve") ∷ []

abbrev pub school : DatabaseDocument
school = ("_id", str "School:1") ∷ []

abbrev pub two_docs : BulkDocsRequest
two_docs = record { new_edits = none; docs = renamed_child ∷ school ∷ [] }

abbrev pub stored_children : Dict DatabaseDocument
stored_children = ("Child:1", child) ∷ []

abbrev pub change_of : String → DatabaseDocument → ChangeResult
change_of seq doc = record {
  id = or_else (id_of doc) "";
  seq = seq;
  deleted = false;
  doc = some doc;
}

abbrev pub two_changes : ChangesResponse
two_changes = record {
  last_seq = "2";
  results = change_of "1" child ∷ change_of "2" school ∷ [];
  pending = 0;
  lost_permissions = [];
}

abbrev pub success : DocResult
success = record { id = "Child:1"; rev = some "3-c"; error = none }

abbrev pub one_child : Couch
one_child = record {
  document = λ history. ok child;
  rows = λ history. ok (record { id = some "Child:1"; key = "Child:1"; doc = some child } ∷ []);
  changes = λ history. ok two_changes;
  written = λ history. ok (success ∷ []);
  stored = λ history. ok success;
  created = λ history. ok tt;
}

abbrev pub unreadable : Couch
unreadable = record one_child { rows = λ history. throw (other_error "down") }

abbrev pub start : World
start = record { sent = []; ensured_dbs = "app-audit" ∷ [] }

abbrev pub by_name : Lodash
by_name = record {
  is_equal = λ a b. true;
  has = λ value path. false;
  get = λ value path. none;
  pick = λ doc fields. filter (λ entry. contains fields entry.0) doc;
  omit = λ doc fields. filter (λ entry. not (contains fields entry.0)) doc;
}

abbrev pub tools : AuditTools
tools = record {
  couch = one_child;
  now = λ w. "2024-01-01T00:00:00Z";
  lodash = by_name;
  diff = λ old new. none;
  stringify_text = λ text. "'" & text & "'";
  high_sentinel = "~";
}

abbrev pub renaming : AuditEntry
renaming = record {
  existing_doc = some child;
  new_doc = renamed_child;
  new_rev = some "3-c";
  operation = AuditOperation.update;
}

-- The clock advances by a millisecond for each request to the database.
abbrev pub surroundings : Surroundings
surroundings = record {
  couch = one_child;
  now = λ s. length s.sent;
  destroyed = λ s. false;
  drains = λ s. true;
  stringify_change = λ change. change.id;
  stringify_text = λ text. text;
  stringify_texts = λ texts. "[]";
  show_number = λ n. "0";
}

abbrev pub one_result : ChangesParams
one_result = record { limit = some 1; since = none; include_docs = some "true"; others = [] }

abbrev pub plain_texts : ErrorTexts
plain_texts = record {
  describe = λ e. "failed";
  show_number = λ n. "500";
  to_lower_case = λ text. text;
}
