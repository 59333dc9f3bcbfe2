-- ===== src/Audit/Entries.antt =====
-- The pure parts of `class DefaultAuditService` (src/audit/audit.service.ts): which entries a bulk
-- write leads to, and what a record says of the revisions.
use replication_backend.Prelude.{
  ℕ, zero, suc, ◌-◌, ◌/◌, ◌%◌, String, Bool, true, false, not, Option, none, some, List, [], ◌∷◌,
  ◌++◌, filter_map, Dict, lookup, insert, contains, eqb, ltb, ◌&◌, is_some, if◌then◌else◌,
}
use replication_backend.Json.{
  Json, str, num, arr, obj, elems, entries, DatabaseDocument, id_of, rev_of, is_deleted, non_empty,
}
use replication_backend.Couch.{DocResult, BulkDocsRequest}
use replication_backend.AuditRecord.{AuditOperation, is_replicable_id}
use replication_backend.Audit.{AuditEntry}

-- `IGNORED_DIFF_FIELDS`
abbrev pub ignored_diff_fields : List String
ignored_diff_fields = "_rev" ∷ "_revisions" ∷ "_conflicts" ∷ "_attachments" ∷ []

-- A number in decimal, as a template literal prints it; one more digit for each unit of fuel.
abbrev digit : ℕ → String
digit n =
    if eqb n 0
    then "0"
    else if eqb n 1
    then "1"
    else if eqb n 2
    then "2"
    else if eqb n 3
    then "3"
    else if eqb n 4
    then "4"
    else if eqb n 5
    then "5"
    else if eqb n 6
    then "6"
    else if eqb n 7
    then "7"
    else if eqb n 8
    then "8"
    else "9"

unfoldable pub show_number : ℕ → ℕ → String
show_number zero n = ""
show_number (suc fuel) n =
    let front = show_number fuel (n / 10) in if ltb n 10 then digit n else front & digit (n % 10)

-- `revisions.start`, if it is a number, and `revisions.ids`
abbrev pub revision_parts : Option Json → Option (ℕ × List Json)
revision_parts (some (obj fs)) = elim (lookup "start" (entries fs)) [
  | some (num start) ↦ elim (lookup "ids" (entries fs)) [
    | some (arr ids) ↦ some (start, elems ids)
    | _ ↦ none
  ]
  | _ ↦ none
]
revision_parts _ = none

abbrev pub second_text : List Json → Option String
second_text (_ ∷ str id ∷ _) = some id
second_text _ = none

unfoldable pub parent_rev_of : DatabaseDocument → Option String
unfolding show_number
parent_rev_of doc = elim (revision_parts (lookup "_revisions" doc)) [
  | none ↦ none
  | some (start, ids) ↦ if ltb start 1 then none else elim (second_text ids) [
    | none ↦ none
    | some id ↦ some (show_number (suc start) (start - 1) & "-" & id)
  ]
]

-- `_bulk_docs` response: the ids with an error, and the revisions of the others
pub record BulkIndex : Type 0 where
  pub error_ids : List String
  pub rev_by_id : Dict (Option String)

abbrev pub index_result : DocResult → BulkIndex → BulkIndex
index_result result index = elim (non_empty result.error) [
  | none ↦ record index { rev_by_id = insert result.id result.rev index.rev_by_id }
  | some e ↦ record index { error_ids = index.error_ids ++ result.id ∷ [] }
]

unfoldable pub index_bulk_response : List DocResult → BulkIndex → BulkIndex
index_bulk_response [] index = index
index_bulk_response (result ∷ rest) index = index_bulk_response rest (index_result result index)

abbrev pub no_results : BulkIndex
no_results = record { error_ids = []; rev_by_id = [] }

abbrev pub operation_of : DatabaseDocument → Option DatabaseDocument → AuditOperation
operation_of doc existing =
    if is_deleted doc
    then AuditOperation.delete
    else if is_some existing
    then AuditOperation.update
    else AuditOperation.create

-- `revById.get(id)`, a `Map` whose values may be `undefined`
abbrev pub flat : Option (Option String) → Option String
flat none = none
flat (some rev) = rev

unfoldable pub to_audit_entry :
    DatabaseDocument → Dict DatabaseDocument → BulkIndex → Bool → Option AuditEntry
to_audit_entry doc existing_docs index new_edits_false = elim (non_empty (id_of doc)) [
  | none ↦ none
  | some id ↦
      let existing : Option DatabaseDocument = lookup id existing_docs in
      let succeeded : Bool =
        if new_edits_false
        then not (contains index.error_ids id)
        else is_some (lookup id index.rev_by_id) in
      if succeeded
      then some (record {
        existing_doc = existing;
        new_doc = doc;
        new_rev = if new_edits_false then rev_of doc else flat (lookup id index.rev_by_id);
        operation = operation_of doc existing;
      })
      else none
]

-- `written.new_edits === false`
abbrev pub is_push : BulkDocsRequest → Bool
is_push written = elim written.new_edits [ none ↦ false | some b ↦ not b ]

unfoldable pub build_bulk_entries :
    BulkDocsRequest → Dict DatabaseDocument → List DocResult → List AuditEntry
build_bulk_entries written existing_docs response =
    filter_map
      (λ doc.
        to_audit_entry doc existing_docs (index_bulk_response response no_results)
          (is_push written))
      written.docs

-- `entry.newDoc && isReplicableId(entry.newDoc._id)`
abbrev pub is_relevant : AuditEntry → Bool
is_relevant entry = is_replicable_id (id_of entry.new_doc)

abbrev pub is_create : AuditOperation → Bool
is_create AuditOperation.create = true
is_create _ = false
