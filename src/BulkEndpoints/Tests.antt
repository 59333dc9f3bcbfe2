-- ===== src/BulkEndpoints/Tests.antt =====
-- Tests of the streaming endpoints.
use replication_backend.Prelude.{
  String, false, not, none, some, List, [], ◌++◌, ◌==◌, append-nil, lookup, ◌≡◌, ◌↔◌, refl,
}
use replication_backend.Json.{Json, null, str, arr, obj, nil, cons, Fields, end, field}
use replication_backend.Json.Text.{stringify}
use replication_backend.Effects.{Result, ok}
use replication_backend.Couch.{Request}
use replication_backend.DocumentFilter.{is_replicable}
use replication_backend.BulkDocument.{find_doc_filter, all_docs_row_filter}
use replication_backend.JsonFilter.{Token}
use replication_backend.JsonFilter.Tokens.{tokens, filter_items, filter_fields}
use replication_backend.BulkEndpoints.{
  Source, Sink, replied, stream_filtered, find, all_docs_get, find_item, all_docs_item,
}
use replication_backend.BulkEndpoints.Streamed.{stream_filtered-replied_iff}
use replication_backend.BulkEndpoints.Shown.{
  AllUnder, IsFindable, IsShownRow, find-IsFindable, all_docs_get-IsShownRow,
}
use replication_backend.Fixtures.{children_only, no_designs, teacher, start}
use replication_backend.Fixtures.Assembler.{stack_assembler, stack_assembler_lem}

abbrev named : String → Json → Json
named id doc = obj (field "id" (str id) (field "doc" doc end))

abbrev with_id : String → Json
with_id id = obj (field "_id" (str id) end)

abbrev found_docs : Fields
found_docs = field "docs" (arr (cons (with_id "Child:1") (cons (with_id "School:1") nil))) end

abbrev shown_docs : Fields
shown_docs = field "docs" (arr (cons (with_id "Child:1") nil)) end

abbrev found_rows : Fields
found_rows =
    field "rows"
      (arr (
        cons (named "Child:1" (with_id "Child:1"))
          (cons (named "School:1" (with_id "School:1")) nil)))
      end

abbrev shown_rows : Fields
shown_rows = field "rows" (arr (cons (named "Child:1" (with_id "Child:1")) nil)) end

abbrev whole : Fields → Source
whole fs = record { tokens = tokens (obj fs) []; broken = none }

abbrev patient : Sink
patient = record { disconnects = false; started = λ text. not (text == "") }

abbrev answers : Fields → List Request → Result Source
answers fs history = ok (whole fs)

docs_kept :
    filter_fields "docs" (find_item children_only no_designs (some teacher)) found_docs
    ≡ ok shown_docs
unfolding filter_fields filter_items find_item find_doc_filter is_replicable lookup
docs_kept = refl

rows_kept :
    filter_fields "rows" (all_docs_item children_only no_designs (some teacher)) found_rows
    ≡ ok shown_rows
unfolding filter_fields filter_items all_docs_item all_docs_row_filter is_replicable lookup
rows_kept = refl

whole_received : (fs : Fields) → (whole fs).tokens ++ [] ≡ tokens (obj fs) []
whole_received fs = append-nil (tokens (obj fs) [])

docs_streamed :
    stream_filtered stack_assembler patient
      (whole found_docs)
      "docs"
      (find_item children_only no_designs (some teacher))
    ≡ replied (stringify stack_assembler.quote stack_assembler.digits (obj shown_docs))
docs_streamed =
    (stream_filtered-replied_iff stack_assembler patient "docs"
        (find_item children_only no_designs (some teacher)) stack_assembler_lem found_docs
        shown_docs (whole found_docs) []
        (stringify stack_assembler.quote stack_assembler.digits (obj shown_docs)) docs_kept
        (whole_received found_docs)).1
      (refl, refl, refl, refl)

rows_streamed :
    stream_filtered stack_assembler patient
      (whole found_rows)
      "rows"
      (all_docs_item children_only no_designs (some teacher))
    ≡ replied (stringify stack_assembler.quote stack_assembler.digits (obj shown_rows))
rows_streamed =
    (stream_filtered-replied_iff stack_assembler patient "rows"
        (all_docs_item children_only no_designs (some teacher)) stack_assembler_lem found_rows
        shown_rows (whole found_rows) []
        (stringify stack_assembler.quote stack_assembler.digits (obj shown_rows)) rows_kept
        (whole_received found_rows)).1
      (refl, refl, refl, refl)

found :
    (find stack_assembler patient children_only no_designs
      (answers found_docs)
      "app"
      null
      (some teacher)
      start).0
    ≡ ok (replied (stringify stack_assembler.quote stack_assembler.digits (obj shown_docs)))
unfolding find
found = rw docs_streamed refl

listed :
    (all_docs_get stack_assembler patient children_only no_designs
      (answers found_rows)
      "app"
      []
      (some teacher)
      start).0
    ≡ ok (replied (stringify stack_assembler.quote stack_assembler.digits (obj shown_rows)))
unfolding all_docs_get
listed = rw rows_streamed refl

-- The text of the documents that are shown.
abbrev docs_text : String
docs_text = stringify stack_assembler.quote stack_assembler.digits (obj shown_docs)

abbrev rows_text : String
rows_text = stringify stack_assembler.quote stack_assembler.digits (obj shown_rows)

stream_filtered-replied_iff_example :
    (stream_filtered stack_assembler patient
        (whole found_docs)
        "docs"
        (find_item children_only no_designs (some teacher))
      ≡ replied docs_text)
    ↔ ((patient.disconnects ≡ false)
        × (◌≡◌ {A = List Token} [] [])
        × ((whole found_docs).broken ≡ none)
        × (docs_text ≡ docs_text))
stream_filtered-replied_iff_example =
    stream_filtered-replied_iff stack_assembler patient "docs"
      (find_item children_only no_designs (some teacher)) stack_assembler_lem found_docs shown_docs
      (whole found_docs) [] docs_text docs_kept (whole_received found_docs)

find-IsFindable_example :
    (◌≡◌ {A = List Token} [] [])
    × (docs_text ≡ docs_text)
    × AllUnder (IsFindable children_only no_designs (some teacher)) "docs" shown_docs
find-IsFindable_example =
    find-IsFindable stack_assembler patient children_only no_designs (answers found_docs)
      stack_assembler_lem "app" null (some teacher) start (some teacher) found_docs shown_docs
      (whole found_docs) [] docs_text refl refl (whole_received found_docs) docs_kept found

all_docs_get-IsShownRow_example :
    (◌≡◌ {A = List Token} [] [])
    × (rows_text ≡ rows_text)
    × AllUnder (IsShownRow children_only no_designs (some teacher)) "rows" shown_rows
all_docs_get-IsShownRow_example =
    all_docs_get-IsShownRow stack_assembler patient children_only no_designs (answers found_rows)
      stack_assembler_lem "app" [] (some teacher) start (some teacher) found_rows shown_rows
      (whole found_rows) [] rows_text refl refl (whole_received found_rows) rows_kept listed
