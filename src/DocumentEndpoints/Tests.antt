-- ===== src/DocumentEndpoints/Tests.antt =====
-- Tests of the endpoints of single documents.
use replication_backend.Prelude.{String, true, some, [], ◌∷◌, Dict, lookup, Memᴰ, ◌≡◌, ◌↔◌, refl}
use replication_backend.Json.{Json, str, obj, field, end}
use replication_backend.Effects.{ok}
use replication_backend.DocumentEndpoints.{
  ViewResponse, include_docs, query_view, is_shown_row, is_deleted_row,
}
use replication_backend.DocumentEndpoints.Views.{MaySee, query_view-MaySee}
use replication_backend.Fixtures.{children_only, one_child, teacher, start}

abbrev row_of : String → Dict Json
row_of id = ("id", str id) ∷ ("doc", obj (field "_id" (str id) end)) ∷ []

abbrev view : ViewResponse
view = record { rows = row_of "Child:1" ∷ row_of "School:1" ∷ []; others = [] }

abbrev shown : ViewResponse
shown = record { rows = row_of "Child:1" ∷ []; others = [] }

abbrev with_docs : Dict Json
with_docs = ("include_docs", str "true") ∷ []

with_docs_included : include_docs with_docs ≡ true
unfolding lookup
with_docs_included = refl

answered :
    (query_view children_only one_child
      (λ history. ok view)
      "app"
      "d"
      "v"
      (some teacher)
      with_docs
      start).0
    ≡ ok shown
unfolding query_view is_shown_row is_deleted_row lookup
answered = refl

query_view-MaySee_example : Memᴰ (row_of "School:1") shown.rows ↔ (
    Memᴰ (row_of "School:1") view.rows
    × MaySee children_only one_child (some teacher) (row_of "School:1"))
query_view-MaySee_example =
    query_view-MaySee children_only one_child (λ history. ok view) "app" "d" "v" (some teacher)
      with_docs start view shown (row_of "School:1") (some teacher) refl with_docs_included refl
      answered
