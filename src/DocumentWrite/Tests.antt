-- ===== src/DocumentWrite/Tests.antt =====
-- Tests of single writes.
use replication_backend.Prelude.{
  String, some, List, [], ◌∷◌, contains, lookup, ◌≡◌, refl, arith, eq_iff, inl, inr, Bool-cases,
}
use replication_backend.DocumentWrite.{final_doc}
use replication_backend.DocumentWrite.Fields.{PicksFields, final_doc-forbidden}
use replication_backend.Audit.Service.{noop_audit_service}
use replication_backend.Fixtures.{children_only, one_child, by_name, editor, child, renamed_child}

-- `by_name` picks fields.
picks :
    (fields : List String) → PicksFields children_only one_child noop_audit_service by_name fields
unfolding lookup
picks fields [] k = ground arith
picks fields ((j, v) ∷ doc) k = elim (Bool-cases (contains fields j)) [
  | inl e ↦ ground (arith, e, picks fields doc k, eq_iff j k)
  | inr e ↦ ground (arith, e, picks fields doc k, eq_iff j k)
]

final_doc-forbidden_example :
    lookup "_rev" (
      final_doc children_only one_child noop_audit_service by_name
        (some editor)
        (some "9-z")
        child
        renamed_child)
    ≡ lookup "_rev" child
final_doc-forbidden_example =
    final_doc-forbidden children_only one_child noop_audit_service by_name (some editor)
      (some "9-z") child renamed_child (cc) (picks ("name" ∷ [])) "_rev" refl
