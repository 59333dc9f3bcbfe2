-- ===== src/DocumentWrite/Fields.antt =====
-- `applyPermissions` of src/restricted-endpoints/document/document-write.service.ts: what a user
-- whose permission is restricted to some fields can change.
use replication_backend.Prelude.{
  String, false, Option, none, List, [], ◌∷◌, eq_iff, lookup, insert, lookup-insert, contains, ◌≡◌,
  ◌≢◌, refl, ◌∙◌, arith, if◌then◌else◌,
}
use replication_backend.Json.{DatabaseDocument}
use replication_backend.Couch.{Couch}
use replication_backend.Casl.{Permissions, Action, Lodash}
use replication_backend.Audit.{AuditService}
use replication_backend.DocumentWrite.{assign, apply_fields, final_doc}

-- A key that the source does not have keeps its value.
lookup-assign_absent :
    (k : String) (target source : DatabaseDocument)
    → lookup k source ≡ none
    → lookup k (assign target source) ≡ lookup k target
unfolding assign lookup
lookup-assign_absent k target [] h = refl
lookup-assign_absent k target ((j, v) ∷ source) h =
    lookup-assign_absent k (insert j v target) source (ground arith)
    ∙ ground (arith, lookup-insert j k v target, eq_iff j k)

module _ (permissions : Permissions) (couch : Couch) (audit : AuditService) (lodash : Lodash) where
  open permissions use {Ability, permitted_fields_of}

  -- lodash's `pick` at plain field names: the fields that are named, as they are.
  abbrev pub PicksFields : List String → Type 0
  PicksFields fields =
      (doc : DatabaseDocument) (k : String)
      → lookup k (lodash.pick doc fields) ≡ (if contains fields k then lookup k doc else none)

  apply_fields-forbidden :
      (fields : List String) (if_match : Option String) (old new : DatabaseDocument) (k : String)
      → fields ≢ []
      → PicksFields fields
      → contains fields k ≡ false
      → lookup k (apply_fields permissions couch audit lodash fields if_match old new)
        ≡ lookup k old
  unfolding apply_fields
  apply_fields-forbidden [] if_match old new k restricted picks h = absurd (restricted refl)
  apply_fields-forbidden (f ∷ fs) if_match old new k restricted picks h =
      lookup-assign_absent k old (lodash.pick new (f ∷ fs)) (ground (arith, picks new k))

  module _ (ability : Ability) (if_match : Option String) (old new : DatabaseDocument)
      (restricted : permitted_fields_of ability Action.update old ≢ [])
      (picks : PicksFields (permitted_fields_of ability Action.update old)) where
    abbrev fields : List String
    fields = permitted_fields_of ability Action.update old

    -- With a `pick` that keeps the named fields alone, a user whose permission names fields changes no
    -- other field of the stored document.
    pub final_doc-forbidden :
        (k : String)
        → contains fields k ≡ false
        → lookup k (final_doc permissions couch audit lodash ability if_match old new)
          ≡ lookup k old
    final_doc-forbidden k h = apply_fields-forbidden fields if_match old new k restricted picks h
