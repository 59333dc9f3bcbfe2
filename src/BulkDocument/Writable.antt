-- ===== src/BulkDocument/Writable.antt =====
-- Which documents of a bulk write go through (`filterDocs` and `hasPermissionsForDoc` of
-- bulk-document.service.ts).
use replication_backend.Prelude.{
  ◌+◌, String, Bool, true, false, ◌&&◌, Option, none, some, List, [], ◌∷◌, filter, Dict, lookup,
  length, Memᴰ, mem-filter, ◌≡◌, refl, ◌↔◌, arith, inl, inr, Bool-cases, Option-cases,
}
use replication_backend.Json.{DatabaseDocument, id_of, is_deleted, non_empty}
use replication_backend.Effects.{ok}
use replication_backend.Couch.{BulkDocsRequest}
use replication_backend.Casl.{Permissions, create, update, delete, document, UserInfo}
use replication_backend.DocumentFilter.{DocumentFilter, is_replicable}
use replication_backend.BulkDocument.{has_permissions_for_doc, split_docs, filter_docs}

module _ (permissions : Permissions) (filter_of : DocumentFilter) where
  open permissions use {Ability, ability_for, can}

  -- A user may write `doc`, given the stored documents: the three ways in which that can be so.
  pub data MayWrite (ability : Ability) (existing : Dict DatabaseDocument) (doc : DatabaseDocument)
      : Type 0 where
    creates :
        (id : String)
        → non_empty (id_of doc) ≡ some id
        → is_replicable filter_of id ≡ true
        → lookup id existing ≡ none
        → can ability create (document doc) ≡ true
        → MayWrite ability existing doc
    updates :
        (id : String) (old : DatabaseDocument)
        → non_empty (id_of doc) ≡ some id
        → is_replicable filter_of id ≡ true
        → lookup id existing ≡ some old
        → is_deleted doc ≡ false
        → can ability update (document old) ≡ true
        → MayWrite ability existing doc
    deletes :
        (id : String) (old : DatabaseDocument)
        → non_empty (id_of doc) ≡ some id
        → is_replicable filter_of id ≡ true
        → lookup id existing ≡ some old
        → is_deleted doc ≡ true
        → can ability delete (document old) ≡ true
        → MayWrite ability existing doc

  -- The document has an id that is replicated at all.
  abbrev pub is_candidate : DatabaseDocument → Bool
  is_candidate doc = elim (non_empty (id_of doc)) [
    | none ↦ false
    | some id ↦ is_replicable filter_of id
  ]

  abbrev pub is_permitted : Ability → Dict DatabaseDocument → DatabaseDocument → Bool
  is_permitted ability existing doc = elim (non_empty (id_of doc)) [
    | none ↦ false
    | some id ↦
        is_replicable filter_of id
        && has_permissions_for_doc permissions filter_of doc (lookup id existing) ability
  ]

  -- The loop is a filter: order and repetitions stay.
  pub split_docs-filter :
      (ability : Ability) (existing : Dict DatabaseDocument) (docs : List DatabaseDocument)
      → (split_docs permissions filter_of ability existing docs).0
        ≡ filter (is_permitted ability existing) docs
  unfolding split_docs
  split_docs-filter ability existing [] = refl
  split_docs-filter ability existing (doc ∷ docs) =
      ground (arith, split_docs-filter ability existing docs)

  -- Each candidate is either written or named in the log as denied.
  pub split_docs_total :
      (ability : Ability) (existing : Dict DatabaseDocument) (docs : List DatabaseDocument)
      → length (split_docs permissions filter_of ability existing docs).0
          + length (split_docs permissions filter_of ability existing docs).1
        ≡ length (filter is_candidate docs)
  unfolding split_docs
  split_docs_total ability existing [] = omega arith
  split_docs_total ability existing (doc ∷ docs) =
      ground (arith, split_docs_total ability existing docs)

  module _ (ability : Ability) (existing : Dict DatabaseDocument) (doc : DatabaseDocument) where
    MayWrite-of_permission :
        (id : String) (old : Option DatabaseDocument)
        → non_empty (id_of doc) ≡ some id
        → is_replicable filter_of id ≡ true
        → lookup id existing ≡ old
        → has_permissions_for_doc permissions filter_of doc old ability ≡ true
        → MayWrite ability existing doc
    unfolding has_permissions_for_doc
    MayWrite-of_permission id none named kept stored h = creates id named kept stored h
    MayWrite-of_permission id (some old) named kept stored h = elim (Bool-cases (is_deleted doc)) [
      | inl gone ↦ deletes id old named kept stored gone (ground (arith, gone))
      | inr here ↦ updates id old named kept stored here (ground (arith, here))
    ]

    MayWrite-of_permitted : is_permitted ability existing doc ≡ true → MayWrite ability existing doc
    MayWrite-of_permitted h = elim (Option-cases (non_empty (id_of doc))) [
      | inl e ↦ absurd (ground (arith, e))
      | inr (id, e) ↦
          MayWrite-of_permission id (lookup id existing) e (ground (arith, e)) refl
            (ground (arith, e))
    ]

    permitted_of_MayWrite : MayWrite ability existing doc → is_permitted ability existing doc ≡ true
    unfolding has_permissions_for_doc
    permitted_of_MayWrite (creates id named kept stored h) = ground arith
    permitted_of_MayWrite (updates id old named kept stored here h) = ground arith
    permitted_of_MayWrite (deletes id old named kept stored gone h) = ground arith

  -- Where the ability of the user is built: a bulk write goes on, and a document is sent on to
  -- CouchDB exactly when it was submitted, has an id that is replicated, and the user may create it,
  -- if nothing is stored under its id, and otherwise update or delete what is stored.
  pub mem-filter_docs :
      (request : BulkDocsRequest) (user : Option UserInfo) (existing : Dict DatabaseDocument)
      (ability : Ability)
      → ability_for user ≡ ok ability
      → (filtered : BulkDocsRequest) × (filter_docs permissions filter_of request user existing
          ≡ ok filtered)
        × ((doc : DatabaseDocument)
            → Memᴰ doc filtered.docs ↔ (Memᴰ doc request.docs × MayWrite ability existing doc))
  unfolding filter_docs
  mem-filter_docs request user existing ability built =
      let docs = (split_docs permissions filter_of ability existing request.docs).0 in
      (
        record request { docs = docs },
        rw built refl,
        λ doc.
            let kept = mem-filter (is_permitted ability existing) request.docs doc in
            rw (split_docs-filter ability existing request.docs) (
              λ m. ((kept.0 m).0, MayWrite-of_permitted ability existing doc (kept.0 m).1),
              λ m. kept.1 (m.0, permitted_of_MayWrite ability existing doc m.1),
            ),
      )

  -- Where a document is stored, what a client submits for it does not enter the decision: of two
  -- documents with its id, both deletions or neither, a user may write both or none.
  pub stored_document_decides :
      (ability : Ability) (existing : Dict DatabaseDocument) (a b old : DatabaseDocument)
      (id : String)
      → id_of a ≡ some id
      → id_of b ≡ some id
      → is_deleted a ≡ is_deleted b
      → lookup id existing ≡ some old
      → MayWrite ability existing a
      → MayWrite ability existing b
  unfolding has_permissions_for_doc
  stored_document_decides ability existing a b old id ha hb hd hs may =
      MayWrite-of_permitted ability existing b
        (ground (arith, permitted_of_MayWrite ability existing a may))
