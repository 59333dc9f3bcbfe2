-- ===== src/DocumentWrite/Put.antt =====
-- `putDocument` of src/restricted-endpoints/document/document-write.service.ts: no write without
-- permission, and what a permitted one sends.
use replication_backend.Prelude.{
  String, Bool, false, Option, none, some, [], ◌∷◌, ◌==◌, ◌≡◌, arith, inl, inr, if◌then◌else◌,
}
use replication_backend.Json.{DatabaseDocument}
use replication_backend.Effects.{Error, Result, ok, throw, Result-cases}
use replication_backend.Couch.{Couch, World, DocResult, Request, get, put}
use replication_backend.Casl.{Permissions, Action, document, UserInfo, Lodash}
use replication_backend.Audit.{AuditEntry, AuditService}
use replication_backend.Permission.{fetch_or_none, is_allowed_to, decide, attachments_db}
use replication_backend.DocumentWrite.{
  unauthorized, final_doc, create_document, update_document, put_over, named, put_document,
  write_and_audit,
}

-- The stored document, as the reply to the first request tells.
abbrev pub found : Result DatabaseDocument → Option DatabaseDocument
found (ok doc) = some doc
found (throw e) = none

fetch_or_none-found :
    (couch : Couch) (db id : String) (w : World)
    → fetch_or_none couch db id w ≡ (
      ok (found (couch.document (get db id [] ∷ w.sent))),
      record w { sent = get db id [] ∷ w.sent },
    )
unfolding fetch_or_none
fetch_or_none-found couch db id w = elim (Result-cases (couch.document (get db id [] ∷ w.sent))) [
  | inl (doc, e) ↦ ground (arith, e)
  | inr (x, e) ↦ ground (arith, e)
]

module _ (permissions : Permissions) (couch : Couch) (audit : AuditService) (lodash : Lodash)
    (db : String) (plain : (db == attachments_db) ≡ false) where
  open permissions use {Ability, ability_for, can}

  pub is_allowed_to-plain :
      (action : Action) (doc : DatabaseDocument) (user : Option UserInfo) (w : World)
      (ability : Ability)
      → ability_for user ≡ ok ability
      → is_allowed_to permissions couch action doc user db w
        ≡ (ok (can ability action (document doc)), w)
  unfolding is_allowed_to decide
  is_allowed_to-plain action doc user w ability built = rw (built, plain)

  pub is_allowed_to-unbuilt :
      (action : Action) (doc : DatabaseDocument) (user : Option UserInfo) (w : World) (e : Error)
      → ability_for user ≡ throw e
      → is_allowed_to permissions couch action doc user db w ≡ (throw e, w)
  unfolding is_allowed_to
  is_allowed_to-unbuilt action doc user w e failed = rw failed

  -- The audit log does not change the answer.
  pub write_and_audit-reply :
      (q : Request) (entry_for : Option String → AuditEntry) (user : Option UserInfo) (w : World)
      → (write_and_audit permissions couch audit lodash db q entry_for user w).0
        ≡ couch.stored (q ∷ w.sent)
  unfolding write_and_audit
  write_and_audit-reply q entry_for user w = elim (Result-cases (couch.stored (q ∷ w.sent))) [
    | inr (x, e) ↦ ground (arith, e)
    | inl (result, e) ↦ ground (
      arith,
      e,
      audit.record_entries_ok db (entry_for result.rev ∷ []) user (record w { sent = q ∷ w.sent }),
    )
  ]

  -- What a PUT needs permission for, and what it writes, by the document stored under the id.
  abbrev pub may_put : Ability → DatabaseDocument → Option DatabaseDocument → Bool
  may_put ability doc none = can ability Action.create (document doc)
  may_put ability doc (some old) = can ability Action.update (document old)

  abbrev pub to_write :
      Ability → Option String → DatabaseDocument → Option DatabaseDocument → DatabaseDocument
  to_write ability if_match doc none = doc
  to_write ability if_match doc (some old) =
      final_doc permissions couch audit lodash ability if_match old doc

  -- What is answered about a document over what is stored, by the ability of the user.
  abbrev pub answer_over :
      DatabaseDocument
      → Option String
      → Option DatabaseDocument
      → World
      → Result Ability
      → Result DocResult
  answer_over doc if_match stored w (throw e) = throw e
  answer_over doc if_match stored w (ok ability) =
      if may_put ability doc stored
      then couch.stored (put db (to_write ability if_match doc stored) ∷ w.sent)
      else throw unauthorized

  put_over-denied :
      (doc : DatabaseDocument) (user : Option UserInfo) (if_match : Option String)
      (stored : Option DatabaseDocument) (w : World) (ability : Ability)
      → ability_for user ≡ ok ability
      → may_put ability doc stored ≡ false
      → put_over permissions couch audit lodash db doc user if_match stored w
        ≡ (throw unauthorized, w)
  unfolding create_document update_document
  put_over-denied doc user if_match none w ability built e =
      ground (arith, e, is_allowed_to-plain Action.create doc user w ability built)
  put_over-denied doc user if_match (some old) w ability built e =
      ground (arith, e, is_allowed_to-plain Action.update old user w ability built)

  module _ (doc_id : String) (doc : DatabaseDocument) (user : Option UserInfo)
      (if_match : Option String) (w : World) where
    abbrev pub lookup_request : Request
    lookup_request = get db doc_id []

    -- What the read of the stored document gives: nothing where it fails, for whatever reason.
    abbrev pub stored_doc : Option DatabaseDocument
    stored_doc = found (couch.document (lookup_request ∷ w.sent))

    abbrev pub put_reply : Result Ability → Result DocResult
    put_reply =
        answer_over (named permissions couch audit lodash doc_id doc) if_match stored_doc
          (record w { sent = lookup_request ∷ w.sent })

    -- Outside of `app-attachments`, a denied PUT has read the stored document, and has written and
    -- recorded nothing.
    pub put_document-denied :
        (ability : Ability)
        → ability_for user ≡ ok ability
        → may_put ability (named permissions couch audit lodash doc_id doc) stored_doc ≡ false
        → put_document permissions couch audit lodash db doc_id doc user if_match w
          ≡ (throw unauthorized, record w { sent = lookup_request ∷ w.sent })
    unfolding put_document
    put_document-denied ability built e = ground (
      arith,
      fetch_or_none-found couch db doc_id w,
      put_over-denied (named permissions couch audit lodash doc_id doc) user if_match stored_doc
          (record w { sent = lookup_request ∷ w.sent }) ability built e,
    )
