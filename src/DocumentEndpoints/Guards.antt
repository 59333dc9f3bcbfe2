-- ===== src/DocumentEndpoints/Guards.antt =====
-- The checks in front of documents and attachments.
use replication_backend.Prelude.{
  String, Bool, Option, none, some, List, ◌∷◌, Dict, ◌==◌, ◌≡◌, arith, inl, inr, Bool-cases,
  if◌then◌else◌,
}
use replication_backend.Json.{Json, DatabaseDocument}
use replication_backend.Effects.{Error, Result, ok, throw, Result-cases}
use replication_backend.Casl.{Permissions, Action, read, document, UserInfo}
use replication_backend.Couch.{World, Request, Couch, get}
use replication_backend.Permission.{is_allowed_to, attachments_db}
use replication_backend.Permission.Allowed.{grants, entity_request, is_allowed_to-answer}
use replication_backend.DocumentWrite.{unauthorized}
use replication_backend.DocumentEndpoints.{forbidden, get_document}

module _ (permissions : Permissions) (couch : Couch) where
  open permissions use {Ability, ability_for, can}

  -- What the permission check answers about a document after the given requests, once the ability of
  -- the user is built.
  abbrev pub granted : Ability → Action → String → DatabaseDocument → List Request → Bool
  granted ability action db doc sent =
      if db == attachments_db
      then grants permissions couch ability action
          (couch.document (entity_request permissions couch doc ∷ sent))
      else can ability action (document doc)

  checked :
      (action : Action) (doc : DatabaseDocument) (user : Option UserInfo) (db : String) (w : World)
      (ability : Ability)
      → ability_for user ≡ ok ability
      → (is_allowed_to permissions couch action doc user db w).0
        ≡ ok (granted ability action db doc w.sent)
  checked action doc user db w ability built =
      let answer = is_allowed_to-answer permissions couch action doc user db w in
      elim (Bool-cases (db == attachments_db)) [
        | inl e ↦ ground (arith, e, built, answer)
        | inr e ↦ ground (arith, e, built, answer)
      ]

  unchecked :
      (action : Action) (doc : DatabaseDocument) (user : Option UserInfo) (db : String) (w : World)
      (e : Error)
      → ability_for user ≡ throw e
      → is_allowed_to permissions couch action doc user db w ≡ (throw e, w)
  unchecked action doc user db w e failed =
      ground (arith, failed, is_allowed_to-answer permissions couch action doc user db w)

  abbrev pub refusal : Option UserInfo → Error
  refusal none = unauthorized
  refusal (some user) = forbidden

  -- The answer of the check in front of an attachment, by the entity that was read
  abbrev pub attachment_answer :
      Option UserInfo → Action → String → List Request → Result DatabaseDocument → Result (Unit {0})
  attachment_answer user action db sent (throw e) = throw e
  attachment_answer user action db sent (ok doc) = elim (ability_for user) [
    | throw e ↦ throw e
    | ok ability ↦ if granted ability action db doc sent then ok tt else throw (refusal user)
  ]

  -- A document is returned exactly if CouchDB has it, the ability of the user is built, and the
  -- permission check grants to read it; the answer is 401 if it does not.
  pub get_document-answer :
      (db doc_id : String) (user : Option UserInfo) (query_params : Dict Json) (w : World)
      → (get_document permissions couch db doc_id user query_params w).0
        ≡ (elim (couch.document (get db doc_id query_params ∷ w.sent)) [
          | throw e ↦ throw e
          | ok doc ↦ elim (ability_for user) [
            | throw e ↦ throw e
            | ok ability ↦
                if granted ability read db doc (get db doc_id query_params ∷ w.sent)
                then ok doc
                else throw unauthorized
          ]
        ])
  unfolding get_document
  get_document-answer db doc_id user query_params w =
      let sent = get db doc_id query_params ∷ w.sent in
      elim (Result-cases (couch.document sent)) [
        | inr (e, k) ↦ ground (arith, k)
        | inl (doc, k) ↦ elim (Result-cases (ability_for user)) [
          | inr (e, b) ↦
              ground (arith, k, b, unchecked read doc user db (record w { sent = sent }) e b)
          | inl (ability, b) ↦
              let c = checked read doc user db (record w { sent = sent }) ability b in
              elim (Bool-cases (granted ability read db doc sent)) [
                | inl g ↦ ground (arith, k, b, c, g)
                | inr g ↦ ground (arith, k, b, c, g)
              ]
        ]
      ]
