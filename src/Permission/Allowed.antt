-- ===== src/Permission/Allowed.antt =====
-- What `isAllowedTo` of src/permissions/permission/permission.service.ts answers.
use replication_backend.Prelude.{
  String, Bool, false, Option, [], ◌∷◌, ◌==◌, or_else, if◌then◌else◌, arith, ◌≡◌, inl, inr,
  Bool-cases, refl, ◌||◌,
}
use replication_backend.Json.{DatabaseDocument, id_of}
use replication_backend.Effects.{Result, ok, throw, Result-cases}
use replication_backend.Couch.{Couch, World, Request, get}
use replication_backend.Casl.{Permissions, Action, create, update, document, UserInfo}
use replication_backend.Permission.{is_allowed_to, decide, fetch_or_none, attachments_db, is_read}

module _ (permissions : Permissions) (couch : Couch) where
  open permissions use {Ability, ability_for, can}

  -- What CASL grants for an attachment of an entity: to read it, or any change to one who may create
  -- or update the entity; nothing where the entity is not there.
  abbrev pub grants : Ability → Action → Result DatabaseDocument → Bool
  grants ability action (throw e) = false
  grants ability action (ok entity) =
      if is_read action
      then can ability action (document entity)
      else can ability create (document entity) || can ability update (document entity)

  abbrev pub entity_request : DatabaseDocument → Request
  entity_request doc = get "app" (or_else (id_of doc) "") []

  abbrev pub check_answer :
      Action → DatabaseDocument → String → World → Result Ability → Result Bool × World
  check_answer action doc db w (throw e) = (throw e, w)
  check_answer action doc db w (ok ability) =
      if db == attachments_db
      then (let sent = entity_request doc ∷ w.sent in
          (ok (grants ability action (couch.document sent)), record w { sent = sent }))
      else (ok (can ability action (document doc)), w)

  pub is_allowed_to-answer :
      (action : Action) (doc : DatabaseDocument) (user : Option UserInfo) (db : String) (w : World)
      → is_allowed_to permissions couch action doc user db w
        ≡ check_answer action doc db w (ability_for user)
  unfolding is_allowed_to decide fetch_or_none
  is_allowed_to-answer action doc user db w = elim (Result-cases (ability_for user)) [
    | inr (x, a) ↦ ground (arith, a)
    | inl (ability, a) ↦ elim (Bool-cases (db == attachments_db)) [
      | inl e ↦ elim (Result-cases (couch.document (entity_request doc ∷ w.sent))) [
        | inl (entity, r) ↦ ground (arith, a, e, r)
        | inr (error, r) ↦ ground (arith, a, e, r)
      ]
      | inr e ↦ rw (a, e) refl
    ]
  ]
