-- ===== src/Casl.antt =====
-- The libraries outside the program, as interfaces: CASL (`@casl/ability`) and lodash, and the user.
use replication_backend.Prelude.{String, Bool, Option, List}
use replication_backend.Json.{Json, DatabaseDocument}
use replication_backend.Effects.{Result}

-- `type Action`
pub data Action : Type 0 where
  read create update delete manage : Action

-- What `ability.can` is asked about: a document, or a subject type by its name.
pub data Subject : Type 0 where
  document : DatabaseDocument → Subject
  type_name : String → Subject

-- `createMongoAbility(rules, { detectSubjectType })`, `ability.can(action, subject)` and
-- `permittedFieldsOf(ability, action, doc, { fieldsFrom: (rule) => rule.fields || [] })`.
-- Rules are JSON, as they come out of the permission document.
pub record Casl : Type 1 where
  pub Ability : Type 0
  pub create_ability : Json → (DatabaseDocument → Result String) → Ability
  pub can : Ability → Action → Subject → Bool
  pub permitted_fields_of : Ability → Action → DatabaseDocument → List String

-- `class UserInfo`; an anonymous request has no user
pub record UserInfo : Type 0 where
  pub id : String
  pub name : String
  pub roles : List String
  pub projects : List String

-- lodash: `isEqual`, `has`, `get`, `pick` and `omit`
pub record Lodash : Type 0 where
  pub is_equal : Json → Json → Bool
  pub has : Json → String → Bool
  pub get : Json → String → Option Json
  pub pick : DatabaseDocument → List String → DatabaseDocument
  pub omit : DatabaseDocument → List String → DatabaseDocument

-- What an endpoint sees of `PermissionService` and CASL: the ability of a user under the
-- permissions in force, or the exception of building it, and the questions that it answers.
pub record Permissions : Type 1 where
  pub Ability : Type 0
  pub ability_for : Option UserInfo → Result Ability
  pub can : Ability → Action → Subject → Bool
  pub permitted_fields_of : Ability → Action → DatabaseDocument → List String
