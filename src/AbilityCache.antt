-- ===== src/AbilityCache.antt =====
-- The cache of abilities of src/permissions/permission/permission.service.ts.
pub mod Entries
pub mod Current
pub mod Bounded
mod Tests
use replication_backend.Prelude.{
  ℕ, String, Bool, Option, none, some, List, [], ◌∷◌, Dict, lookup, insert, length, leb, eqb,
  if◌then◌else◌,
}
use replication_backend.Json.{Json}
use replication_backend.Effects.{Result, ok, throw, result_then}
use replication_backend.Casl.{Casl, Lodash, UserInfo}
use replication_backend.RulesConfig.{RulesConfig}
use replication_backend.Rules.{RulesState, get_rules_for_user}
use replication_backend.Rules.Updates.{Event, apply_event}
use replication_backend.Permission.{detect_document_type}

abbrev pub ability_cache_max_entries : ℕ
ability_cache_max_entries = 1000

-- `abilityCacheKey`, with JSON.stringify
unfoldable pub ability_cache_key : (UserInfo → String) → Option UserInfo → String
ability_cache_key stringify_user none = "anonymous"
ability_cache_key stringify_user (some user) = stringify_user user

-- JSON.stringify on users and on configurations, and the database of the permission document.
pub record Texts : Type 0 where
  pub of_user : UserInfo → String
  pub of_config : RulesConfig → String
  pub db : String

module _ (casl : Casl) (lodash : Lodash) (texts : Texts) where
  open casl use {Ability, create_ability}

  -- The rules in force, and the cache.
  pub record Abilities : Type 0 where
    pub rules : RulesState
    pub ability_cache : Dict Ability

  -- An ability as it is built where none is cached.
  unfoldable pub build_ability : Option RulesConfig → Option UserInfo → Result Ability
  build_ability config user =
      result_then (get_rules_for_user lodash config user)
        λ rules. ok (create_ability rules detect_document_type)

  -- The wholesale eviction
  abbrev pub make_room : Dict Ability → Dict Ability
  make_room cache = if leb ability_cache_max_entries (length cache) then [] else cache

  unfoldable pub get_ability_for : Option UserInfo → Abilities → Result Ability × Abilities
  get_ability_for user s =
      let key : String = ability_cache_key texts.of_user user in
      elim (lookup key s.ability_cache) [
        | some ability ↦ (ok ability, s)
        | none ↦ elim (build_ability s.rules.permission user) [
          | throw e ↦ (throw e, s)
          | ok ability ↦ (
            ok ability,
            record s { ability_cache = insert key ability (make_room s.ability_cache) },
          )
        ]
      ]

  -- An update of the rules; `permissionsChanged$` clears the cache.
  unfoldable pub update_rules : Event → Abilities → Abilities
  update_rules event s =
      let rules : RulesState = apply_event texts.of_config texts.db event s.rules in
      record {
        rules = rules;
        ability_cache =
            if eqb (length rules.changes_announced) (length s.rules.changes_announced)
            then s.ability_cache
            else [];
      }
