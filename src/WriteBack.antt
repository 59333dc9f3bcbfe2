-- ===== src/WriteBack.antt =====
-- The write-back of the managed rules: `ensureManagedDefaults` and `writeManagedDefaults` of
-- src/permissions/rules/rules.service.ts.
pub mod Settles
pub mod Bounds
mod Tests
use replication_backend.Prelude.{
  ℕ, zero, suc, String, Bool, true, false, not, ◌&&◌, Option, none, some, List, [], ◌∷◌, eqb, Dict,
  lookup, insert, remove, is_some, if◌then◌else◌,
}
use replication_backend.Json.{Json, arr, obj, of_list, of_entries, DatabaseDocument, non_null}
use replication_backend.Effects.{
  Error, http_exception, Result, ok, throw, Io, pure, lift, raise, catch, ◌>>=◌, ◌>>◌,
}
use replication_backend.Couch.{Couch, World, get, put, send}
use replication_backend.Casl.{Lodash}
use replication_backend.RulesConfig.{
  RulesConfig, Merged, merge_managed_defaults, valid_rules_config, default_section_key,
  legacy_default_key, permission_doc_id,
}

pub data Outcome : Type 0 where
  done conflict : Outcome

-- `doc.data[DEFAULT_SECTION_KEY] ?? doc.data[LEGACY_DEFAULT_KEY]`
abbrev pub current_default : RulesConfig → Option Json
current_default config = elim (non_null (lookup default_section_key config)) [
  | some rules ↦ some rules
  | none ↦ lookup legacy_default_key config
]

-- `newData`
unfoldable pub new_data : List Json → RulesConfig → RulesConfig
new_data merged config =
    remove legacy_default_key (insert default_section_key (arr (of_list merged)) config)

-- `{ ...doc, data: newData }`
abbrev pub with_data : RulesConfig → DatabaseDocument → DatabaseDocument
with_data config doc = insert "data" (obj (of_entries config)) doc

-- `error instanceof HttpException && error.getStatus() === HttpStatus.CONFLICT`
abbrev pub is_conflict : Error → Bool
is_conflict (http_exception status text) = eqb status 409
is_conflict _ = false

module _ (lodash : Lodash) (couch : Couch) (db : String) where
  -- The PUT of one attempt: a conflict is an outcome, unless it is the last attempt.
  abbrev pub try_put : DatabaseDocument → Bool → Io World Outcome
  try_put doc is_last_attempt =
      catch (do send (put db doc) couch.stored; pure done)
        (λ e. if is_conflict e && not is_last_attempt then pure conflict else raise e)

  abbrev pub is_settled : Merged → RulesConfig → Bool
  is_settled merge config = not merge.changed && not (is_some (lookup legacy_default_key config))

  -- `writeManagedDefaults`, once the data is known to be a configuration
  unfoldable pub write_config : RulesConfig → DatabaseDocument → Bool → Io World Outcome
  write_config config doc is_last_attempt = do
    merge ← lift (merge_managed_defaults lodash (current_default config))
    if is_settled merge config
        then pure done
        else try_put (with_data (new_data merge.merged config) doc) is_last_attempt

  unfoldable pub write_managed_defaults : DatabaseDocument → Bool → Io World Outcome
  write_managed_defaults doc is_last_attempt = elim (valid_rules_config (lookup "data" doc)) [
    | none ↦ pure done
    | some config ↦ write_config config doc is_last_attempt
  ]

  -- The loop, by the number of attempts that are left.
  unfoldable pub attempts : ℕ → DatabaseDocument → Io World (Unit {0})
  attempts zero doc w = pure tt w
  attempts (suc n) doc w =
      let (outcome, w') = write_managed_defaults doc (eqb n 0) w in
      elim outcome [
        | throw e ↦ (throw e, w')
        | ok done ↦ (ok tt, w')
        | ok conflict ↦
            let (fresh, w'') = send (get db permission_doc_id []) couch.document w' in
            elim fresh [ throw e ↦ (throw e, w'') | ok doc' ↦ attempts n doc' w'' ]
      ]

  unfoldable pub ensure_managed_defaults : DatabaseDocument → Io World (Unit {0})
  ensure_managed_defaults doc = catch (attempts 3 doc) (λ e. pure tt)
