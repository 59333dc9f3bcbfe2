-- ===== src/RulesConfig.antt =====
-- The permission document: src/permissions/rules/permission.ts, default-permissions.ts,
-- permission-config.validator.ts, and `normalizeSectionKeys` of rules.service.ts.
pub mod Normalized
pub mod Managed
mod Tests
use replication_backend.Prelude.{
  String, Bool, true, false, not, ◌&&◌, Option, none, some, List, [], ◌∷◌, ◌++◌, ◌&◌, Dict, lookup,
  insert, remove, filter, any, includes, is_some, or_else, map, if◌then◌else◌,
}
use replication_backend.Json.{
  Json, null, str, obj, arr, Items, nil, cons, Fields, end, field, elems, of_list, entries,
  non_null, text_of,
}
use replication_backend.Effects.{Error, other_error, Result, ok, throw}
use replication_backend.Casl.{Lodash}

abbrev pub admin_app_role : String
admin_app_role = "admin_app"

abbrev pub default_section_key : String
default_section_key = "_default"

abbrev pub public_section_key : String
public_section_key = "_public"

abbrev pub legacy_default_key : String
legacy_default_key = "default"

abbrev pub legacy_public_key : String
legacy_public_key = "public"

-- `LEGACY_SECTION_KEYS`: legacy key, current key
abbrev pub legacy_section_keys : Dict String
legacy_section_keys =
    (legacy_default_key, default_section_key) ∷ (legacy_public_key, public_section_key) ∷ []

abbrev pub reserved_role_prefix : String
reserved_role_prefix = "_"

abbrev pub reserved_rule_config_keys : List String
reserved_rule_config_keys =
    default_section_key ∷ public_section_key ∷ legacy_default_key ∷ legacy_public_key ∷ []

-- `type RulesConfig`: a section of rules for each role. The sections are not validated.
abbrev pub RulesConfig : Type 0
RulesConfig = Dict Json

-- `Permission.DOC_ID`
abbrev pub permission_doc_id : String
permission_doc_id = "Config:Permissions"

-- `isValidRulesConfig`, with the object that it accepts
unfoldable pub valid_rules_config : Option Json → Option RulesConfig
valid_rules_config (some (obj fs)) = some (entries fs)
valid_rules_config _ = none

unfoldable pub has_role : RulesConfig → String → Bool
has_role config role = is_some (lookup role config)

-- One round of the loop in `normalizeSectionKeys`.
unfoldable pub move_section : String → String → RulesConfig → RulesConfig
move_section legacy current config = elim (lookup legacy config) [
  | none ↦ config
  | some old ↦
      remove legacy (insert current (or_else (non_null (lookup current config)) old) config)
]

-- The legacy keys that are present, in order; a key that is not leaves the configuration as it is.
unfoldable pub normalize_section_keys : RulesConfig → RulesConfig
unfolding move_section
normalize_section_keys config =
    move_section legacy_public_key public_section_key
      (move_section legacy_default_key default_section_key config)

-- `bootstrapPermissions()`
abbrev pub manage_all : Json
manage_all = obj (field "action" (str "manage") (field "subject" (str "all") end))

abbrev pub bootstrap_permissions : RulesConfig
bootstrap_permissions = (admin_app_role, arr (cons manage_all nil)) ∷ []

-- `SYSTEM_DEFAULT_MARKER` and `MANAGED_DEFAULT_RULES`
abbrev pub system_default_marker : String
system_default_marker = "[system-default]"

abbrev pub managed_default_rules : List Json
managed_default_rules =
    obj (
      field "action" (str "read") (
        field "subject" (str "Config") (
          field "conditions"
            (obj (
              field "_id"
                (obj (
                  field "$in"
                    (arr (
                      cons (str "Config:CONFIG_ENTITY") (
                        cons (str "Config:Permissions")
                          (cons (str "Config:NotificationConfigTemplate") nil))))
                    end))
                end))
            (field "reason" (str "[system-default] core config read access") end))))
    ∷ obj (
        field "action" (str "read") (
          field "subject" (str "SiteSettings")
            (field "reason" (str "[system-default] site settings read access") end)))
    ∷ obj (
        field "action" (str "manage") (
          field "subject" (str "NotificationConfig") (
            field "conditions" (obj (field "userId" (str "${user.id}") end))
              (field "reason" (str "[system-default] manage own notification config") end))))
    ∷ obj (
        field "action" (str "manage") (
          field "subject" (str "NotificationEvent")
            (field "reason" (str "[system-default] manage own notification events") end)))
    ∷ []

-- `rule.reason`
abbrev pub reason_of : Json → Option Json
reason_of (obj fs) = lookup "reason" (entries fs)
reason_of _ = none

-- `typeof rule.reason === 'string' && rule.reason.includes(SYSTEM_DEFAULT_MARKER)`
abbrev pub marked_reason : Option String → Bool
marked_reason none = false
marked_reason (some reason) = includes reason system_default_marker

abbrev pub has_marker : Json → Bool
has_marker rule = marked_reason (text_of (reason_of rule))

-- `Array.isArray(currentDefault) ? currentDefault : []`
abbrev pub rules_in : Option Json → List Json
rules_in (some (arr rules)) = elems rules
rules_in _ = []

pub record Merged : Type 0 where
  pub merged : List Json
  pub changed : Bool
  pub dropped : List Json

abbrev pub is_null : Json → Bool
is_null null = true
is_null _ = false

-- The `TypeError` of `rule.reason` where a rule is null
abbrev pub null_rule : Error
null_rule = other_error "Cannot read properties of null (reading 'reason')"

module _ (lodash : Lodash) where
  -- The merge of rules that are not null; `isEqual(merged, currentDefault)`, where a missing section is `[]`
  unfoldable pub merge_rules : Option Json → Merged
  merge_rules current_default =
      let current = rules_in current_default in
      let merged = managed_default_rules ++ filter (λ rule. not (has_marker rule)) current in
      record {
        merged = merged;
        changed = not (lodash.is_equal (arr (of_list merged)) (or_else current_default (arr nil)));
        dropped =
            filter
              (λ rule. not (any (λ managed. lodash.is_equal managed rule) managed_default_rules))
              (filter has_marker current);
      }

  unfoldable pub merge_managed_defaults : Option Json → Result Merged
  merge_managed_defaults current_default =
      if any is_null (rules_in current_default)
      then throw null_rule
      else ok (merge_rules current_default)
