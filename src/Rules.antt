-- ===== src/Rules.antt =====
-- `getRulesForUser` of src/permissions/rules/rules.service.ts with the injection of user variables,
-- and the updates of the rules in force.
pub mod Roles
pub mod Variables
pub mod Updates
mod Tests
use Prim.Native.String
use replication_backend.Prelude.{
  ℕ, String, Bool, true, false, not, ◌&&◌, ◌||◌, Option, none, some, List, [], ◌∷◌, ◌++◌, ◌==◌, map,
  filter, flat_map, lookup, starts_with, contains, or_else, if◌then◌else◌,
}
use replication_backend.Json.{
  Json, null, bool, num, str, arr, obj, Items, nil, cons, Fields, end, field, elems, of_list,
  truthy, non_null,
}
use replication_backend.Effects.{Result, ok, throw, other_error}
use replication_backend.Casl.{UserInfo, Lodash}
use replication_backend.RulesConfig.{
  RulesConfig, default_section_key, public_section_key, reserved_role_prefix,
  reserved_rule_config_keys, has_role, normalize_section_keys, valid_rules_config,
  bootstrap_permissions,
}

-- `RulesService.USER_PROPERTY_UNDEFINED`
abbrev pub user_property_undefined : String
user_property_undefined = "__USER_PROPERTY_UNDEFINED__"

-- A role whose name never resolves to a section.
abbrev pub is_reserved : String → Bool
is_reserved role = starts_with role reserved_role_prefix || contains reserved_rule_config_keys role

abbrev pub is_resolvable : RulesConfig → String → Bool
is_resolvable config role =
    not (starts_with role reserved_role_prefix)
    && not (contains reserved_rule_config_keys role)
    && has_role config role

-- An element of the array that `.flat()` flattens.
abbrev pub flat_items : Json → List Json
flat_items (arr rules) = elems rules
flat_items section = section ∷ []

-- `this.permission[role]`, flattened
abbrev pub section_rules : RulesConfig → String → List Json
section_rules config role = elim (lookup role config) [
  | none ↦ []
  | some section ↦ flat_items section
]

unfoldable pub role_rules : RulesConfig → List String → List Json
role_rules config roles = flat_map (section_rules config) (filter (is_resolvable config) roles)

-- The characters that a spread of a text yields.
unfoldable pub characters : String → List Json
characters String.[] = []
characters (String.◌∷◌ c s) = str (String.◌∷◌ c String.[]) ∷ characters s

-- `if (defaultRules) userRules.unshift(...defaultRules)`: the rules put in front
unfoldable pub default_rules : Option Json → Result (List Json)
default_rules (some (arr rules)) = ok (elems rules)
default_rules (some (str s)) = ok (characters s)
default_rules section =
    if truthy section then throw (other_error "TypeError: not iterable") else ok []

-- `s.slice(2, -1)`, in characters
unfoldable pub drop_last : String → String
drop_last String.[] = String.[]
drop_last (String.◌∷◌ c s) =
    let rest = drop_last s in if s == "" then String.[] else String.◌∷◌ c rest

unfoldable pub variable_name : String → String
unfolding drop_last
variable_name (String.◌∷◌ a (String.◌∷◌ b name)) = drop_last name
variable_name _ = String.[]

-- `{ user }` as a JSON value
abbrev pub user_scope : UserInfo → Json
user_scope user = obj (
    field "user"
      (obj (
        field "id" (str user.id) (
          field "name" (str user.name) (
            field "roles" (arr (of_list (map str user.roles)))
              (field "projects" (arr (of_list (map str user.projects))) end)))))
      end)

module _ (lodash : Lodash) (user : UserInfo) where
  -- The value of a variable of the user.
  unfoldable pub variable : String → Json
  variable given =
      let name = if given == "user.entityId" then "user.name" else given in
      if not (lodash.has (user_scope user) name)
      then str user_property_undefined
      else or_else (lodash.get (user_scope user) name) (str user_property_undefined)

  -- The reviver on a text.
  abbrev pub revive : String → Json
  revive s = if starts_with s "$" then variable (variable_name s) else str s

  unfoldable mutual
    -- `JSON.parse(JSON.stringify(rules), reviver)`
    pub inject_user_variables : Json → Json
    inject_user_variables null = null
    inject_user_variables (bool b) = bool b
    inject_user_variables (num n) = num n
    inject_user_variables (str s) = revive s
    inject_user_variables (arr items) = arr (inject_items items)
    inject_user_variables (obj fields) = obj (inject_fields fields)

    pub inject_items : Items → Items
    inject_items nil = nil
    inject_items (cons v items) = cons (inject_user_variables v) (inject_items items)

    pub inject_fields : Fields → Fields
    inject_fields end = end
    inject_fields (field k v fields) = field k (inject_user_variables v) (inject_fields fields)

-- The rules for a user, or for an anonymous request, under the configuration in force.
unfoldable pub get_rules_for_user : Lodash → Option RulesConfig → Option UserInfo → Result Json
get_rules_for_user lodash none user = ok (arr nil)
get_rules_for_user lodash (some config) none =
    ok (or_else (non_null (lookup public_section_key config)) (arr nil))
get_rules_for_user lodash (some config) (some user) =
    elim (default_rules (lookup default_section_key config)) [
      | throw e ↦ throw e
      | ok defaults ↦ ok (
          inject_user_variables lodash user
            (arr (of_list (defaults ++ role_rules config user.roles))))
    ]

-- What the service keeps: the configuration in force, and for each real change of it the event
-- `permissionsChanged`, with the cleared identities and the scheduled `clearLocal` of the database.
pub record RulesState : Type 0 where
  pub permission : Option RulesConfig
  pub changes_announced : List String

-- `setPermission`
abbrev pub set_permission : RulesConfig → RulesState → RulesState
set_permission config s = record s { permission = some (normalize_section_keys config) }

module _ (stringify : RulesConfig → String) where
  -- `onPermissionsChanged`
  unfoldable pub on_permissions_changed :
      String → Option RulesConfig → RulesConfig → RulesState → RulesState
  on_permissions_changed db none new s = s
  on_permissions_changed db (some prev) new s =
      if stringify prev == stringify new
      then s
      else record s { changes_announced = db ∷ s.changes_announced }

  -- `applyUpdatedPermission`, up to the write-back that it starts, on the `data` of the document
  unfoldable pub apply_updated_permission : String → Option Json → RulesState → RulesState
  apply_updated_permission db given s = elim (valid_rules_config given) [
    | none ↦ s
    | some config ↦
        on_permissions_changed db s.permission (normalize_section_keys config)
          (set_permission config s)
  ]

  -- `applyPermissionDeletion`
  unfoldable pub apply_permission_deletion : String → RulesState → RulesState
  apply_permission_deletion db s =
      on_permissions_changed db s.permission bootstrap_permissions
        (set_permission bootstrap_permissions s)
