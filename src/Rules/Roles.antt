-- ===== src/Rules/Roles.antt =====
-- Which rules a role brings, after `getRulesForUser` of src/permissions/rules/rules.service.ts.
use replication_backend.Prelude.{
  String, not, some, List, [], ◌∷◌, ◌++◌, filter, flat_map, lookup, starts_with, contains, ◌≡◌,
  refl, ap, sym, arith, inl, inr, Bool-cases,
}
use replication_backend.Json.{Json, arr, of_list}
use replication_backend.Effects.{ok}
use replication_backend.Casl.{UserInfo, Lodash}
use replication_backend.Rules.Variables.{IsPlain, inject_user_variables-IsPlain}
use replication_backend.RulesConfig.{
  RulesConfig, default_section_key, reserved_role_prefix, reserved_rule_config_keys,
}
use replication_backend.Rules.{
  is_reserved, is_resolvable, section_rules, role_rules, default_rules, get_rules_for_user,
}

resolvable_unreserved :
    (config : RulesConfig) (roles : List String)
    → filter (is_resolvable config) (filter (λ role. not (is_reserved role)) roles)
      ≡ filter (is_resolvable config) roles
resolvable_unreserved config [] = refl
resolvable_unreserved config (role ∷ roles) =
    elim (Bool-cases (starts_with role reserved_role_prefix)) [
      | inl p ↦ ground (arith, p, resolvable_unreserved config roles)
      | inr p ↦ elim (Bool-cases (contains reserved_rule_config_keys role)) [
        | inl q ↦ ground (arith, p, q, resolvable_unreserved config roles)
        | inr q ↦ ground (arith, p, q, resolvable_unreserved config roles)
      ]
    ]

-- A role with a reserved name brings no rules, whatever the configuration holds under it.
pub role_rules-unreserved :
    (config : RulesConfig) (roles : List String)
    → role_rules config roles ≡ role_rules config (filter (λ role. not (is_reserved role)) roles)
unfolding role_rules
role_rules-unreserved config roles =
    ap (flat_map (section_rules config)) (sym (resolvable_unreserved config roles))

-- A user gets the default rules, and then, role by role, the rules of the sections that are named by
-- the roles without a reserved name, as they are where they hold no variables.
pub get_rules_for_user-IsPlain :
    (lodash : Lodash) (config : RulesConfig) (user : UserInfo) (defaults : List Json)
    → default_rules (lookup default_section_key config) ≡ ok defaults
    → IsPlain (arr (of_list (defaults ++ role_rules config user.roles)))
    → get_rules_for_user lodash (some config) (some user)
      ≡ ok (
          arr (
            of_list
              (defaults ++ role_rules config (filter (λ role. not (is_reserved role)) user.roles))))
unfolding get_rules_for_user role_rules
get_rules_for_user-IsPlain lodash config user defaults h plain =
    rw (h, get_rules_for_user)
      (rw (← role_rules-unreserved config user.roles) (
        ap ok (
          inject_user_variables-IsPlain lodash user
            (arr (of_list (defaults ++ role_rules config user.roles))) plain)))
