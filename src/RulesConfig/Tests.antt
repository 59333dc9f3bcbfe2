-- ===== src/RulesConfig/Tests.antt =====
-- Tests of the permission document.
use replication_backend.Prelude.{refl, some, [], ◌∷◌, ◌++◌, filter, lookup, ◌≡◌}
use replication_backend.Json.{Json, arr, cons, nil}
use replication_backend.RulesConfig.{
  Merged, merge_managed_defaults, RulesConfig, normalize_section_keys, manage_all,
  managed_default_rules, rules_in,
}
use replication_backend.RulesConfig.Normalized.{normalized_value, lookup-normalize_section_keys}
use replication_backend.RulesConfig.Managed.{is_admin_rule, merge_keeps_admin_rules}
use replication_backend.Effects.{ok}
use replication_backend.Fixtures.{by_name}

abbrev legacy : RulesConfig
legacy = ("public", arr nil) ∷ ("default", arr (cons manage_all nil)) ∷ ("_public", arr nil) ∷ []

lookup-normalize_section_keys_example :
    lookup "_default" (normalize_section_keys legacy) ≡ normalized_value legacy "_default"
lookup-normalize_section_keys_example = lookup-normalize_section_keys legacy "_default"

abbrev written_by_admin : Json
written_by_admin = arr (cons manage_all nil)

merge_keeps_admin_rules_example :
    (m : Merged) × (merge_managed_defaults by_name (some written_by_admin) ≡ ok m)
    × (m.merged ≡ managed_default_rules ++ filter is_admin_rule (rules_in (some written_by_admin)))
    × (filter is_admin_rule m.merged ≡ filter is_admin_rule (rules_in (some written_by_admin)))
    × (filter is_admin_rule m.dropped ≡ [])
merge_keeps_admin_rules_example = merge_keeps_admin_rules by_name (some written_by_admin) refl
