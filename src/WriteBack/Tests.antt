-- ===== src/WriteBack/Tests.antt =====
-- Tests of the write-back.
use replication_backend.Prelude.{false, [], ◌∷◌, ◌+◌, ◌≤◌, length, lookup, ◌≡◌, refl}
use replication_backend.Json.{DatabaseDocument, str, arr, obj, cons, nil, field, end}
use replication_backend.Effects.{ok}
use replication_backend.RulesConfig.{
  RulesConfig, Merged, merge_rules, merge_managed_defaults, manage_all,
}
use replication_backend.WriteBack.{
  done, current_default, new_data, with_data, write_managed_defaults, ensure_managed_defaults,
}
use replication_backend.WriteBack.Bounds.{ensure_managed_defaults-bound}
use replication_backend.WriteBack.Settles.{write_back_settles}
use replication_backend.Fixtures.{one_child, start}
use replication_backend.Fixtures.Equality.{structural, equal_self}

abbrev legacy_config : RulesConfig
legacy_config = ("default", arr (cons manage_all nil)) ∷ []

abbrev permission_doc : DatabaseDocument
permission_doc =
    ("_id", str "Config:Permissions")
    ∷ ("data", obj (field "default" (arr (cons manage_all nil)) end))
    ∷ []

ensure_managed_defaults-bound_example :
    ((ensure_managed_defaults structural one_child "app" permission_doc start).0 ≡ ok tt)
    × (length (ensure_managed_defaults structural one_child "app" permission_doc start).1.sent
        ≤ length start.sent + 6)
ensure_managed_defaults-bound_example =
    ensure_managed_defaults-bound structural one_child "app" permission_doc start

abbrev merged_legacy : Merged
merged_legacy = merge_rules structural (current_default legacy_config)

legacy_merges : merge_managed_defaults structural (current_default legacy_config) ≡ ok merged_legacy
unfolding merge_managed_defaults lookup
legacy_merges = refl

write_back_settles_example :
    write_managed_defaults structural one_child "app"
      (with_data (new_data merged_legacy.merged legacy_config) permission_doc)
      false
      start
    ≡ (ok done, start)
write_back_settles_example =
    write_back_settles structural one_child "app" equal_self legacy_config merged_legacy
      permission_doc false start legacy_merges
