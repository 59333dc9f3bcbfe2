-- ===== src/WriteBack/Settles.antt =====
-- What the write-back wrote needs no further write.
use replication_backend.Prelude.{
  false, String, Bool, true, none, some, List, [], ◌∷◌, Dict, lookup, insert, lookup-insert,
  lookup-remove, ◌≡◌, refl, ap, ◌∙◌, arith, if◌then◌else◌, ◌==◌,
}
use replication_backend.Json.{Json, arr, obj, of_list, entries, of_entries, DatabaseDocument}
use replication_backend.Effects.{ok}
use replication_backend.Couch.{Couch, World}
use replication_backend.Casl.{Lodash}
use replication_backend.RulesConfig.{
  RulesConfig, Merged, merge_managed_defaults, valid_rules_config, default_section_key,
  legacy_default_key,
}
use replication_backend.RulesConfig.Managed.{merge_idem}
use replication_backend.WriteBack.{
  done, current_default, new_data, with_data, is_settled, write_config, write_managed_defaults,
}

entries-of_entries : (dict : Dict Json) → entries (of_entries dict) ≡ dict
entries-of_entries [] = refl
entries-of_entries ((k, v) ∷ dict) = ap (λ rest. (k, v) ∷ rest) (entries-of_entries dict)

-- The configuration that the document holds after it was set.
config_of-with_data :
    (config : RulesConfig) (doc : DatabaseDocument)
    → valid_rules_config (lookup "data" (with_data config doc)) ≡ some config
unfolding valid_rules_config
config_of-with_data config doc =
    ap valid_rules_config (lookup-insert "data" "data" (obj (of_entries config)) doc)
    ∙ ap some (entries-of_entries config)

module _ (merged : List Json) (config : RulesConfig) where
  -- What a write-back holds under each key: the legacy section is gone, the default section holds
  -- the merged rules, and all else is as it was.
  lookup-new_data :
      (k : String)
      → lookup k (new_data merged config) ≡ (
          if legacy_default_key == k
          then none
          else if default_section_key == k
          then some (arr (of_list merged))
          else lookup k config)
  unfolding new_data
  lookup-new_data k =
      lookup-remove legacy_default_key k (insert default_section_key (arr (of_list merged)) config)
      ∙ ground (arith, lookup-insert default_section_key k (arr (of_list merged)) config)

  current_default-new_data : current_default (new_data merged config) ≡ some (arr (of_list merged))
  current_default-new_data = rw (lookup-new_data default_section_key, current_default) refl

module _ (lodash : Lodash) (couch : Couch) (db : String) where
  is_settled-new_data :
      (merged : List Json) (config : RulesConfig) (again : Merged)
      → again.changed ≡ false
      → is_settled lodash couch db again (new_data merged config) ≡ true
  is_settled-new_data merged config again unchanged =
      rw (lookup-new_data merged config legacy_default_key, unchanged) refl

  -- With an `isEqual` by which each value equals itself, and where the merge throws no exception, the
  -- document that a write-back has written
  -- needs none: looking at it again sends nothing.
  pub write_back_settles :
      (equal_self : (v : Json) → lodash.is_equal v v ≡ true) (config : RulesConfig) (merge : Merged)
      (doc : DatabaseDocument) (is_last : Bool) (w : World)
      → merge_managed_defaults lodash (current_default config) ≡ ok merge
      → write_managed_defaults lodash couch db
          (with_data (new_data merge.merged config) doc)
          is_last
          w
        ≡ (ok done, w)
  unfolding write_managed_defaults write_config
  write_back_settles equal_self config merge doc is_last w merged =
      let written : RulesConfig = new_data merge.merged config in
      let (again, merges, same, unchanged, dropped) =
        merge_idem lodash equal_self (current_default config) merge merged in
      let remerged : merge_managed_defaults lodash (current_default written) ≡ ok again =
        rw (current_default-new_data merge.merged config) merges in
      let settled = is_settled-new_data merge.merged config again unchanged in
      rw (config_of-with_data written doc, write_managed_defaults)
        (ground (arith, remerged, settled))
