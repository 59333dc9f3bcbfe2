-- ===== src/Rules/Updates.antt =====
-- Updates of the permission document, in any order.
use replication_backend.Prelude.{
  String, Option, none, some, List, [], ◌∷◌, ◌==◌, lookup, ◌≡◌, refl, sym, eq_refl, ap, ◌∙◌, arith,
  inl, inr, Option-cases, if◌then◌else◌,
}
use replication_backend.Json.{Json}
use replication_backend.RulesConfig.{
  RulesConfig, normalize_section_keys, valid_rules_config, bootstrap_permissions,
  legacy_default_key, legacy_public_key,
}
use replication_backend.RulesConfig.Normalized.{lookup-normalize_section_keys, normalize_absent}
use replication_backend.Rules.{
  RulesState, set_permission, on_permissions_changed, apply_updated_permission,
  apply_permission_deletion,
}

-- What reaches the service: a new content of the permission document, or its deletion.
pub data Event : Type 0 where
  updated : Option Json → Event
  deleted : Event

-- No legacy key is left in the configuration in force.
abbrev pub IsNormal : Option RulesConfig → Type 0
IsNormal none = Unit
IsNormal (some config) =
    (lookup legacy_default_key config ≡ none) × (lookup legacy_public_key config ≡ none)

normalized-IsNormal : (config : RulesConfig) → IsNormal (some (normalize_section_keys config))
normalized-IsNormal config = (
  lookup-normalize_section_keys config legacy_default_key,
  lookup-normalize_section_keys config legacy_public_key,
)

bootstrap_normal : normalize_section_keys bootstrap_permissions ≡ bootstrap_permissions
unfolding lookup
bootstrap_normal = normalize_absent bootstrap_permissions refl refl

module _ (stringify : RulesConfig → String) (db : String) where
  abbrev pub apply_event : Event → RulesState → RulesState
  apply_event (updated given) s = apply_updated_permission stringify db given s
  apply_event deleted s = apply_permission_deletion stringify db s

  abbrev pub apply_events : List Event → RulesState → RulesState
  apply_events [] s = s
  apply_events (event ∷ events) s = apply_events events (apply_event event s)

  permission-on_permissions_changed :
      (prev : Option RulesConfig) (new : RulesConfig) (s : RulesState)
      → (on_permissions_changed stringify db prev new s).permission ≡ s.permission
  unfolding on_permissions_changed
  permission-on_permissions_changed none new s = refl
  permission-on_permissions_changed (some prev) new s = ground arith

  apply_invalid :
      (given : Option Json) (s : RulesState)
      → valid_rules_config given ≡ none
      → apply_updated_permission stringify db given s ≡ s
  unfolding apply_updated_permission
  apply_invalid given s e = rw (e, apply_updated_permission) refl

  apply_valid :
      (given : Option Json) (s : RulesState) (config : RulesConfig)
      → valid_rules_config given ≡ some config
      → apply_updated_permission stringify db given s
        ≡ on_permissions_changed stringify db s.permission
            (normalize_section_keys config)
            (set_permission config s)
  unfolding apply_updated_permission
  apply_valid given s config e = rw (e, apply_updated_permission) refl

  -- What the configuration in force is after an event: the normalized content where it is valid, the
  -- one before where it is not, and the bootstrap one after a deletion.
  abbrev pub in_force : Event → Option RulesConfig → Option RulesConfig
  in_force (updated given) before = elim (valid_rules_config given) [
    | none ↦ before
    | some config ↦ some (normalize_section_keys config)
  ]
  in_force deleted before = some (normalize_section_keys bootstrap_permissions)

  pub permission-apply_event :
      (event : Event) (s : RulesState)
      → (apply_event event s).permission ≡ in_force event s.permission
  unfolding apply_permission_deletion
  permission-apply_event (updated given) s = elim (Option-cases (valid_rules_config given)) [
    | inl e ↦ rw (e, in_force) (ap (λ t. t.permission) (apply_invalid given s e))
    | inr (config, e) ↦
        rw (e, in_force)
          (ap (λ t. t.permission) (apply_valid given s config e)
            ∙ permission-on_permissions_changed s.permission (normalize_section_keys config)
                (set_permission config s))
  ]
  permission-apply_event deleted s =
      permission-on_permissions_changed s.permission bootstrap_permissions
        (set_permission bootstrap_permissions s)

  in_force-IsNormal :
      (event : Event) (before : Option RulesConfig)
      → IsNormal before
      → IsNormal (in_force event before)
  in_force-IsNormal (updated given) before h = elim (Option-cases (valid_rules_config given)) [
    | inl e ↦ rw (e, in_force, IsNormal) h
    | inr (config, e) ↦ rw (e, in_force, IsNormal) (normalized-IsNormal config)
  ]
  in_force-IsNormal deleted before h = normalized-IsNormal bootstrap_permissions

  -- Whatever events arrive in whatever order, no legacy section key is ever in force.
  pub apply_events-IsNormal :
      (events : List Event) (s : RulesState)
      → IsNormal s.permission
      → IsNormal (apply_events events s).permission
  apply_events-IsNormal [] s h = h
  apply_events-IsNormal (event ∷ events) s h =
      apply_events-IsNormal events (apply_event event s)
        (rw (permission-apply_event event s) (in_force-IsNormal event s.permission h))

  -- After a deletion, and a content of the document that is not valid behind it, the bootstrap rules
  -- are in force.
  pub deletion_fails_closed :
      (s : RulesState) (given : Option Json)
      → valid_rules_config given ≡ none
      → (apply_events (deleted ∷ updated given ∷ []) s).permission ≡ some bootstrap_permissions
  deletion_fails_closed s given h =
      ap (λ t. t.permission) (apply_invalid given (apply_event deleted s) h)
      ∙ permission-apply_event deleted s
      ∙ ap some bootstrap_normal

  announced :
      (before : Option RulesConfig) (prev new now : RulesConfig) (s : RulesState)
      → before ≡ some prev
      → now ≡ new
      → (on_permissions_changed stringify db before now s).changes_announced ≡ (
          if stringify prev == stringify new then s.changes_announced else db ∷ s.changes_announced)
  unfolding on_permissions_changed
  announced before prev new now s h k = rw h (rw k (ground arith))

  same : (text : String) {A : Type 0} (x y : A) → x ≡ (if text == text then x else y)
  same text x y = rw eq_refl refl

  some_inj : (a b : RulesConfig) → some a ≡ some b → a ≡ b
  some_inj a b h = cc

  -- An event announces a change exactly when the configuration that was in force and the one that is
  -- in force after it differ in their JSON text.
  pub announces_changes :
      (event : Event) (s : RulesState) (prev new : RulesConfig)
      → s.permission ≡ some prev
      → in_force event s.permission ≡ some new
      → (apply_event event s).changes_announced ≡ (
          if stringify prev == stringify new then s.changes_announced else db ∷ s.changes_announced)
  unfolding apply_permission_deletion
  announces_changes (updated given) s prev new h k =
      elim (Option-cases (valid_rules_config given)) [
        | inl e ↦
            let kept : s.permission ≡ some new = rw (e, in_force) at k in
            ap (λ t. t.changes_announced) (apply_invalid given s e)
            ∙ rw (some_inj new prev (sym kept ∙ h))
                (same (stringify prev) s.changes_announced (db ∷ s.changes_announced))
        | inr (config, e) ↦
            let now : some (normalize_section_keys config) ≡ some new = rw (e, in_force) at k in
            ap (λ t. t.changes_announced) (apply_valid given s config e)
            ∙ announced s.permission prev new (normalize_section_keys config)
                (set_permission config s) h (some_inj (normalize_section_keys config) new now)
      ]
  announces_changes deleted s prev new h k =
      announced s.permission prev new bootstrap_permissions (set_permission bootstrap_permissions s)
        h (sym bootstrap_normal ∙ some_inj (normalize_section_keys bootstrap_permissions) new k)
