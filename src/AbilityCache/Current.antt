-- ===== src/AbilityCache/Current.antt =====
-- The cached abilities are those that would be built anew.
use replication_backend.Prelude.{
  String, Option, none, some, List, [], ◌∷◌, Dict, lookup, insert, length, leb, All, ◌==◌, eq_iff,
  ◌≡◌, refl, ◌∙◌, ap, sym, subst, arith, inl, inr, Bool-cases, Option-cases,
}
use replication_backend.Effects.{ok, Result-cases}
use replication_backend.Casl.{Casl, Lodash, UserInfo}
use replication_backend.RulesConfig.{RulesConfig}
use replication_backend.Rules.Updates.{
  Event, apply_event, in_force, announces_changes, permission-apply_event,
}
use replication_backend.AbilityCache.{
  Texts, Abilities, ability_cache_key, build_ability, make_room, get_ability_for, update_rules,
  ability_cache_max_entries,
}
use replication_backend.AbilityCache.Entries.{All-insert, lookup-All}

-- A request of a user is served, or the permission document is updated or deleted.
pub data Operation : Type 0 where
  asked : Option UserInfo → Operation
  reported : Event → Operation

module _ (casl : Casl) (lodash : Lodash) (texts : Texts) where
  abbrev pub operate : Operation → Abilities casl lodash texts → Abilities casl lodash texts
  operate (asked user) s = (get_ability_for casl lodash texts user s).1
  operate (reported event) s = update_rules casl lodash texts event s

  abbrev pub operate_all :
      List Operation → Abilities casl lodash texts → Abilities casl lodash texts
  operate_all [] s = s
  operate_all (operation ∷ operations) s = operate_all operations (operate operation s)

module _ (casl : Casl) (lodash : Lodash) (texts : Texts) (parse_user : String → Option UserInfo)
    (parse_config : String → RulesConfig) where
  -- JSON.parse reads back the key of the user.
  abbrev pub ReadsUser : Option UserInfo → Type 0
  ReadsUser user = parse_user (ability_cache_key texts.of_user user) ≡ user

  -- There are rules in force, and JSON.parse reads back their text.
  abbrev pub ReadsConfig : Option RulesConfig → Type 0
  ReadsConfig none = ⊥
  ReadsConfig (some config) = parse_config (texts.of_config config) ≡ config

  -- The users who ask, and the configurations that come to be in force, are read back.
  abbrev pub AllRead : List Operation → Option RulesConfig → Type 0
  AllRead [] config = ReadsConfig config
  AllRead (asked user ∷ operations) config = ReadsUser user × AllRead operations config
  AllRead (reported event ∷ operations) config =
      ReadsConfig config × AllRead operations (in_force texts.of_config texts.db event config)

  abbrev IsCurrent : Option RulesConfig → String × casl.Ability → Type 0
  IsCurrent config entry =
      (user : Option UserInfo) × (ability_cache_key texts.of_user user ≡ entry.0)
      × ReadsUser user
      × (build_ability casl lodash texts config user ≡ ok entry.1)

  abbrev Current : Abilities casl lodash texts → Type 0
  Current s = All (IsCurrent s.rules.permission) s.ability_cache

  read_now :
      (operations : List Operation) (config : Option RulesConfig)
      → AllRead operations config
      → ReadsConfig config
  read_now [] config h = h
  read_now (asked user ∷ operations) config h = read_now operations config h.1
  read_now (reported event ∷ operations) config h = h.0

  -- A cached ability is the one that would be built.
  hit :
      (user : Option UserInfo) (ability : casl.Ability) (s : Abilities casl lodash texts)
      → ReadsUser user
      → Current s
      → lookup (ability_cache_key texts.of_user user) s.ability_cache ≡ some ability
      → build_ability casl lodash texts s.rules.permission user ≡ ok ability
  hit user ability s r h e =
      let found =
        lookup-All (IsCurrent s.rules.permission) (ability_cache_key texts.of_user user) ability
          s.ability_cache h e in
      let entry = found.2 in
      let same : entry.0 ≡ user = sym entry.2 ∙ ap parse_user (entry.1 ∙ found.1) ∙ r in
      subst (λ u. build_ability casl lodash texts s.rules.permission u ≡ ok ability) same entry.3

  answer :
      (user : Option UserInfo) (s : Abilities casl lodash texts)
      → ReadsUser user
      → Current s
      → (get_ability_for casl lodash texts user s).0
        ≡ build_ability casl lodash texts s.rules.permission user
  unfolding get_ability_for
  answer user s r h =
      elim (Option-cases (lookup (ability_cache_key texts.of_user user) s.ability_cache)) [
        | inr (ability, e) ↦ ground (arith, e, hit user ability s r h e)
        | inl e ↦ elim (Result-cases (build_ability casl lodash texts s.rules.permission user)) [
          | inl (ability, b) ↦ ground (arith, e, b)
          | inr (error, b) ↦ ground (arith, e, b)
        ]
      ]

  room-Current :
      (config : Option RulesConfig) (cache : Dict casl.Ability)
      → All (IsCurrent config) cache
      → All (IsCurrent config) (make_room casl lodash texts cache)
  room-Current config cache h = elim (Bool-cases (leb ability_cache_max_entries (length cache))) [
    | inl e ↦ rw e tt
    | inr e ↦ rw e h
  ]

  asked-Current :
      (user : Option UserInfo) (s : Abilities casl lodash texts)
      → ReadsUser user
      → Current s
      → ((get_ability_for casl lodash texts user s).1.rules ≡ s.rules)
        × Current (get_ability_for casl lodash texts user s).1
  unfolding get_ability_for
  asked-Current user s r h =
      let key : String = ability_cache_key texts.of_user user in
      elim (Option-cases (lookup key s.ability_cache)) [
        | inr (ability, e) ↦
            let found : (get_ability_for casl lodash texts user s).1 ≡ s = ground (arith, e) in
            rw found (refl, h)
        | inl e ↦ elim (Result-cases (build_ability casl lodash texts s.rules.permission user)) [
          | inr (error, b) ↦
              let failed : (get_ability_for casl lodash texts user s).1 ≡ s =
                ground (arith, e, b) in
              rw failed (refl, h)
          | inl (ability, b) ↦
              let stored : (get_ability_for casl lodash texts user s).1 ≡ record s {
                ability_cache = insert key ability (make_room casl lodash texts s.ability_cache);
              } =
                ground (arith, e, b) in
              rw stored (
                refl,
                All-insert (IsCurrent s.rules.permission) key ability
                    (make_room casl lodash texts s.ability_cache) (λ k same. (user, sym same, r, b))
                    (room-Current s.rules.permission s.ability_cache h),
              )
        ]
      ]

  loaded :
      (config : Option RulesConfig)
      → ReadsConfig config
      → (c : RulesConfig) × (config ≡ some c) × (parse_config (texts.of_config c) ≡ c)
  loaded none r = absurd r
  loaded (some c) r = (c, refl, r)

  -- What an update leaves, by whether it was announced.
  update_same :
      (event : Event) (s : Abilities casl lodash texts)
      → (apply_event texts.of_config texts.db event s.rules).changes_announced
        ≡ s.rules.changes_announced
      → (update_rules casl lodash texts event s).ability_cache ≡ s.ability_cache
  unfolding update_rules
  update_same event s h = ground (arith, ap length h)

  update_changed :
      (event : Event) (s : Abilities casl lodash texts)
      → (apply_event texts.of_config texts.db event s.rules).changes_announced
        ≡ texts.db ∷ s.rules.changes_announced
      → (update_rules casl lodash texts event s).ability_cache ≡ []
  unfolding update_rules
  update_changed event s h = ground (arith, ap length h)

  update_permission :
      (event : Event) (s : Abilities casl lodash texts)
      → (update_rules casl lodash texts event s).rules.permission
        ≡ in_force texts.of_config texts.db event s.rules.permission
  unfolding update_rules
  update_permission event s = permission-apply_event texts.of_config texts.db event s.rules

  reported-Current :
      (event : Event) (s : Abilities casl lodash texts)
      → ReadsConfig s.rules.permission
      → ReadsConfig (in_force texts.of_config texts.db event s.rules.permission)
      → Current s
      → Current (update_rules casl lodash texts event s)
  reported-Current event s r r' h =
      let (prev, e, p) = loaded s.rules.permission r in
      let (new, e', p') = loaded (in_force texts.of_config texts.db event s.rules.permission) r' in
      let announced = announces_changes texts.of_config texts.db event s.rules prev new e e' in
      elim (Bool-cases (texts.of_config prev == texts.of_config new)) [
        | inr b ↦ rw (update_changed event s (ground (arith, announced, b))) tt
        | inl b ↦
            let text : texts.of_config prev ≡ texts.of_config new =
              ground (arith, b, eq_iff (texts.of_config prev) (texts.of_config new)) in
            let same : prev ≡ new = sym p ∙ ap parse_config text ∙ p' in
            let config : s.rules.permission
                ≡ (update_rules casl lodash texts event s).rules.permission =
              e ∙ ap some same ∙ sym (update_permission event s ∙ e') in
            rw (update_same event s (ground (arith, announced, b)))
              (subst (λ c. All (IsCurrent c) s.ability_cache) config h)
      ]

  operations-Current :
      (operations : List Operation) (s : Abilities casl lodash texts)
      → AllRead operations s.rules.permission
      → Current s
      → Current (operate_all casl lodash texts operations s)
  operations-Current [] s r h = h
  operations-Current (asked user ∷ operations) s r h =
      let next = asked-Current user s r.0 h in
      operations-Current operations (get_ability_for casl lodash texts user s).1
        (subst (λ rules. AllRead operations rules.permission) (sym next.0) r.1) next.1
  operations-Current (reported event ∷ operations) s r h =
      operations-Current operations (update_rules casl lodash texts event s)
        (rw (update_permission event s) r.1)
        (reported-Current event s r.0
          (read_now operations (in_force texts.of_config texts.db event s.rules.permission) r.1) h)

  -- After any requests of users and any updates of the rules, from an empty cache with rules in force,
  -- a user gets the ability that would be built anew under the rules now in force, or the exception of
  -- building it. Each text that is compared, of the users and of the configurations in force, must be
  -- read back by JSON.parse.
  pub get_ability_for-build_ability :
      (operations : List Operation) (user : Option UserInfo) (s : Abilities casl lodash texts)
      → s.ability_cache ≡ []
      → AllRead operations s.rules.permission
      → ReadsUser user
      → (get_ability_for casl lodash texts user (operate_all casl lodash texts operations s)).0
        ≡ build_ability casl lodash texts
            (operate_all casl lodash texts operations s).rules.permission
            user
  get_ability_for-build_ability operations user s e r u =
      answer user (operate_all casl lodash texts operations s) u
        (operations-Current operations s r (rw e tt))
