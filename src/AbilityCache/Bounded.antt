-- ===== src/AbilityCache/Bounded.antt =====
-- The size of the cache of abilities.
use replication_backend.Prelude.{
  ◌≤◌, String, List, [], ◌∷◌, Dict, lookup, insert, length, leb, eqb, ◌≡◌, arith, inl, inr,
  Bool-cases, Option-cases,
}
use replication_backend.Effects.{Result-cases}
use replication_backend.Casl.{Casl, Lodash}
use replication_backend.Rules.Updates.{apply_event}
use replication_backend.AbilityCache.{
  Texts, Abilities, ability_cache_key, ability_cache_max_entries, build_ability, make_room,
  get_ability_for, update_rules,
}
use replication_backend.AbilityCache.Entries.{length-insert}
use replication_backend.AbilityCache.Current.{Operation, asked, reported, operate, operate_all}

module _ (casl : Casl) (lodash : Lodash) (texts : Texts) where
  room_left : (cache : Dict casl.Ability) → length (make_room casl lodash texts cache) ≤ 999
  room_left cache = elim (Bool-cases (leb ability_cache_max_entries (length cache))) [
    | inl e ↦ rw e (omega arith)
    | inr e ↦ rw e (ground (arith, e))
  ]

  operate_bound :
      (operation : Operation) (s : Abilities casl lodash texts)
      → length s.ability_cache ≤ 1000
      → length (operate casl lodash texts operation s).ability_cache ≤ 1000
  unfolding get_ability_for update_rules
  operate_bound (asked user) s h =
      let key : String = ability_cache_key texts.of_user user in
      elim (Option-cases (lookup key s.ability_cache)) [
        | inr (ability, e) ↦ ground (arith, e, h)
        | inl e ↦ elim (Result-cases (build_ability casl lodash texts s.rules.permission user)) [
          | inr (error, b) ↦ ground (arith, e, b, h)
          | inl (ability, b) ↦
              let stored : (operate casl lodash texts (asked user) s).ability_cache
                  ≡ insert key ability (make_room casl lodash texts s.ability_cache) =
                ground (arith, e, b) in
              rw stored (
                omega (
                  arith,
                  length-insert key ability (make_room casl lodash texts s.ability_cache),
                  room_left s.ability_cache,
                ))
        ]
      ]
  operate_bound (reported event) s h =
      let rules = apply_event texts.of_config texts.db event s.rules in
      elim (Bool-cases (eqb (length rules.changes_announced) (length s.rules.changes_announced))) [
        | inl e ↦ rw e h
        | inr e ↦ rw e (omega arith)
      ]

  -- However many users ask, in any order with updates of the rules, a cache that starts with 1000
  -- entries at most never has more.
  pub operate_all_bound :
      (operations : List Operation) (s : Abilities casl lodash texts)
      → length s.ability_cache ≤ 1000
      → length (operate_all casl lodash texts operations s).ability_cache ≤ 1000
  operate_all_bound [] s h = h
  operate_all_bound (operation ∷ operations) s h =
      operate_all_bound operations (operate casl lodash texts operation s)
        (operate_bound operation s h)
