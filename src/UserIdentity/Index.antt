-- ===== src/UserIdentity/Index.antt =====
-- The index of entity names, through which a change of an entity reaches the cached identity.
use replication_backend.Prelude.{
  ℕ, ◌+◌, String, true, false, none, some, List, [], ◌∷◌, Dict, lookup, insert, remove,
  lookup-insert, lookup-remove, All, All-map, ◌==◌, eq_iff, eq_refl, ◌≡◌, refl, arith, inl, inr,
  Bool-cases, Option-cases,
}
use replication_backend.Casl.{UserInfo}
use replication_backend.UserIdentity.{
  UserAdmin, Identities, cache_ttl_ms, Cached, store, clear_cache, on_change,
  invalidate_by_entity_name,
}

-- What happens to the cache: an identity is stored for a user id, an entity changes, all is cleared.
pub data Operation : Type 0 where
  stored : String → UserInfo → ℕ → Operation
  changed : String → Operation
  cleared : Operation

-- The entity of an identity belongs to the user whose identity it is, and that id is not empty.
abbrev pub IsOwned : (String → String) → Operation → Type 0
IsOwned owner (stored user_id resolved now) =
    (owner resolved.name ≡ user_id) × ((user_id == "") ≡ false)
IsOwned owner (changed id) = Unit {0}
IsOwned owner cleared = Unit {0}

-- The index leads from the name of a cached identity to its user.
abbrev pub IsIndexed : (String → String) → Dict String → String × Cached → Type 0
IsIndexed owner index entry =
    (lookup entry.1.value.name index ≡ some entry.0)
    × (owner entry.1.value.name ≡ entry.0)
    × ((entry.0 == "") ≡ false)

abbrev pub IsOther : String → String × Cached → Type 0
IsOther id entry = (entry.1.value.name == id) ≡ false

module _ (owner : String → String) where
  moved :
      (user_id name : String) (index : Dict String) (entry : String × Cached)
      → owner name ≡ user_id
      → IsIndexed owner index entry
      → IsIndexed owner (insert name user_id index) entry
  moved user_id name index entry o h =
      let found = lookup-insert name entry.1.value.name user_id index in
      (
        elim (Bool-cases (name == entry.1.value.name)) [
          | inl e ↦ ground (arith, found, e, eq_iff name entry.1.value.name, h.0, h.1, o)
          | inr e ↦ ground (arith, found, e, h.0)
        ],
        h.1,
        h.2,
      )

  fresh :
      (user_id key : String) (c : Cached) (index : Dict String)
      → owner c.value.name ≡ user_id
      → (user_id == "") ≡ false
      → key ≡ user_id
      → IsIndexed owner (insert c.value.name user_id index) (key, c)
  fresh user_id key c index o n e =
      let found = lookup-insert c.value.name c.value.name user_id index in
      (ground (arith, found, eq_refl c.value.name, e), ground (arith, o, e), ground (arith, n, e))

  stored_entries :
      (user_id : String) (c : Cached) (index : Dict String) (m : Dict Cached)
      → owner c.value.name ≡ user_id
      → (user_id == "") ≡ false
      → All (IsIndexed owner index) m
      → All (IsIndexed owner (insert c.value.name user_id index)) (insert user_id c m)
  unfolding insert
  stored_entries user_id c index [] o n h = (fresh user_id user_id c index o n refl, tt)
  stored_entries user_id c index (entry ∷ m) o n h = elim (Bool-cases (entry.0 == user_id)) [
    | inl e ↦ rw e (
      fresh user_id entry.0 c index o n (ground (arith, e, eq_iff entry.0 user_id)),
      All-map (IsIndexed owner index) (IsIndexed owner (insert c.value.name user_id index)) m
          (λ x k. moved user_id c.value.name index x o k) h.1,
    )
    | inr e ↦
        rw e
          (moved user_id c.value.name index entry o h.0, stored_entries user_id c index m o n h.1)
  ]

  abbrev Survives : String → Dict String → String × Cached → Type 0
  Survives id index entry = IsIndexed owner (remove id index) entry × IsOther id entry

  -- The entry of another user is of another entity.
  survivor :
      (id user_id : String) (index : Dict String) (entry : String × Cached)
      → lookup id index ≡ some user_id
      → (entry.0 == user_id) ≡ false
      → IsIndexed owner index entry
      → Survives id index entry
  survivor id user_id index entry l n h =
      let name = entry.1.value.name in
      let other : (name == id) ≡ false = elim (Bool-cases (name == id)) [
        | inl e ↦ absurd (ground (arith, e, eq_iff name id, h.0, l, n, eq_refl user_id))
        | inr e ↦ e
      ] in
      (
        (
          ground (arith, lookup-remove id name index, other, eq_iff id name, eq_iff name id, h.0),
          h.1,
          h.2,
        ),
        other,
      )

  removed_entries :
      (id user_id : String) (index : Dict String) (m : Dict Cached)
      → lookup id index ≡ some user_id
      → All (IsIndexed owner index) m
      → All (Survives id index) (remove user_id m)
  unfolding remove
  removed_entries id user_id index [] l h = tt
  removed_entries id user_id index (entry ∷ m) l h = elim (Bool-cases (entry.0 == user_id)) [
    | inl e ↦ rw e (removed_entries id user_id index m l h.1)
    | inr e ↦
        rw e (survivor id user_id index entry l e h.0, removed_entries id user_id index m l h.1)
  ]

  surviving :
      (id : String) (index : Dict String) (m : Dict Cached)
      → All (Survives id index) m
      → All (IsIndexed owner (remove id index)) m × All (IsOther id) m
  surviving id index m h = (
    All-map (Survives id index) (IsIndexed owner (remove id index)) m (λ x k. k.0) h,
    All-map (Survives id index) (IsOther id) m (λ x k. k.1) h,
  )

  -- No cached identity is of an entity that is not in the index.
  absent :
      (id : String) (index : Dict String) (entry : String × Cached)
      → lookup id index ≡ none
      → IsIndexed owner index entry
      → IsOther id entry
  absent id index entry l h =
      let name = entry.1.value.name in
      elim (Bool-cases (name == id)) [
        | inl e ↦ absurd (ground (arith, e, eq_iff name id, h.0, l))
        | inr e ↦ e
      ]

  -- An empty user id has no identities.
  named_user :
      (id user_id : String) (index : Dict String) (m : Dict Cached)
      → lookup id index ≡ some user_id
      → (user_id == "") ≡ true
      → All (IsIndexed owner index) m
      → All (Survives id index) m
  named_user id user_id index m l e h =
      All-map (IsIndexed owner index) (Survives id index) m
        (λ x k.
          survivor id user_id index x l
            (ground (arith, e, k.2, eq_iff user_id "", eq_iff x.0 user_id)) k)
        h

module _ (admin : UserAdmin) where
  abbrev pub apply_operation : Operation → Identities admin → Identities admin
  apply_operation (stored user_id resolved now) s = store admin user_id resolved now s
  apply_operation (changed id) s = on_change admin id s
  apply_operation cleared s = clear_cache admin s

  abbrev pub apply_operations : List Operation → Identities admin → Identities admin
  apply_operations [] s = s
  apply_operations (operation ∷ operations) s =
      apply_operations operations (apply_operation operation s)

  abbrev Indexed : (String → String) → Identities admin → Type 0
  Indexed owner s = All (IsIndexed owner s.entity_name_index) s.cache

  -- What a change leaves.
  changed_state :
      (owner : String → String) (id : String) (s : Identities admin)
      → Indexed owner s
      → Indexed owner (on_change admin id s) × All (IsOther id) (on_change admin id s).cache
  unfolding on_change invalidate_by_entity_name
  changed_state owner id s h =
      let index = s.entity_name_index in
      elim (Option-cases (lookup id index)) [
        | inl l ↦ rw l (
          h,
          All-map (IsIndexed owner index) (IsOther id) s.cache (λ x k. absent owner id index x l k)
              h,
        )
        | inr (user_id, l) ↦ elim (Bool-cases (user_id == "")) [
          | inl e ↦
              rw (l, e, invalidate_by_entity_name)
                (surviving owner id index s.cache (named_user owner id user_id index s.cache l e h))
          | inr e ↦
              rw (l, e, invalidate_by_entity_name)
                (surviving owner id index (remove user_id s.cache)
                  (removed_entries owner id user_id index s.cache l h))
        ]
      ]

  operation-Indexed :
      (owner : String → String) (operation : Operation) (s : Identities admin)
      → IsOwned owner operation
      → Indexed owner s
      → Indexed owner (apply_operation operation s)
  unfolding store
  operation-Indexed owner (stored user_id resolved now) s o h =
      stored_entries owner user_id (record { value = resolved; expires_at_ms = now + cache_ttl_ms })
        s.entity_name_index s.cache o.0 o.1 h
  operation-Indexed owner (changed id) s o h = (changed_state owner id s h).0
  operation-Indexed owner cleared s o h = tt

  operations-Indexed :
      (owner : String → String) (operations : List Operation) (s : Identities admin)
      → All (IsOwned owner) operations
      → Indexed owner s
      → Indexed owner (apply_operations operations s)
  operations-Indexed owner [] s o h = h
  operations-Indexed owner (operation ∷ operations) s o h =
      operations-Indexed owner operations (apply_operation operation s) o.1
        (operation-Indexed owner operation s o.0 h)

  -- Where each entity belongs to one user, and no user id is empty: after any operations on an empty
  -- cache, a change of an entity leaves no cached identity of that entity.
  pub on_change-IsOther :
      (owner : String → String) (operations : List Operation) (id : String) (s : Identities admin)
      → s.cache ≡ []
      → All (IsOwned owner) operations
      → All (IsOther id) (on_change admin id (apply_operations operations s)).cache
  on_change-IsOther owner operations id s e o =
      (changed_state owner id (apply_operations operations s)
        (operations-Indexed owner operations s o (rw e tt))).1
