-- ===== src/UserIdentity/Tests.antt =====
-- Tests of the cache of identities.
use replication_backend.Prelude.{
  String, Option, none, some, List, [], ◌∷◌, All, lookup, insert, remove, ◌==◌, ◌≡◌, refl, ◌⊎◌,
  if◌then◌else◌,
}
use replication_backend.Json.{DatabaseDocument}
use replication_backend.Effects.{Error, ok, throw}
use replication_backend.Casl.{UserInfo}
use replication_backend.UserIdentity.{
  UserAccount, store, cached_user, fetch_user, resolve_user, user_of, on_change,
  invalidate_by_entity_name,
}
use replication_backend.UserIdentity.Resolve.{resolve_user-reply}
use replication_backend.UserIdentity.Index.{
  Operation, stored, changed, apply_operations, IsOther, on_change-IsOther,
}
use replication_backend.Permission.{fetch_or_none}
use replication_backend.Fixtures.{one_child}
use replication_backend.Fixtures.Accounts.{one_account, nobody_cached, clock}

not_cached : cached_user one_account one_child clock "u1" nobody_cached ≡ none
unfolding cached_user lookup
not_cached = refl

resolve_user-reply_example :
    ((e : Error) × ((one_account.get_user_account "u1" nobody_cached.accounts).0 ≡ throw e)
      × ((resolve_user one_account one_child clock "u1" nobody_cached).0 ≡ throw e))
    ⊎ ((account : UserAccount) × (entity : Option DatabaseDocument) × ((one_account.get_user_account
            "u1" nobody_cached.accounts).0
          ≡ ok account)
        × ((resolve_user one_account one_child clock "u1" nobody_cached).0
            ≡ ok (user_of account entity)))
resolve_user-reply_example =
    resolve_user-reply one_account one_child clock "u1" nobody_cached not_cached

abbrev ada : UserInfo
ada = record { id = "u1"; name = "Child:1"; roles = "user_app" ∷ []; projects = [] }

resolved : (resolve_user one_account one_child clock "u1" nobody_cached).0 ≡ ok ada
unfolding resolve_user cached_user fetch_user fetch_or_none lookup
resolved = refl

abbrev owner : String → String
owner name = if name == "Child:1" then "u1" else "u2"

abbrev operations : List Operation
operations = stored "u1" ada 5 ∷ changed "School:1" ∷ []

on_change-IsOther_example :
    All
      (IsOther "Child:1")
      (on_change one_account "Child:1"
        (apply_operations one_account operations nobody_cached)).cache
on_change-IsOther_example =
    on_change-IsOther one_account owner operations "Child:1" nobody_cached refl
      ((refl, refl), (tt, tt))

-- An identity that was fetched before a change of its entity and stored after it stays cached.
stored_late :
    lookup "u1"
      (apply_operations one_account
        (changed "Child:1" ∷ stored "u1" ada 5 ∷ [])
        nobody_cached).cache
    ≡ some (record { value = ada; expires_at_ms = 300005 })
unfolding lookup store on_change invalidate_by_entity_name insert
stored_late = refl

-- Of two users of one entity, a change reaches the one that was stored last.
abbrev ada_again : UserInfo
ada_again = record ada { id = "u3" }

abbrev two_users : List Operation
two_users = stored "u1" ada 5 ∷ stored "u3" ada_again 5 ∷ changed "Child:1" ∷ []

one_forgotten :
    lookup "u1" (apply_operations one_account two_users nobody_cached).cache
    ≡ some (record { value = ada; expires_at_ms = 300005 })
unfolding lookup store on_change invalidate_by_entity_name insert remove
one_forgotten = refl
