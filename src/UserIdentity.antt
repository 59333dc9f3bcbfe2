-- ===== src/UserIdentity.antt =====
-- src/permissions/user-identity/user-identity.service.ts: the cache of user identities.
pub mod Resolve
pub mod Index
mod Tests
use replication_backend.Prelude.{
  ℕ, ◌+◌, ◌*◌, String, Bool, true, false, Option, none, some, List, [], ◌∷◌, ◌==◌, Dict, lookup,
  insert, remove, ltb, is_some, filter_map, if◌then◌else◌,
}
use replication_backend.Json.{Json, arr, elems, text_of, DatabaseDocument}
use replication_backend.Effects.{Result, ok, throw, Io, pure, ◌>>=◌, ◌>>◌}
use replication_backend.Casl.{UserInfo}
use replication_backend.Couch.{World, Couch}
use replication_backend.Permission.{fetch_or_none}

-- `class UserAccount`
pub record UserAccount : Type 0 where
  pub id : String
  pub name : String
  pub roles : List String

-- `abstract class UserAdminService`, over the state of an implementation
pub record UserAdmin : Type 1 where
  pub State : Type 0
  pub get_user_account : String → Io State UserAccount

pub record Cached : Type 0 where
  pub value : UserInfo
  pub expires_at_ms : ℕ

abbrev pub cache_ttl_ms : ℕ
cache_ttl_ms = 5 * 60 * 1000

-- `userEntity?.projects`, the texts of it
abbrev pub projects_of : Option DatabaseDocument → List String
projects_of none = []
projects_of (some entity) = elim (lookup "projects" entity) [
  | some (arr projects) ↦ filter_map (λ project. text_of (some project)) (elems projects)
  | _ ↦ []
]

abbrev pub user_of : UserAccount → Option DatabaseDocument → UserInfo
user_of account entity = record {
  id = account.id;
  name = account.name;
  roles = account.roles;
  projects = projects_of entity;
}

module _ (admin : UserAdmin) where
  -- `class UserIdentityService`, with the state of what it calls
  pub record Identities : Type 0 where
    pub cache : Dict Cached
    pub entity_name_index : Dict String
    pub world : World
    pub accounts : admin.State

  abbrev pub on_world : {A : Type 0} → Io World A → Io Identities A
  on_world m s = let (r, world) = m s.world in (r, record s { world = world })

  abbrev pub on_accounts : {A : Type 0} → Io admin.State A → Io Identities A
  on_accounts m s = let (r, accounts) = m s.accounts in (r, record s { accounts = accounts })

  -- The end of `resolveUser`: the two `set`s.
  unfoldable pub store : String → UserInfo → ℕ → Identities → Identities
  store user_id resolved now s = record s {
    cache =
        insert user_id (record { value = resolved; expires_at_ms = now + cache_ttl_ms }) s.cache;
    entity_name_index = insert resolved.name user_id s.entity_name_index;
  }

  -- `clearCache`
  abbrev pub clear_cache : Identities → Identities
  clear_cache s = record s { cache = []; entity_name_index = [] }

  unfoldable pub invalidate_by_entity_name : String → Identities → Identities
  invalidate_by_entity_name name s =
      let forgotten : Identities = record s {
        entity_name_index = remove name s.entity_name_index;
      } in
      elim (lookup name s.entity_name_index) [
        | none ↦ forgotten
        | some user_id ↦
            if user_id == "" then forgotten else record forgotten { cache = remove user_id s.cache }
      ]

  -- `watchUserEntityChanges`, for the id of one change
  unfoldable pub on_change : String → Identities → Identities
  on_change id s =
      if is_some (lookup id s.entity_name_index) then invalidate_by_entity_name id s else s

  module _ (couch : Couch) (now : World → admin.State → ℕ) where
    -- `cached && cached.expiresAtMs > Date.now()`
    unfoldable pub cached_user : String → Identities → Option UserInfo
    cached_user user_id s = elim (lookup user_id s.cache) [
      | none ↦ none
      | some cached ↦
          if ltb (now s.world s.accounts) cached.expires_at_ms then some cached.value else none
    ]

    -- `resolveUser` where nothing is cached, up to the `set`s
    unfoldable pub fetch_user : String → Io Identities UserInfo
    fetch_user user_id = do
      account ← on_accounts (admin.get_user_account user_id)
      entity ← on_world (fetch_or_none couch "app" account.name)
      pure (user_of account entity)

    abbrev pub finish : String → UserInfo → Io Identities UserInfo
    finish user_id resolved s = (ok resolved, store user_id resolved (now s.world s.accounts) s)

    unfoldable pub resolve_user : String → Io Identities UserInfo
    resolve_user user_id s = elim (cached_user user_id s) [
      | some value ↦ (ok value, s)
      | none ↦ (fetch_user user_id >>= finish user_id) s
    ]
