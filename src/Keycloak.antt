-- ===== src/Keycloak.antt =====
-- src/permissions/user-identity/keycloak-user-admin.service.ts: accounts from Keycloak. Keycloak is a
-- service outside the program: it answers each request from all requests so far.
pub mod Tokens
mod Tests
use replication_backend.Prelude.{
  ℕ, ◌+◌, ◌-◌, ◌*◌, max, String, Bool, true, false, Option, none, some, List, [], ◌∷◌, ◌==◌, ◌&◌,
  includes, filter, not, ltb, or_else, strip_suffix, if◌then◌else◌,
}
use replication_backend.Json.{non_empty}
use replication_backend.Effects.{
  Error, http_exception, Result, ok, throw, Io, pure, raise, ◌>>=◌, ◌>>◌,
}
use replication_backend.UserIdentity.{UserAccount, UserAdmin}

-- `type KeycloakUserResponse`: of its attributes, `exact_username`
pub record KeycloakUserResponse : Type 0 where
  pub id : String
  pub username : Option String
  pub exact_username : Option (List String)

-- `type TokenResponse`, as it may come
pub record TokenResponse : Type 0 where
  pub access_token : Option String
  pub expires_in : Option ℕ

-- The requests: their addresses, and the token that authorizes them
pub data KeycloakRequest : Type 0 where
  token_request : String → KeycloakRequest
  user_request roles_request : (url token : String) → KeycloakRequest

-- What Keycloak answers, the clock, and the configuration.
pub record Provider : Type 0 where
  pub token : List KeycloakRequest → Result TokenResponse
  pub user : List KeycloakRequest → Result KeycloakUserResponse
  pub roles : List KeycloakRequest → Result (List String)
  pub now : List KeycloakRequest → ℕ
  pub config : String → Option String

pub record TokenCache : Type 0 where
  pub token : String
  pub expires_at_ms : ℕ

-- `class KeycloakUserAdminService`, with the requests sent, the latest first.
pub record Keycloak : Type 0 where
  pub token_cache : Option TokenCache
  pub sent : List KeycloakRequest

abbrev pub internal_error : String → Error
internal_error message = http_exception 500 message

abbrev pub skew_ms : ℕ
skew_ms = 5000

module _ (provider : Provider) where
  -- `readRequiredConfig`
  abbrev pub read_required_config : String → Io Keycloak String
  read_required_config key s = elim (non_empty (provider.config key)) [
    | none ↦ (throw (internal_error ("Missing required config: " & key)), s)
    | some value ↦ (ok value, s)
  ]

  abbrev pub get_keycloak_base_url : Io Keycloak String
  get_keycloak_base_url = do
    url ← read_required_config "KEYCLOAK_ADMIN_BASE_URL"
    pure (strip_suffix "/" url)

  abbrev pub get_realm_admin_base_url : Io Keycloak String
  get_realm_admin_base_url = do
    base ← get_keycloak_base_url
    realm ← read_required_config "KEYCLOAK_REALM"
    pure (base & "/admin/realms/" & realm)

  abbrev pub ask :
      {A : Type 0} → KeycloakRequest → (List KeycloakRequest → Result A) → Io Keycloak A
  ask q answer s = let sent = q ∷ s.sent in (answer sent, record s { sent = sent })

  -- The token in the cache that is not expired
  abbrev pub cached_token : Keycloak → Option String
  cached_token s = elim s.token_cache [
    | none ↦ none
    | some cached ↦
        if ltb (provider.now s.sent) cached.expires_at_ms then some cached.token else none
  ]

  -- What becomes of the response to a token request that was sent at the given time.
  unfoldable pub keep_token : ℕ → TokenResponse → Io Keycloak String
  keep_token asked_at response s = elim (non_empty response.access_token) [
    | none ↦ (throw (internal_error "Keycloak token response does not include access_token"), s)
    | some token ↦ (
      ok token,
      record s {
        token_cache = some (record {
          token = token;
          expires_at_ms = asked_at + max 1 (or_else response.expires_in 60) * 1000 - skew_ms;
        });
      },
    )
  ]

  unfoldable pub request_token : ℕ → Io Keycloak String
  request_token asked_at = do
    base ← get_keycloak_base_url
    realm ← read_required_config "KEYCLOAK_REALM"
    read_required_config "KEYCLOAK_ADMIN_CLIENT_ID"
    read_required_config "KEYCLOAK_ADMIN_CLIENT_SECRET"
    response ←
        ask (token_request (base & "/realms/" & realm & "/protocol/openid-connect/token"))
          provider.token
    keep_token asked_at response

  unfoldable pub get_access_token : Io Keycloak String
  get_access_token s = elim (cached_token s) [
    | some token ↦ (ok token, s)
    | none ↦ request_token (provider.now s.sent) s
  ]

  unfoldable pub fetch_user : String → String → Io Keycloak KeycloakUserResponse
  fetch_user user_id token = do
    base ← get_realm_admin_base_url
    ask (user_request (base & "/users/" & user_id) token) provider.user

  unfoldable pub fetch_user_roles : String → String → Io Keycloak (List String)
  fetch_user_roles user_id token = do
    base ← get_realm_admin_base_url
    roles ←
        ask (roles_request (base & "/users/" & user_id & "/role-mappings/realm") token)
          provider.roles
    pure (filter (λ role. not (role == "")) roles)

  abbrev pub linked_entity_id : Option (List String) → Option String
  linked_entity_id none = none
  linked_entity_id (some []) = none
  linked_entity_id (some (id ∷ ids)) = non_empty (some id)

  -- The standard id of the entity of a user
  abbrev pub user_entity_id : String → String
  user_entity_id username = if includes username ":" then username else "User:" & username

  unfoldable pub resolve_entity_name : KeycloakUserResponse → Option String
  resolve_entity_name user = elim (linked_entity_id user.exact_username) [
    | some id ↦ some id
    | none ↦ elim (non_empty user.username) [
      | none ↦ none
      | some username ↦ some (user_entity_id username)
    ]
  ]

  unfoldable pub get_user_account : String → Io Keycloak UserAccount
  get_user_account user_id = do
    token ← get_access_token
    user ← fetch_user user_id token
    roles ← fetch_user_roles user_id token
    (elim (resolve_entity_name user) [
      | none ↦ raise (internal_error ("Could not resolve entity name for user " & user_id))
      | some name ↦ pure (record { id = user.id; name = name; roles = roles })
    ])

  -- The implementation of the interface that identities are resolved with
  abbrev pub keycloak_user_admin : UserAdmin
  keycloak_user_admin = record { State = Keycloak; get_user_account = get_user_account }
