-- ===== src/Keycloak/Tests.antt =====
-- Tests of the Keycloak client.
use replication_backend.Prelude.{
  ◌*◌, String, some, none, [], ◌∷◌, length, includes, strip_suffix, ◌+◌, ◌<◌, ◌≡◌, refl,
}
use replication_backend.Effects.{ok}
use replication_backend.Keycloak.{
  TokenResponse, Provider, Keycloak, cached_token, keep_token, get_access_token, request_token,
  fetch_user, fetch_user_roles, resolve_entity_name, get_user_account, token_request,
}
use replication_backend.Keycloak.Tokens.{lifetime_ms, keep_token-cached_token}

abbrev an_hour : TokenResponse
an_hour = record { access_token = some "t1"; expires_in = some 3600 }

-- Each request takes a second.
abbrev provider : Provider
provider = record {
  token = λ sent. ok an_hour;
  user = λ sent. ok (record { id = "k1"; username = some "ada"; exact_username = none });
  roles = λ sent. ok ("user_app" ∷ "" ∷ []);
  now = λ sent. length sent * 1000;
  config = λ key. some "x/";
}

abbrev fresh : Keycloak
fresh = record { token_cache = none; sent = [] }

kept : (keep_token provider 0 an_hour fresh).0 ≡ ok "t1"
unfolding keep_token
kept = refl

served :
    cached_token provider
      (record (keep_token provider 0 an_hour fresh).1 { sent = token_request "u" ∷ [] })
    ≡ some "t1"
unfolding keep_token
served = refl

keep_token-cached_token_example :
    (◌≡◌ {A = String} "t1" "t1")
    × (provider.now (token_request "u" ∷ []) + 5000 < 0 + lifetime_ms provider an_hour)
keep_token-cached_token_example =
    keep_token-cached_token provider 0 an_hour fresh "t1" "t1" (token_request "u" ∷ []) kept served

account :
    (get_user_account provider "k1" fresh).0
    ≡ ok (record { id = "k1"; name = "User:ada"; roles = "user_app" ∷ [] })
unfolding get_user_account get_access_token request_token keep_token fetch_user fetch_user_roles
    resolve_entity_name includes strip_suffix
account = refl
