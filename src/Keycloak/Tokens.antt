-- ===== src/Keycloak/Tokens.antt =====
-- How long a token is used.
use replication_backend.Prelude.{
  ℕ, ◌+◌, ◌-◌, ◌*◌, ◌<◌, max, String, some, List, ltb, or_else, ◌≡◌, refl, ◌∙◌, ap, sym, arith, inl,
  inr, Bool-cases, Option-cases,
}
use replication_backend.Json.{non_empty}
use replication_backend.Effects.{ok}
use replication_backend.Keycloak.{
  KeycloakRequest, TokenResponse, Provider, TokenCache, Keycloak, cached_token, keep_token,
}

module _ (provider : Provider) where
  -- The life of the token of a response, in milliseconds
  abbrev pub lifetime_ms : TokenResponse → ℕ
  lifetime_ms response = max 1 (or_else response.expires_in 60) * 1000

  cached_in_time :
      (cached : TokenCache) (s : Keycloak) (token : String)
      → s.token_cache ≡ some cached
      → cached_token provider s ≡ some token
      → (token ≡ cached.token) × (provider.now s.sent < cached.expires_at_ms)
  cached_in_time cached s token h k =
      elim (Bool-cases (ltb (provider.now s.sent) cached.expires_at_ms)) [
        | inl e ↦ (ground (arith, h, e, k), ground (arith, e))
        | inr e ↦ absurd (ground (arith, h, e, k))
      ]

  -- After a token was asked for at some time and kept, whatever requests were sent since: if a token
  -- is served from the cache, it is that token, and more than five seconds of its life are left.
  pub keep_token-cached_token :
      (asked_at : ℕ) (response : TokenResponse) (s : Keycloak) (token served : String)
      (later : List KeycloakRequest)
      → (keep_token provider asked_at response s).0 ≡ ok token
      → cached_token provider (record (keep_token provider asked_at response s).1 { sent = later })
        ≡ some served
      → (served ≡ token) × (provider.now later + 5000 < asked_at + lifetime_ms response)
  unfolding keep_token
  keep_token-cached_token asked_at response s token served later h k =
      elim (Option-cases (non_empty response.access_token)) [
        | inl e ↦ absurd (ground (arith, e, h))
        | inr (kept, e) ↦
            let cached : TokenCache = record {
              token = kept;
              expires_at_ms = asked_at + lifetime_ms response - 5000;
            } in
            let after : Keycloak = record { token_cache = some cached; sent = later } in
            let state : record (keep_token provider asked_at response s).1 { sent = later }
                ≡ after =
              ground (arith, e) in
            let served_after : cached_token provider after ≡ some served =
              ap (cached_token provider) (sym state) ∙ k in
            let found = cached_in_time cached after served refl served_after in
            (found.0 ∙ ground (arith, e, h), omega (arith, found.1))
      ]
