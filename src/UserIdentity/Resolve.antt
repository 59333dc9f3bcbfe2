-- ===== src/UserIdentity/Resolve.antt =====
-- What `resolveUser` answers, and what it leaves in the cache.
use replication_backend.Prelude.{
  ℕ, ◌+◌, String, true, Option, none, some, [], ◌∷◌, Dict, lookup, insert, lookup-insert, ltb,
  eq_refl, ◌≡◌, refl, ◌∙◌, ap, sym, arith, ◌⊎◌, inl, inr, Option-cases,
}
use replication_backend.Json.{DatabaseDocument}
use replication_backend.Effects.{Error, ok, throw, Result-cases}
use replication_backend.Casl.{UserInfo}
use replication_backend.Couch.{World, Couch, get}
use replication_backend.Permission.{fetch_or_none}
use replication_backend.UserIdentity.{
  UserAccount, UserAdmin, Identities, Cached, store, cached_user, fetch_user, resolve_user, user_of,
  cache_ttl_ms,
}

fetch_total :
    (couch : Couch) (db id : String) (w : World)
    → (entity : Option DatabaseDocument) × ((fetch_or_none couch db id w).0 ≡ ok entity)
unfolding fetch_or_none
fetch_total couch db id w = elim (Result-cases (couch.document (get db id [] ∷ w.sent))) [
  | inl (doc, e) ↦ (some doc, ground (arith, e))
  | inr (error, e) ↦ (none, ground (arith, e))
]

module _ (admin : UserAdmin) (couch : Couch) (now : World → admin.State → ℕ) where
  -- The account decides: its exception is the answer, or else the identity with its id, name and
  -- roles, and with projects of whatever was found of its entity.
  pub resolve_user-reply :
      (user_id : String) (s : Identities admin)
      → cached_user admin couch now user_id s ≡ none
      → ((e : Error) × ((admin.get_user_account user_id s.accounts).0 ≡ throw e)
          × ((resolve_user admin couch now user_id s).0 ≡ throw e))
        ⊎ ((account : UserAccount) × (entity : Option DatabaseDocument) × ((admin.get_user_account
                user_id s.accounts).0
              ≡ ok account)
            × ((resolve_user admin couch now user_id s).0 ≡ ok (user_of account entity)))
  unfolding resolve_user fetch_user
  resolve_user-reply user_id s h =
      elim (Result-cases (admin.get_user_account user_id s.accounts).0) [
        | inr (e, k) ↦ inl (e, k, ground (arith, h, k))
        | inl (account, k) ↦
            let found = fetch_total couch "app" account.name s.world in
            inr (account, found.0, k, ground (arith, h, k, found.1))
      ]

  inserted : (key : String) (c : Cached) (m : Dict Cached) → lookup key (insert key c m) ≡ some c
  inserted key c m = lookup-insert key key c m ∙ rw (eq_refl key) refl

  not_expired : (n : ℕ) → ltb n (n + cache_ttl_ms) ≡ true
  not_expired n = ground arith

  -- What was just stored is served.
  stored_is_served :
      (user_id : String) (v : UserInfo) (s : Identities admin)
      → cached_user admin couch now user_id (store admin user_id v (now s.world s.accounts) s)
        ≡ some v
  unfolding cached_user store
  stored_is_served user_id v s =
      let n = now s.world s.accounts in
      let c : Cached = record { value = v; expires_at_ms = n + cache_ttl_ms } in
      rw (inserted user_id c s.cache, not_expired n, cached_user) refl

  served :
      (user_id : String) (v : UserInfo) (s : Identities admin)
      → cached_user admin couch now user_id s ≡ some v
      → resolve_user admin couch now user_id s ≡ (ok v, s)
  unfolding resolve_user
  served user_id v s h = rw (h, resolve_user) refl

  fetched :
      (user_id : String) (v : UserInfo) (s : Identities admin)
      → cached_user admin couch now user_id s ≡ none
      → (resolve_user admin couch now user_id s).0 ≡ ok v
      → cached_user admin couch now user_id (resolve_user admin couch now user_id s).1 ≡ some v
  unfolding resolve_user
  fetched user_id v s k h =
      let p = fetch_user admin couch now user_id s in
      elim (Result-cases p.0) [
        | inr (e, f) ↦ absurd (ground (arith, k, f, h))
        | inl (u, f) ↦
            let same : u ≡ v = ground (arith, k, f, h) in
            let state : (resolve_user admin couch now user_id s).1
                ≡ store admin user_id u (now p.1.world p.1.accounts) p.1 =
              ground (arith, k, f) in
            rw state (stored_is_served user_id u p.1 ∙ ap some same)
      ]

  -- An identity that was resolved is served again, at once, with no request and no other change.
  pub resolve_user_again :
      (user_id : String) (v : UserInfo) (s : Identities admin)
      → (resolve_user admin couch now user_id s).0 ≡ ok v
      → resolve_user admin couch now user_id (resolve_user admin couch now user_id s).1
        ≡ (ok v, (resolve_user admin couch now user_id s).1)
  resolve_user_again user_id v s h =
      let s' = (resolve_user admin couch now user_id s).1 in
      elim (Option-cases (cached_user admin couch now user_id s)) [
        | inr (u, k) ↦
            let hit = served user_id u s k in
            let same : ok u ≡ ok v = ap (λ p. p.0) (sym hit) ∙ h in
            rw hit (rw hit (ap (λ r. (r, s)) same))
        | inl k ↦ served user_id v s' (fetched user_id v s k h)
      ]
