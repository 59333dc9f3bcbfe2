-- ===== src/RulesLoading/Update.antt =====
-- A changed permission document comes into force.
use replication_backend.Prelude.{
  ℕ, zero, suc, ◌+◌, ◌≤◌, String, true, false, some, List, [], ◌∷◌, lookup, ◌≡◌, ◌∙◌, ap, arith,
}
use replication_backend.Json.{DatabaseDocument}
use replication_backend.Effects.{Error, ok, throw}
use replication_backend.Couch.{Request, get}
use replication_backend.ErrorClassification.{is_likely_transient_error}
use replication_backend.RulesConfig.{
  RulesConfig, valid_rules_config, normalize_section_keys, permission_doc_id,
}
use replication_backend.Rules.{apply_updated_permission}
use replication_backend.Rules.Updates.{updated, permission-apply_event}
use replication_backend.RulesLoading.{
  Service, Around, read_permission, wait, fetch_with_retries, retry_delay_ms, on_permission_change,
}

module _ (around : Around) (db : String) where
  -- After the given requests, a number of reads fail with a transient error, and then one gives the
  -- document.
  abbrev pub FailsThenGives : ℕ → List Request → DatabaseDocument → Type 0
  FailsThenGives zero sent doc = around.couch.document (get db permission_doc_id [] ∷ sent) ≡ ok doc
  FailsThenGives (suc n) sent doc =
      ((e : Error) × (around.couch.document (get db permission_doc_id [] ∷ sent) ≡ throw e)
        × (is_likely_transient_error around.texts e ≡ true))
      × FailsThenGives n (get db permission_doc_id [] ∷ sent) doc

  fetched :
      (n left so_far : ℕ) (s : Service) (doc : DatabaseDocument)
      → n ≤ left
      → FailsThenGives n s.world.sent doc
      → (fetch_with_retries around db left so_far s).0 ≡ some doc
  unfolding fetch_with_retries
  fetched zero zero so_far s doc h k = ground (arith, k)
  fetched zero (suc left) so_far s doc h k = ground (arith, k)
  fetched (suc n) zero so_far s doc h k = absurd (omega (arith, h))
  fetched (suc n) (suc left) so_far s doc h ((e, k, t), later) =
      let s1 : Service = (read_permission around db s).1 in
      let waited : Service = wait around db (retry_delay_ms (so_far + 1)) s1 in
      let again : fetch_with_retries around db (suc left) so_far s
          ≡ fetch_with_retries around db left (so_far + 1) waited =
        ground (arith, k, t) in
      ap (λ p. p.0) again ∙ fetched n left (so_far + 1) waited doc (omega (arith, h)) later

  -- A change of the permission document comes into force although up to three reads of it fail with a
  -- transient error before one gives the document, if that holds a valid configuration: the
  -- configuration in force is then its normalized content, whatever was in force before.
  pub on_permission_change-normalize_section_keys :
      (stringify : RulesConfig → String) (n : ℕ) (s : Service) (doc : DatabaseDocument)
      (config : RulesConfig)
      → n ≤ 3
      → FailsThenGives n s.world.sent doc
      → valid_rules_config (lookup "data" doc) ≡ some config
      → (on_permission_change around db stringify false s).rules.permission
        ≡ some (normalize_section_keys config)
  unfolding on_permission_change
  on_permission_change-normalize_section_keys stringify n s doc config h k v =
      let s1 : Service = (fetch_with_retries around db 3 0 s).1 in
      let found = fetched n 3 0 s doc h k in
      let applied : (on_permission_change around db stringify false s).rules
          ≡ apply_updated_permission stringify db (lookup "data" doc) s1.rules =
        ground (arith, found) in
      ap (λ r. r.permission) applied
      ∙ permission-apply_event stringify db (updated (lookup "data" doc)) s1.rules
      ∙ ground (arith, v)
