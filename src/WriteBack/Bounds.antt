-- ===== src/WriteBack/Bounds.antt =====
-- The write-back ends without an exception, after a few requests.
use replication_backend.Prelude.{
  ℕ, zero, suc, ◌+◌, ◌*◌, ◌≤◌, String, Bool, [], ◌∷◌, eqb, length, lookup, ◌≡◌, ◌⊎◌, refl, arith,
  inl, inr, Option-cases, Bool-cases,
}
use replication_backend.Json.{DatabaseDocument}
use replication_backend.Effects.{Error, Result, ok, throw, Result-cases}
use replication_backend.Couch.{Couch, World, get, put}
use replication_backend.Casl.{Lodash}
use replication_backend.RulesConfig.{
  RulesConfig, valid_rules_config, merge_managed_defaults, permission_doc_id,
}
use replication_backend.WriteBack.{
  Outcome, done, conflict, try_put, is_settled, write_config, write_managed_defaults, attempts,
  ensure_managed_defaults, with_data, new_data, current_default,
}

outcome_cases :
    (r : Result Outcome) → (r ≡ ok conflict) ⊎ ((r ≡ ok done) ⊎ ((e : Error) × (r ≡ throw e)))
outcome_cases (ok conflict) = inl refl
outcome_cases (ok done) = inr (inl refl)
outcome_cases (throw e) = inr (inr (e, refl))

module _ (lodash : Lodash) (couch : Couch) (db : String) where
  sent-try_put :
      (doc : DatabaseDocument) (is_last : Bool) (w : World)
      → (try_put lodash couch db doc is_last w).1.sent ≡ put db doc ∷ w.sent
  sent-try_put doc is_last w = elim (Result-cases (couch.stored (put db doc ∷ w.sent))) [
    | inl (a, e) ↦ ground (arith, e)
    | inr (error, e) ↦ ground (arith, e)
  ]

  sent-write_config :
      (config : RulesConfig) (doc : DatabaseDocument) (is_last : Bool) (w : World)
      → length (write_config lodash couch db config doc is_last w).1.sent ≤ length w.sent + 1
  unfolding write_config
  sent-write_config config doc is_last w =
      elim (Result-cases (merge_managed_defaults lodash (current_default config))) [
        | inr (x, e) ↦ ground (arith, e)
        | inl (merge, m) ↦
            let updated : DatabaseDocument = with_data (new_data merge.merged config) doc in
            elim (Bool-cases (is_settled lodash couch db merge config)) [
              | inl e ↦ ground (arith, m, e)
              | inr e ↦ ground (arith, m, e, sent-try_put updated is_last w)
            ]
      ]

  sent-write :
      (doc : DatabaseDocument) (is_last : Bool) (w : World)
      → length (write_managed_defaults lodash couch db doc is_last w).1.sent ≤ length w.sent + 1
  unfolding write_managed_defaults
  sent-write doc is_last w = elim (Option-cases (valid_rules_config (lookup "data" doc))) [
    | inl e ↦ ground (arith, e)
    | inr (config, e) ↦ ground (arith, e, sent-write_config config doc is_last w)
  ]

  sent-attempts :
      (n : ℕ) (doc : DatabaseDocument) (w : World)
      → length (attempts lodash couch db n doc w).1.sent ≤ length w.sent + 2 * n
  unfolding attempts
  sent-attempts zero doc w = omega arith
  sent-attempts (suc n) doc w =
      let (outcome, w') = write_managed_defaults lodash couch db doc (eqb n 0) w in
      let sent = get db permission_doc_id [] ∷ w'.sent in
      elim (outcome_cases outcome) [
        | inr (inr (e, h)) ↦ ground (arith, h, sent-write doc (eqb n 0) w)
        | inr (inl h) ↦ ground (arith, h, sent-write doc (eqb n 0) w)
        | inl h ↦ elim (Result-cases (couch.document sent)) [
          | inr (e, k) ↦ ground (arith, h, k, sent-write doc (eqb n 0) w)
          | inl (doc', k) ↦ ground (
            arith,
            h,
            k,
            sent-write doc (eqb n 0) w,
            sent-attempts n doc' (record w' { sent = sent }),
          )
        ]
      ]

  -- The write-back never throws, whatever the database answers, and makes at most six requests.
  pub ensure_managed_defaults-bound :
      (doc : DatabaseDocument) (w : World)
      → ((ensure_managed_defaults lodash couch db doc w).0 ≡ ok tt)
        × (length (ensure_managed_defaults lodash couch db doc w).1.sent ≤ length w.sent + 6)
  unfolding ensure_managed_defaults
  ensure_managed_defaults-bound doc w = elim (Result-cases (attempts lodash couch db 3 doc w).0) [
    | inl (a, e) ↦ (ground (arith, e), ground (arith, e, sent-attempts 3 doc w))
    | inr (error, e) ↦ (ground (arith, e), ground (arith, e, sent-attempts 3 doc w))
  ]
