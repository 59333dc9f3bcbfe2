-- ===== src/RulesLoading/Fetch.antt =====
-- The fetch of a changed permission document, with its retries.
use replication_backend.Prelude.{
  ℕ, zero, suc, ◌+◌, ◌≤◌, String, false, Option, none, some, List, [], ◌∷◌, length, ◌≡◌, arith, ◌⊎◌,
  inl, inr, Bool-cases,
}
use replication_backend.Json.{DatabaseDocument}
use replication_backend.Effects.{Error, ok, throw, Result-cases}
use replication_backend.Couch.{Request, get}
use replication_backend.ErrorClassification.{is_likely_transient_error}
use replication_backend.RulesConfig.{permission_doc_id}
use replication_backend.RulesLoading.{
  Service, Around, read_permission, wait, fetch_with_retries, retry_delay_ms,
  update_fetch_max_retries,
}

module _ (around : Around) (db : String) where
  -- How a fetch ends: with the answer to its last request, or, giving up, with an error as the last
  -- answer, which was not transient or came when no retry was left.
  abbrev pub Ends : ℕ → List Request → Option DatabaseDocument × Service → Type 0
  Ends limit before (some doc, s) =
      (around.couch.document s.world.sent ≡ ok doc) × (length s.world.sent ≤ length before + limit)
  Ends limit before (none, s) =
      (e : Error) × (around.couch.document s.world.sent ≡ throw e)
      × (length s.world.sent ≤ length before + limit)
      × ((is_likely_transient_error around.texts e ≡ false)
          ⊎ (length s.world.sent ≡ length before + limit))

  Ends-later :
      (limit : ℕ) (q : Request) (before : List Request) (r : Option DatabaseDocument × Service)
      → Ends limit (q ∷ before) r
      → Ends (suc limit) before r
  Ends-later limit q before (some doc, s) h = (h.0, omega (arith, h.1))
  Ends-later limit q before (none, s) h =
      (h.0, h.1, omega (arith, h.2), elim h.3 [ inl k ↦ inl k | inr k ↦ inr (omega (arith, k)) ])

  fetch-Ends :
      (left so_far : ℕ) (s : Service)
      → Ends (suc left) s.world.sent (fetch_with_retries around db left so_far s)
  unfolding fetch_with_retries
  fetch-Ends zero so_far s =
      let history : List Request = get db permission_doc_id [] ∷ s.world.sent in
      elim (Result-cases (around.couch.document history)) [
        | inl (doc, k) ↦
            let found : fetch_with_retries around db zero so_far s
                ≡ (some doc, (read_permission around db s).1) =
              ground (arith, k) in
            rw found (k, omega arith)
        | inr (e, k) ↦
            let lost : fetch_with_retries around db zero so_far s
                ≡ (none, (read_permission around db s).1) =
              ground (arith, k) in
            rw lost (e, k, omega arith, inr (omega arith))
      ]
  fetch-Ends (suc left) so_far s =
      let history : List Request = get db permission_doc_id [] ∷ s.world.sent in
      let s1 : Service = (read_permission around db s).1 in
      elim (Result-cases (around.couch.document history)) [
        | inl (doc, k) ↦
            let found : fetch_with_retries around db (suc left) so_far s ≡ (some doc, s1) =
              ground (arith, k) in
            rw found (k, omega arith)
        | inr (e, k) ↦ elim (Bool-cases (is_likely_transient_error around.texts e)) [
          | inl b ↦
              let later : Service = wait around db (retry_delay_ms (so_far + 1)) s1 in
              let again : fetch_with_retries around db (suc left) so_far s
                  ≡ fetch_with_retries around db left (so_far + 1) later =
                ground (arith, k, b) in
              rw again (
                Ends-later (suc left) (get db permission_doc_id []) s.world.sent
                  (fetch_with_retries around db left (so_far + 1) later)
                  (fetch-Ends left (so_far + 1) later))
          | inr b ↦
              let lost : fetch_with_retries around db (suc left) so_far s ≡ (none, s1) =
                ground (arith, k, b) in
              rw lost (e, k, omega arith, inl b)
        ]
      ]

  -- The fetch of a changed permission document sends four requests at most. It ends with the document
  -- that its last request was answered with, or, giving up, after an error as the last answer, which
  -- was not a transient one or was the answer to the fourth request.
  pub fetch_with_retries-Ends :
      (s : Service)
      → Ends 4 s.world.sent (fetch_with_retries around db update_fetch_max_retries 0 s)
  fetch_with_retries-Ends s = fetch-Ends 3 0 s
