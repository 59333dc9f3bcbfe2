-- ===== src/CouchdbClient/Failures.antt =====
-- The exceptions of failed requests.
use replication_backend.Prelude.{
  ℕ, ◌+◌, ◌≤◌, String, Bool, false, Option, none, some, List, [], ◌∷◌, ◌++◌, append_assoc,
  append-nil, ltb, ◌≡◌, ◌↔◌, refl, ◌∙◌, arith, inl, inr, Bool-cases, Option-cases, if◌then◌else◌,
}
use replication_backend.Json.{Json}
use replication_backend.CouchdbClient.{
  Chunk, ResponseBody, value, stream, AxiosErrorLike, Rejection, http, as_it_is, to_nest_exception,
  read_chunks, read_bounded_text, to_buffered_error, stream_rejection, max_error_body_bytes,
  first_non_success_status,
}

abbrev pub total_size : List Chunk → ℕ
total_size [] = 0
total_size (chunk ∷ chunks) = chunk.size + total_size chunks

read_chunks_lem :
    (size : ℕ) (chunks read : List Chunk)
    → size ≤ 65536
    → read_chunks size chunks read
      ≡ (if ltb 65536 (size + total_size chunks) then none else some (read ++ chunks))
unfolding read_chunks
read_chunks_lem size [] read h = ground (arith, h, append-nil read)
read_chunks_lem size (chunk ∷ chunks) read h =
    elim (Bool-cases (ltb max_error_body_bytes (size + chunk.size))) [
      | inl e ↦ ground (arith, e)
      | inr e ↦
          let later =
            read_chunks_lem (size + chunk.size) chunks (read ++ chunk ∷ []) (ground (arith, e)) in
          let sum : size + chunk.size + total_size chunks
              ≡ size + (chunk.size + total_size chunks) =
            omega arith in
          rw e (later ∙ rw sum (rw (append_assoc read (chunk ∷ []) chunks) refl))
    ]

module _ (decode : List Chunk → String) (parse_json : String → Option Json) where
  -- The body of a failed request is read as a text exactly if it comes whole and has 64 KiB at most;
  -- the text is then that of all its pieces in order.
  pub read_bounded_text-some_iff :
      (chunks : List Chunk) (broken : Bool) (text : String)
      → (read_bounded_text decode parse_json chunks broken ≡ some text)
        ↔ ((broken ≡ false) × (total_size chunks ≤ 65536) × (decode chunks ≡ text))
  unfolding read_bounded_text
  read_bounded_text-some_iff chunks broken text =
      let r = read_chunks_lem 0 chunks [] (omega arith) in
      elim (Bool-cases (ltb 65536 (0 + total_size chunks))) [
        | inl e ↦ (
          λ h. absurd (ground (arith, r, e, h)),
          λ (b, small, t). absurd (ground (arith, e, small)),
        )
        | inr e ↦ elim (Bool-cases broken) [
          | inl b ↦ (
            λ h. absurd (ground (arith, r, e, b, h)),
            λ (c, small, t). absurd (ground (arith, b, c)),
          )
          | inr b ↦ (
            λ h. (b, ground (arith, e), ground (arith, r, e, b, h)),
            λ (c, small, t). ground (arith, r, e, b, t),
          )
        ]
      ]

  -- The status that the client is told
  abbrev pub HasStatus : ℕ → Rejection → Type 0
  HasStatus status (http s (value body)) = s ≡ status
  HasStatus status (http s (stream chunks broken)) = ⊥
  HasStatus status (as_it_is err) = ⊥

  buffered-HasStatus :
      (status : ℕ) (body : ResponseBody)
      → HasStatus status (to_buffered_error decode parse_json (http status body))
  unfolding to_buffered_error
  buffered-HasStatus status (value body) = refl
  buffered-HasStatus status (stream chunks broken) =
      elim (Option-cases (read_bounded_text decode parse_json chunks broken)) [
        | inl e ↦ rw (e, HasStatus) refl
        | inr (text, e) ↦ rw (e, HasStatus) refl
      ]

  -- A stream request that CouchDB answered with an error status is rejected with that status and a
  -- body that was read, whatever came of reading it; one that failed in spite of a success status is
  -- rejected as a bad gateway.
  pub stream_rejection-HasStatus :
      (err : AxiosErrorLike) (status : ℕ) (body : ResponseBody)
      → err.response ≡ some (status, body)
      → HasStatus (if ltb status 300 then 502 else status) (stream_rejection decode parse_json err)
  unfolding stream_rejection to_nest_exception to_buffered_error
  stream_rejection-HasStatus err status body h =
      elim (Bool-cases (ltb status first_non_success_status)) [
        | inl e ↦ rw h (rw e refl)
        | inr e ↦ rw h (rw e (buffered-HasStatus status body))
      ]
