-- ===== src/BulkEndpoints/Streamed.antt =====
-- The replies of the streaming endpoints, from what came of the response of CouchDB.
use replication_backend.Prelude.{
  String, false, Option, none, List, [], ◌∷◌, ◌++◌, append-nil, ◌≡◌, ◌↔◌, refl, ◌∙◌, ap, sym, arith,
  inl, inr, Bool-cases, Option-cases,
}
use replication_backend.Json.{Json, obj, Fields}
use replication_backend.Json.Text.{stringify}
use replication_backend.Effects.{Result, ok, Result-cases}
use replication_backend.JsonFilter.{
  Token, StreamJson, Transform, new_transform, process_tokens, transform,
}
use replication_backend.JsonFilter.Tokens.{tokens, Assembles, filter_fields}
use replication_backend.JsonFilter.Document.{transform-tokens}
use replication_backend.JsonFilter.Truncated.{truncated_fails}
use replication_backend.BulkEndpoints.{Source, Sink, replied, parsing, stream_filtered}

module _ (lib : StreamJson) (sink : Sink) (array_field : String)
    (map_item : Json → Result (Option Json)) where
  abbrev parsed : Source → Result (Unit {0}) × Transform lib
  parsed = parsing lib sink array_field map_item

  -- With no error behind the tokens, parsing is the transform on them.
  parsing-transform :
      (source : Source)
      → source.broken ≡ none
      → parsed source ≡ transform lib array_field map_item source.tokens
  unfolding parsing transform
  parsing-transform source h =
      elim (Result-cases
        (process_tokens lib array_field map_item source.tokens (new_transform lib)).0) [
          | inl (u, e) ↦ ground (arith, h, e)
          | inr (e, k) ↦ ground (arith, h, k)
        ]

  parsed_whole : (source : Source) → (parsed source).0 ≡ ok tt → source.broken ≡ none
  unfolding parsing
  parsed_whole source h =
      elim (Result-cases
        (process_tokens lib array_field map_item source.tokens (new_transform lib)).0) [
          | inl (u, e) ↦ elim (Option-cases source.broken) [
            | inl k ↦ k
            | inr (b, k) ↦ absurd (ground (arith, e, k, h))
          ]
          | inr (e, k) ↦ absurd (ground (arith, k, h))
        ]

  -- What a reply that is whole says.
  replied_parsed :
      (source : Source) (text : String)
      → stream_filtered lib sink source array_field map_item ≡ replied text
      → (sink.disconnects ≡ false) × ((parsed source).0 ≡ ok tt) × ((parsed source).1.pushed ≡ text)
  unfolding stream_filtered
  replied_parsed source text h = elim (Bool-cases sink.disconnects) [
    | inl d ↦ absurd (ground (arith, d, h))
    | inr d ↦ elim (Result-cases (parsed source).0) [
      | inl (u, e) ↦ (d, e, ground (arith, d, e, h))
      | inr (e, k) ↦ elim (Bool-cases (sink.started (parsed source).1.pushed)) [
        | inl b ↦ absurd (ground (arith, d, k, b, h))
        | inr b ↦ absurd (ground (arith, d, k, b, h))
      ]
    ]
  ]

  all_received :
      (assembles : Assembles lib) (fs gs : Fields) (received missing : List Token)
      → filter_fields array_field map_item fs ≡ ok gs
      → received ++ missing ≡ tokens (obj fs) []
      → (transform lib array_field map_item received).0 ≡ ok tt
      → missing ≡ []
  all_received assembles fs gs received [] h e k = refl
  all_received assembles fs gs received (token ∷ missing) h e k = absurd (
      truncated_fails lib array_field map_item assembles fs gs received (token ∷ missing) h e
        (λ p. cc) k)

  whole_text :
      (assembles : Assembles lib) (fs gs : Fields) (source : Source) (missing : List Token)
      → filter_fields array_field map_item fs ≡ ok gs
      → source.tokens ++ missing ≡ tokens (obj fs) []
      → missing ≡ []
      → source.broken ≡ none
      → ((parsed source).0 ≡ ok tt)
        × ((parsed source).1.pushed ≡ stringify lib.quote lib.digits (obj gs))
  whole_text assembles fs gs source missing h e m b =
      let received : source.tokens ≡ tokens (obj fs) [] =
        sym (append-nil source.tokens) ∙ ap (λ ts. source.tokens ++ ts) (sym m) ∙ e in
      rw (parsing-transform source b, received)
        (rw h at (transform-tokens lib array_field map_item assembles fs))

  -- For a source that holds the tokens of an object as far as they came, where no item of its array
  -- makes the filter throw: the client gets a whole response exactly when it stays, nothing of the
  -- source is missing and no error comes behind it, and the response is the text of the filtered
  -- object.
  pub stream_filtered-replied_iff :
      (assembles : Assembles lib) (fs gs : Fields) (source : Source) (missing : List Token)
      (text : String)
      → filter_fields array_field map_item fs ≡ ok gs
      → source.tokens ++ missing ≡ tokens (obj fs) []
      → (stream_filtered lib sink source array_field map_item ≡ replied text) ↔ (
          (sink.disconnects ≡ false)
          × (missing ≡ [])
          × (source.broken ≡ none)
          × (text ≡ stringify lib.quote lib.digits (obj gs)))
  unfolding stream_filtered
  stream_filtered-replied_iff assembles fs gs source missing text h e = (
    λ r.
        let given = replied_parsed source text r in
        let unbroken = parsed_whole source given.1 in
        let complete =
          all_received assembles fs gs source.tokens missing h e
            (ap (λ p. p.0) (sym (parsing-transform source unbroken)) ∙ given.1) in
        (
          given.0,
          complete,
          unbroken,
          sym given.2 ∙ (whole_text assembles fs gs source missing h e complete unbroken).1,
        ),
    λ (d, m, b, t).
        let whole = whole_text assembles fs gs source missing h e m b in
        ground (arith, d, whole.0, whole.1, t),
  )
