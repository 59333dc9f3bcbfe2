-- ===== src/Changes/Ends.antt =====
-- The end of `changes` of changes.controller.ts.
use replication_backend.Prelude.{
  ℕ, zero, suc, ◌+◌, ◌<◌, ◌≤◌, String, Bool, true, Option, none, some, List, [], ◌∷◌, length, ◌≡◌,
  ◌≢◌, refl, inl, inr, arith, Bool-cases, Option-cases, false, ap, ◌∙◌, ◌&◌,
}
use replication_backend.Effects.{ok, Result-cases}
use replication_backend.Couch.{ChangeResult}
use replication_backend.Casl.{Permissions, UserInfo}
use replication_backend.DocumentFilter.{DocumentFilter}
use replication_backend.Changes.{max_processing_time_ms}
use replication_backend.Changes.Stream.{
  ChangesParams, Response, Progress, Surroundings, remaining, write_chunk, open_envelope,
  write_item, write_items, write_results, get_permitted_changes, is_iteration_complete, round,
  iterate, stream_permitted_changes, abort_stream_or_rethrow, changes, open_text, separator,
  shown_item, include_docs, no_progress,
}

module _ (env : Surroundings) where
  sent-write_chunk : (chunk : String) (s : Response) → (write_chunk env chunk s).1.sent ≡ s.sent
  unfolding write_chunk
  sent-write_chunk chunk s = ground arith

  sent-open_envelope : (s : Response) → (open_envelope env s).1.sent ≡ s.sent
  unfolding open_envelope
  sent-open_envelope s = ground (arith, sent-write_chunk open_text (record s { opened = true }))

  sent-write_item :
      (b : Bool) (result : ChangeResult) (s : Response)
      → (write_item env b result s).1.sent ≡ s.sent
  unfolding write_item
  sent-write_item b result s = ground (
    arith,
    sent-write_chunk (separator env s.written & env.stringify_change (shown_item env b result)) s,
  )

  sent-write_items :
      (b : Bool) (results : List ChangeResult) (s : Response)
      → (write_items env b results s).1.sent ≡ s.sent
  unfolding write_items
  sent-write_items b [] s = refl
  sent-write_items b (result ∷ rest) s =
      ground
        (arith, sent-write_item b result s, sent-write_items b rest (write_item env b result s).1)

  sent-write_results :
      (b : Bool) (results : List ChangeResult) (s : Response)
      → (write_results env b results s).1.sent ≡ s.sent
  unfolding write_results
  sent-write_results b results s =
      ground (arith, sent-open_envelope s, sent-write_items b results (open_envelope env s).1)

  module _ (permissions : Permissions) (filter_of : DocumentFilter) (db : String)
      (params : ChangesParams) where
    sent-fetch :
        (ability : permissions.Ability) (since : Option String) (limit : Option ℕ) (s : Response)
        → length
            (get_permitted_changes env permissions filter_of db params ability since limit s).1.sent
          ≡ suc (length s.sent)
    unfolding get_permitted_changes
    sent-fetch ability since limit s = ground arith

    -- Each round makes one request.
    sent-round :
        (ability : permissions.Ability) (p : Progress) (since : Option String) (s : Response)
        → length (round env permissions filter_of db params ability p since s).1.sent
          ≡ suc (length s.sent)
    unfolding round
    sent-round ability p since s =
        let limit : Option ℕ = remaining params.limit s.written in
        let got = get_permitted_changes env permissions filter_of db params ability since limit s in
        let more = sent-fetch ability since limit s in
        elim (Result-cases got.0) [
          | inr (x, e) ↦ ground (arith, e, more)
          | inl (batch, e) ↦ ground (
            arith,
            e,
            more,
            sent-write_results (include_docs env permissions filter_of db params) (batch.0).results
                got.1,
          )
        ]

    early :
        (pending deadline : ℕ) (s : Response)
        → is_iteration_complete env permissions filter_of db params pending deadline s ≡ false
        → env.now s < deadline
    unfolding is_iteration_complete
    early pending deadline s h = ground arith

    iterate_ends :
        (ticks : (s : Response) → length s.sent ≤ env.now s) (fuel : ℕ)
        (ability : permissions.Ability) (deadline : ℕ) (p : Progress) (since : Option String)
        (s : Response)
        → deadline < fuel + length s.sent
        → length s.sent ≤ deadline
        → (iterate env permissions filter_of db params fuel ability deadline p since s).0 ≢ ok none
    unfolding iterate
    iterate_ends ticks zero ability deadline p since s h k = absurd (omega arith)
    iterate_ends ticks (suc fuel) ability deadline p since s h k =
        let s' : Response = (round env permissions filter_of db params ability p since s).1 in
        let more = sent-round ability p since s in
        elim (Result-cases (round env permissions filter_of db params ability p since s).0) [
          | inr (x, e) ↦ ground (arith, e)
          | inl (p', e) ↦
              elim (Bool-cases (
                is_iteration_complete env permissions filter_of db params p'.pending deadline s')) [
                  | inl done ↦ ground (arith, e, done)
                  | inr going ↦ ground (
                    arith,
                    e,
                    going,
                    iterate_ends ticks fuel ability deadline p' (some p'.last_seq) s'
                        (omega (arith, more))
                        (omega (arith, ticks s', early p'.pending deadline s' going)),
                  )
                ]
        ]

    -- Where each request to the database takes a millisecond at least, the loop ends: fuel for one
    -- round per millisecond up to the deadline is enough.
    pub changes_ends :
        (ticks : (s : Response) → length s.sent ≤ env.now s) (user : Option UserInfo) (s : Response)
        → (changes env permissions filter_of db params
            (suc (env.now s + max_processing_time_ms))
            user
            s).0
          ≢ ok none
    unfolding changes stream_permitted_changes abort_stream_or_rethrow
    changes_ends ticks user s =
        let deadline : ℕ = env.now s + max_processing_time_ms in
        let first : Progress = no_progress env permissions filter_of db params in
        elim (Result-cases (permissions.ability_for user)) [
          | inr (x, failed) ↦ ground (arith, failed)
          | inl (ability, got_ability) ↦
              let run =
                iterate env permissions filter_of db params (suc deadline) ability deadline first
                  params.since s in
              let ends =
                iterate_ends ticks (suc deadline) ability deadline first params.since s
                  (omega arith) (omega (arith, ticks s)) in
              elim (Result-cases run.0) [
                | inr (x, e) ↦ ground (arith, got_ability, e)
                | inl (o, e) ↦ elim (Option-cases o) [
                  | inl gone ↦ absurd (ends (e ∙ ap ok gone))
                  | inr (p, got) ↦ ground (arith, got_ability, e, got)
                ]
              ]
        ]
