-- ===== src/Changes/Stream.antt =====
-- `ChangesResponseStream` and the loop over batches of changes.controller.ts. The clock, the client
-- connection and `JSON.stringify` are parameters; the loop takes fuel, and Changes/Ends.antt shows how
-- much is enough.
use replication_backend.Prelude.{
  ℕ, zero, suc, ◌+◌, ◌-◌, String, Bool, true, false, ◌||◌, Option, none, some, List, [], ◌∷◌, ◌++◌,
  length, leb, ltb, eqb, ◌&◌, ◌==◌, Dict, insert, if◌then◌else◌,
}
use replication_backend.Json.{Json, str, num, bool}
use replication_backend.Effects.{lift, Error, other_error, ok, throw, Io, pure, ◌>>=◌, ◌>>◌}
use replication_backend.Couch.{Couch, ChangeResult, ChangesResponse, Request, get}
use replication_backend.Casl.{Permissions, UserInfo}
use replication_backend.DocumentFilter.{DocumentFilter}
use replication_backend.Changes.{internal_limit, reaches, filter_changes, max_processing_time_ms}

-- `interface ChangesParams`
pub record ChangesParams : Type 0 where
  pub limit : Option ℕ
  pub since : Option String
  pub include_docs : Option String
  pub others : Dict Json

-- `ChangesResponseStream` with the request log: the text handed to the client so far, whether the
-- envelope is open, the number of results written, and whether the response was ended or aborted.
pub record Response : Type 0 where
  pub sent : List Request
  pub opened : Bool
  pub written : ℕ
  pub text : String
  pub ended : Bool
  pub aborted : Bool

-- `type ChangesProgress`
pub record Progress : Type 0 where
  pub last_seq : String
  pub pending : ℕ
  pub lost_permissions : List String
  pub iterations : ℕ
  pub total_fetched : ℕ

-- What surrounds the request: `Date.now()`, `res.destroyed`, whether a full socket drains again
-- before it fails, and `JSON.stringify` on the values that the response is made of.
pub record Surroundings : Type 0 where
  pub couch : Couch
  pub now : Response → ℕ
  pub destroyed : Response → Bool
  pub drains : Response → Bool
  pub stringify_change : ChangeResult → String
  pub stringify_text : String → String
  pub stringify_texts : List String → String
  pub show_number : ℕ → String

abbrev pub fresh : Response
fresh = record { sent = []; opened = false; written = 0; text = ""; ended = false; aborted = false }

abbrev pub open_text : String
open_text = "{\"results\":["

-- `(params?.limit ?? Infinity) - stream.resultsWritten`
abbrev pub remaining : Option ℕ → ℕ → Option ℕ
remaining none written = none
remaining (some limit) written = some (limit - written)

abbrev pub with_since : Option String → Dict Json → Dict Json
with_since none params = params
with_since (some since) params = insert "since" (str since) params

module _ (env : Surroundings) where
  open env use {
    couch, now, destroyed, drains, stringify_change, stringify_text, stringify_texts, show_number,
  }

  unfoldable pub write_chunk : String → Io Response (Unit {0})
  write_chunk chunk s =
      let s' : Response = record s { text = s.text & chunk } in
      if destroyed s
      then (throw (other_error "client disconnected"), s)
      else if drains s'
      then (ok tt, s')
      else (throw (other_error "client disconnected"), s')

  unfoldable pub open_envelope : Io Response (Unit {0})
  open_envelope s =
      if s.opened then (ok tt, s) else write_chunk open_text (record s { opened = true })

  -- `omit(result, 'doc')` unless the documents were asked for
  abbrev pub shown_item : Bool → ChangeResult → ChangeResult
  shown_item include_docs result = if include_docs then result else record result { doc = none }

  abbrev pub separator : ℕ → String
  separator written = if ltb 0 written then "," else ""

  abbrev pub count_result : Io Response (Unit {0})
  count_result s = (ok tt, record s { written = s.written + 1 })

  unfoldable pub write_item : Bool → ChangeResult → Io Response (Unit {0})
  write_item include_docs result s =
      (do
        write_chunk (separator s.written & stringify_change (shown_item include_docs result))
        count_result)
        s

  unfoldable pub write_items : Bool → List ChangeResult → Io Response (Unit {0})
  write_items include_docs [] = pure tt
  write_items include_docs (result ∷ rest) = do
    write_item include_docs result
    write_items include_docs rest

  unfoldable pub write_results : Bool → List ChangeResult → Io Response (Unit {0})
  write_results include_docs results = do open_envelope; write_items include_docs results

  abbrev pub close_text : String → ℕ → List String → String
  close_text last_seq pending lost =
      "],\"last_seq\":"
      & stringify_text last_seq
      & ",\"pending\":"
      & show_number pending
      & ",\"lostPermissions\":"
      & stringify_texts lost
      & "}"

  abbrev pub end_response : Io Response (Unit {0})
  end_response s = (ok tt, record s { ended = true })

  unfoldable pub finish : String → ℕ → List String → Io Response (Unit {0})
  finish last_seq pending lost = do
    open_envelope
    write_chunk (close_text last_seq pending lost)
    end_response

  module _ (permissions : Permissions) (filter_of : DocumentFilter) (db : String)
      (params : ChangesParams) where
    open permissions use {Ability, ability_for}

    -- `{ ...params, since, limit: internalLimit, include_docs: true }`
    abbrev pub query : Option String → Option ℕ → Dict Json
    query since limit =
        insert "include_docs" (bool true)
          (insert "limit" (num (internal_limit limit)) (with_since since params.others))

    -- The batch with the number of changes fetched for it.
    unfoldable pub get_permitted_changes :
        Ability → Option String → Option ℕ → Io Response (ChangesResponse × ℕ)
    get_permitted_changes ability since limit s =
        let sent = get db "_changes" (query since limit) ∷ s.sent in
        let s' : Response = record s { sent = sent } in
        elim (couch.changes sent) [
          | ok res ↦
              (ok (filter_changes permissions filter_of res ability limit, length res.results), s')
          | throw e ↦ (throw e, s')
        ]

    unfoldable pub is_iteration_complete : ℕ → ℕ → Response → Bool
    is_iteration_complete pending deadline s =
        eqb pending 0 || reaches s.written params.limit || leb deadline (now s) || destroyed s

    abbrev pub include_docs : Bool
    include_docs = elim params.include_docs [ none ↦ false | some text ↦ text == "true" ]

    abbrev pub advance : Progress → ChangesResponse × ℕ → Progress
    advance p (batch, fetched) = record {
      last_seq = batch.last_seq;
      pending = batch.pending;
      lost_permissions = p.lost_permissions ++ batch.lost_permissions;
      iterations = p.iterations + 1;
      total_fetched = p.total_fetched + fetched;
    }

    -- One round of the `do … while`.
    unfoldable pub round : Ability → Progress → Option String → Io Response Progress
    round ability p since s =
        (do
          batch ← get_permitted_changes ability since (remaining params.limit s.written)
          write_results include_docs (batch.0).results
          pure (advance p batch))
          s

    -- The loop; `none` means that the fuel ran out.
    unfoldable pub iterate :
        ℕ → Ability → ℕ → Progress → Option String → Io Response (Option Progress)
    iterate zero ability deadline p since s = (ok none, s)
    iterate (suc fuel) ability deadline p since s =
        let (r, s') = round ability p since s in
        elim r [
          | throw e ↦ (throw e, s')
          | ok p' ↦
              let rest = iterate fuel ability deadline p' (some p'.last_seq) s' in
              if is_iteration_complete p'.pending deadline s' then (ok (some p'), s') else rest
        ]

    abbrev pub no_progress : Progress
    no_progress = record {
      last_seq = "";
      pending = 0;
      lost_permissions = [];
      iterations = 0;
      total_fetched = 0;
    }

    unfoldable pub stream_permitted_changes :
        ℕ → Option UserInfo → ℕ → Io Response (Option Progress)
    stream_permitted_changes fuel user deadline = lift (ability_for user) >>= λ ability.
        iterate fuel ability deadline no_progress params.since

    -- Nothing sent yet: the exception goes on; otherwise the connection is cut.
    unfoldable pub abort_stream_or_rethrow : Error → Io Response (Option (Unit {0}))
    abort_stream_or_rethrow e s =
        if s.text == "" then (throw e, s) else (ok (some tt), record s { aborted = true })

    abbrev pub finish_summary : Option Progress → Io Response (Option (Unit {0}))
    finish_summary none = pure none
    finish_summary (some p) = do finish p.last_seq p.pending p.lost_permissions; pure (some tt)

    unfoldable pub changes : ℕ → Option UserInfo → Io Response (Option (Unit {0}))
    changes fuel user s =
        let (r, s') =
          (do
            summary ← stream_permitted_changes fuel user (now s + max_processing_time_ms)
            finish_summary summary)
            s in
        elim r [ ok done ↦ (ok done, s') | throw e ↦ abort_stream_or_rethrow e s' ]
