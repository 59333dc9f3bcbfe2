-- ===== src/DocumentChanges.antt =====
-- src/couchdb/document-changes.service.ts: the longpoll feed of the changes of one database.
pub mod Events
pub mod Logged
mod Tests
use replication_backend.Prelude.{
  ℕ, zero, suc, ◌%◌, String, Bool, true, false, not, ◌&&◌, ◌||◌, Option, none, some, List, [], ◌∷◌,
  ◌++◌, map, Dict, lookup, is_some, eqb, if◌then◌else◌,
}
use replication_backend.Json.{Json, str, num}
use replication_backend.Effects.{Error, Result, ok, throw}
use replication_backend.Couch.{World, Request, Couch, ChangeResult, ChangesResponse, get, send}
use replication_backend.Backoff.{
  Backoff, new_backoff, record_failure, reset, current_delay, is_saturated, just_saturated,
}
use replication_backend.ErrorClassification.{
  ErrorTexts, is_auth_http_error, is_likely_transient_error,
}

-- `interface DocumentChangeEvent`
pub record DocumentChangeEvent : Type 0 where
  pub id : String
  pub seq : String
  pub deleted : Bool

abbrev pub event_of : ChangeResult → DocumentChangeEvent
event_of result = record { id = result.id; seq = result.seq; deleted = result.deleted }

pub data LogLevel : Type 0 where
  log warn error : LogLevel

-- What `startFeed` keeps, what it has emitted and logged, and the waits before its retries.
pub record Feed : Type 0 where
  pub last_seq : String
  pub backoff : Backoff
  pub emitted : List DocumentChangeEvent
  pub logged : List LogLevel
  pub waits : List ℕ

abbrev pub new_feed : Feed
new_feed = record {
  last_seq = "now";
  backoff = new_backoff (record { initial_ms = none; max_ms = none; max_exponent = none });
  emitted = [];
  logged = [];
  waits = [];
}

-- `getParams`
abbrev pub get_params : Feed → Dict Json
get_params feed =
    ("feed", str "longpoll") ∷ ("since", str feed.last_seq) ∷ ("timeout", num 50000) ∷ []

abbrev pub saturated_log_every_n : ℕ
saturated_log_every_n = 30

-- `logFeedError`: the level of the line, if one is logged
unfoldable pub log_feed_error : ErrorTexts → Error → Backoff → Option LogLevel
log_feed_error texts e backoff =
    if not (is_saturated backoff)
    then some
        (if is_likely_transient_error texts e && not (is_auth_http_error e) then log else warn)
    else if just_saturated backoff || eqb (backoff.failure_count % saturated_log_every_n) 0
    then some error
    else none

abbrev pub add_line : Option LogLevel → List LogLevel → List LogLevel
add_line none lines = lines
add_line (some level) lines = lines ++ level ∷ []

-- `catchError` and the delay of `retry`
unfoldable pub on_error : ErrorTexts → Error → Feed → Feed
on_error texts e feed =
    let backoff = (record_failure feed.backoff).0 in
    record feed {
      backoff = backoff;
      logged = add_line (log_feed_error texts e backoff) feed.logged;
      waits = feed.waits ++ current_delay backoff ∷ [];
    }

-- `next`
unfoldable pub on_next : ChangesResponse → Feed → Feed
on_next changes feed = record feed {
  backoff = reset feed.backoff;
  last_seq = changes.last_seq;
  emitted = feed.emitted ++ map event_of changes.results;
}

abbrev pub on_answer : ErrorTexts → Result ChangesResponse → Feed → Feed
on_answer texts (ok changes) feed = on_next changes feed
on_answer texts (throw e) feed = on_error texts e feed

-- One round of the feed: a request, its answer, and what follows.
unfoldable pub poll : ErrorTexts → Couch → String → World × Feed → World × Feed
poll texts couch db (w, feed) =
    let (answer, w') = send (get db "_changes" (get_params feed)) couch.changes w in
    (w', on_answer texts answer feed)

-- `repeat`, `retry`: as many rounds as the feed lives
unfoldable pub polls : ErrorTexts → Couch → String → ℕ → World × Feed → World × Feed
polls texts couch db zero s = s
polls texts couch db (suc n) s = polls texts couch db n (poll texts couch db s)

-- `getChanges`: the feed of a database is started once.
abbrev pub get_changes : String → Dict Feed → Dict Feed
get_changes db feeds = if is_some (lookup db feeds) then feeds else (db, new_feed) ∷ feeds
