-- ===== src/DocumentChanges/Events.antt =====
-- What a feed asks for and emits, over any number of rounds.
use replication_backend.Prelude.{
  ℕ, zero, suc, String, List, [], ◌∷◌, ◌++◌, map, append-nil, ◌≡◌, refl, ◌∙◌, ap, sym,
}
use replication_backend.Json.{str, num}
use replication_backend.Effects.{Result, ok, throw}
use replication_backend.Couch.{World, Request, Couch, ChangesResponse, get}
use replication_backend.ErrorClassification.{ErrorTexts}
use replication_backend.DocumentChanges.{
  DocumentChangeEvent, event_of, Feed, new_feed, get_params, on_answer, on_next, on_error, poll,
  polls,
}

abbrev pub last_seq_of : Result ChangesResponse → String → String
last_seq_of (ok changes) before = changes.last_seq
last_seq_of (throw e) before = before

abbrev pub events_of : Result ChangesResponse → List DocumentChangeEvent
events_of (ok changes) = map event_of changes.results
events_of (throw e) = []

module _ (couch : Couch) (db : String) where
  -- Where to resume after the requests of a history, the latest first: behind the last answer.
  abbrev pub resume : List Request → String
  resume [] = "now"
  resume (q ∷ history) = last_seq_of (couch.changes (q ∷ history)) (resume history)

  -- The events of all answers, in their order.
  abbrev pub answered_events : List Request → List DocumentChangeEvent
  answered_events [] = []
  answered_events (q ∷ history) = answered_events history ++ events_of (couch.changes (q ∷ history))

  -- Each request is one for the changes since the place to resume at.
  abbrev pub IsFeed : List Request → Type 0
  IsFeed [] = Unit {0}
  IsFeed (q ∷ history) =
      (q
        ≡ get db "_changes" (
            ("feed", str "longpoll")
            ∷ ("since", str (resume history))
            ∷ ("timeout", num 50000)
            ∷ []))
      × IsFeed history

  abbrev Follows : World × Feed → Type 0
  Follows (w, feed) =
      (feed.last_seq ≡ resume w.sent) × (feed.emitted ≡ answered_events w.sent) × IsFeed w.sent

  last_seq-on_answer :
      (texts : ErrorTexts) (answer : Result ChangesResponse) (feed : Feed)
      → (on_answer texts answer feed).last_seq ≡ last_seq_of answer feed.last_seq
  unfolding on_next on_error
  last_seq-on_answer texts (ok changes) feed = refl
  last_seq-on_answer texts (throw e) feed = refl

  emitted-on_answer :
      (texts : ErrorTexts) (answer : Result ChangesResponse) (feed : Feed)
      → (on_answer texts answer feed).emitted ≡ feed.emitted ++ events_of answer
  unfolding on_next on_error
  emitted-on_answer texts (ok changes) feed = refl
  emitted-on_answer texts (throw e) feed = sym (append-nil feed.emitted)

  poll-Follows :
      (texts : ErrorTexts) (w : World) (feed : Feed)
      → Follows (w, feed)
      → Follows (poll texts couch db (w, feed))
  unfolding poll
  poll-Follows texts w feed h =
      let q : Request = get db "_changes" (get_params feed) in
      let answer : Result ChangesResponse = couch.changes (q ∷ w.sent) in
      (
        last_seq-on_answer texts answer feed ∙ ap (last_seq_of answer) h.0,
        emitted-on_answer texts answer feed ∙ ap (λ events. events ++ events_of answer) h.1,
        (
          ap
              (λ since.
                get db "_changes"
                  (("feed", str "longpoll") ∷ ("since", str since) ∷ ("timeout", num 50000) ∷ []))
              h.0,
          h.2,
        ),
      )

  polls-Follows :
      (texts : ErrorTexts) (n : ℕ) (w : World) (feed : Feed)
      → Follows (w, feed)
      → Follows (polls texts couch db n (w, feed))
  unfolding polls
  polls-Follows texts zero w feed h = h
  polls-Follows texts (suc n) w feed h =
      let (w', feed') = poll texts couch db (w, feed) in
      polls-Follows texts n w' feed' (poll-Follows texts w feed h)

  -- Over any number of rounds, failures among them: each request asks for the changes behind the last
  -- answer that came, and the feed emits the changes of all answers, each once and in their order.
  pub polls-IsFeed :
      (texts : ErrorTexts) (n : ℕ) (w : World)
      → w.sent ≡ []
      → IsFeed (polls texts couch db n (w, new_feed)).0.sent
        × ((polls texts couch db n (w, new_feed)).1.emitted
            ≡ answered_events (polls texts couch db n (w, new_feed)).0.sent)
  polls-IsFeed texts n w e =
      let h = polls-Follows texts n w new_feed (rw e (refl, refl, tt)) in (h.2, h.1)
