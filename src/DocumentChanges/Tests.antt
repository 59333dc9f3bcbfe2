-- ===== src/DocumentChanges/Tests.antt =====
-- Tests of the feed of document changes.
use replication_backend.Prelude.{ℕ, some, ◌≡◌, refl, ◌⊎◌, ◌↔◌, ◌≤◌, ◌%◌}
use replication_backend.Effects.{other_error}
use replication_backend.Backoff.Delays.{failed}
use replication_backend.DocumentChanges.{new_feed, error, log_feed_error, polls}
use replication_backend.DocumentChanges.Events.{IsFeed, answered_events, polls-IsFeed}
use replication_backend.DocumentChanges.Logged.{log_feed_error-error_iff}
use replication_backend.Fixtures.{one_child, start, plain_texts}

polls-IsFeed_example :
    IsFeed one_child "app" (polls plain_texts one_child "app" 2 (start, new_feed)).0.sent
    × ((polls plain_texts one_child "app" 2 (start, new_feed)).1.emitted
        ≡ answered_events one_child "app"
            (polls plain_texts one_child "app" 2 (start, new_feed)).0.sent)
polls-IsFeed_example = polls-IsFeed one_child "app" plain_texts 2 start refl

log_feed_error-error_iff_example :
    (log_feed_error plain_texts (other_error "down") (failed 60 new_feed.backoff) ≡ some error)
    ↔ ((◌≡◌ {A = ℕ} 60 7) ⊎ ((7 ≤ 60) × (60 % 30 ≡ 0)))
log_feed_error-error_iff_example = log_feed_error-error_iff plain_texts (other_error "down") 60
