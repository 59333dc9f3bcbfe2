-- ===== src/Backoff/Tests.antt =====
-- Tests of the backoff.
use replication_backend.Backoff.{Backoff}

abbrev quick : Backoff
quick = record {
  failure_count = 0;
  options = record { initial_ms = 100; max_ms = 300; max_exponent = 6 };
}
