-- ===== src/RulesLoading/Startup.antt =====
-- The loop that loads the permission document at the start ends, and what it ends with.
use replication_backend.Prelude.{
  ℕ, zero, suc, ◌+◌, ◌-◌, ◌≤◌, String, true, false, Option, none, some, is_some, ltb, ◌≡◌, refl, ap,
  arith, inl, inr, Bool-cases, Option-cases,
}
use replication_backend.Effects.{Error}
use replication_backend.Backoff.{
  Options, Backoff, exponential_backoff_delay, record_failure, current_delay, new_backoff,
  with_defaults,
}
use replication_backend.RulesLoading.{
  Service, Around, Loaded, returned, threw, out_of_fuel, attempt, load_loop,
  load_initial_permissions, init_backoff, init_max_total_ms,
}
use replication_backend.RulesLoading.Attempts.{Attempted, attempt-Attempted}

abbrev init_options : Options
init_options = record { initial_ms = 1000; max_ms = 10000; max_exponent = 6 }

abbrev after_failures : ℕ → Backoff
after_failures k = record { failure_count = k; options = init_options }

-- The waits after the first k failures, all together.
abbrev total_wait : ℕ → ℕ
total_wait zero = 0
total_wait (suc k) = total_wait k + exponential_backoff_delay k init_options

init_lem : init_backoff ≡ after_failures 0
unfolding new_backoff with_defaults
init_lem = refl

next_failure : (k : ℕ) → (record_failure (after_failures k)).0 ≡ after_failures (suc k)
unfolding record_failure
next_failure k = ap after_failures (omega arith)

next_delay :
    (k : ℕ)
    → current_delay (record_failure (after_failures k)).0 ≡ exponential_backoff_delay k init_options
unfolding record_failure current_delay
next_delay k = let e : k + 1 - 1 ≡ k = omega arith in ground (arith, e)

total_9 : total_wait 9 ≡ 65000
unfolding exponential_backoff_delay
total_9 = refl

-- The loop returns with permissions, or throws after its time is up; it does not go on without end.
abbrev pub LoadEnds : ℕ → Loaded × Service → Type 0
LoadEnds started_at (returned, s) = is_some s.rules.permission ≡ true
LoadEnds started_at (threw e, s) = started_at + 60000 ≤ s.time
LoadEnds started_at (out_of_fuel, s) = ⊥

module _ (around : Around) (db : String) where
  times_up :
      (fuel started_at : ℕ) (last_error : Option Error) (backoff : Backoff) (s : Service)
      → ltb (s.time - started_at) init_max_total_ms ≡ false
      → LoadEnds started_at (load_loop around db (suc fuel) started_at last_error backoff s)
  unfolding load_loop
  times_up fuel started_at last_error backoff s h = rw (h, load_loop) (ground (arith, h))

  -- An attempt that returns has permissions; one that failed has waited.
  returned_outcome :
      (delay time : ℕ) (p : Option Error × Service)
      → p.0 ≡ none
      → Attempted around db delay time p
      → is_some p.1.rules.permission ≡ true
  returned_outcome delay time (none, s') n h = h
  returned_outcome delay time (some e, s') n h = cc

  failed_outcome :
      (delay time : ℕ) (e : Error) (p : Option Error × Service)
      → p.0 ≡ some e
      → Attempted around db delay time p
      → time + delay ≤ p.1.time
  failed_outcome delay time e (none, s') n h = cc
  failed_outcome delay time e (some error, s') n h = h

  returns :
      (backoff : Backoff) (s : Service)
      → (attempt around db backoff s).0 ≡ none
      → is_some (attempt around db backoff s).1.rules.permission ≡ true
  returns backoff s n =
      returned_outcome (current_delay (record_failure backoff).0) s.time
        (attempt around db backoff s) n (attempt-Attempted around db backoff s)

  failed_waits :
      (k : ℕ) (e : Error) (s : Service)
      → (attempt around db (after_failures k) s).0 ≡ some e
      → s.time + exponential_backoff_delay k init_options
        ≤ (attempt around db (after_failures k) s).1.time
  failed_waits k e s n = rw (next_delay k) at (
      failed_outcome (current_delay (record_failure (after_failures k)).0) s.time e
        (attempt around db (after_failures k) s) n
        (attempt-Attempted around db (after_failures k) s))

  loop-LoadEnds :
      (left k started_at : ℕ) (last_error : Option Error) (s : Service)
      → left + k ≡ 9
      → started_at + total_wait k ≤ s.time
      → LoadEnds started_at
          (load_loop around db (suc left) started_at last_error (after_failures k) s)
  unfolding load_loop
  loop-LoadEnds zero k started_at last_error s e t =
      let nine : k ≡ 9 = omega (arith, e) in
      let spent : started_at + total_wait 9 ≤ s.time = rw nine at t in
      times_up 0 started_at last_error (after_failures k) s (ground (arith, spent, total_9))
  loop-LoadEnds (suc left) k started_at last_error s e t =
      let backoff : Backoff = after_failures k in
      let p = attempt around db backoff s in
      elim (Bool-cases (ltb (s.time - started_at) init_max_total_ms)) [
        | inr h ↦ times_up (suc left) started_at last_error backoff s h
        | inl h ↦ elim (Option-cases p.0) [
          | inl n ↦
              let stop : load_loop around db (suc (suc left)) started_at last_error backoff s
                  ≡ (returned, p.1) =
                ground (arith, h, n) in
              rw stop (returns backoff s n)
          | inr (error, n) ↦
              let more : load_loop around db (suc (suc left)) started_at last_error backoff s
                  ≡ load_loop around db (suc left) started_at (some error)
                      (record_failure backoff).0 p.1 =
                ground (arith, h, n) in
              let waited = failed_waits k error s n in
              rw more (
                rw (next_failure k) (
                  loop-LoadEnds left (suc k) started_at (some error) p.1 (omega (arith, e))
                    (omega (arith, t, waited))))
        ]
      ]

  -- Whatever CouchDB answers and however long it takes: ten rounds of the loop that loads the
  -- permission document are enough for it to end. It returns with permissions in force, or it throws
  -- when 60 seconds have passed.
  pub load_initial_permissions-LoadEnds :
      (s : Service) → LoadEnds s.time (load_initial_permissions around db 10 s)
  unfolding load_initial_permissions
  load_initial_permissions-LoadEnds s =
      rw init_lem (loop-LoadEnds 9 0 s.time none s refl (omega arith))
