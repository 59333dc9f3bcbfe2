-- ===== src/Backoff/Delays.antt =====
-- The delays of src/common/exponential-backoff.ts: never above the cap, never falling.
use native.Mathlib.Nat.{pow-le-pow_right}
use replication_backend.Prelude.{ℕ, zero, suc, ◌+◌, ◌-◌, ◌*◌, ◌^◌, ◌≤◌, min, ◌≡◌, refl, ◌∙◌, arith}
use replication_backend.Backoff.{
  Options, Backoff, exponential_backoff_delay, current_delay, record_failure,
}

times_mono : (c x y : ℕ) → x ≤ y → c * x ≤ c * y
times_mono c x y h = grind arith

pub delay_mono :
    (a b : ℕ) (options : Options)
    → a ≤ b
    → exponential_backoff_delay a options ≤ exponential_backoff_delay b options
unfolding exponential_backoff_delay
delay_mono a b options h =
    let e : ℕ = options.max_exponent in
    omega (
      arith,
      times_mono options.initial_ms (2 ^ min a e) (2 ^ min b e)
          (pow-le-pow_right {n = 2} (omega arith) (omega arith)),
    )

-- The k-th wait of a streak of failures: the first is the initial delay.
abbrev pub failed : ℕ → Backoff → Backoff
failed zero b = b
failed (suc k) b = (record_failure (failed k b)).0

pub failure_count-failed : (k : ℕ) (b : Backoff) → (failed k b).failure_count ≡ b.failure_count + k
unfolding record_failure
failure_count-failed zero b = omega arith
failure_count-failed (suc k) b = omega (arith, failure_count-failed k b)

pub options-failed : (k : ℕ) (b : Backoff) → (failed k b).options ≡ b.options
unfolding record_failure
options-failed zero b = refl
options-failed (suc k) b = options-failed k b

count-record_failure : (b : Backoff) → (record_failure b).0.failure_count ≡ b.failure_count + 1
unfolding record_failure
count-record_failure b = refl

delay-record_failure :
    (b : Backoff) → (record_failure b).1 ≡ exponential_backoff_delay b.failure_count b.options
unfolding record_failure current_delay
delay-record_failure b =
    let e : b.failure_count + 1 - 1 ≡ b.failure_count = omega arith in ground (arith, e)

delay-le-max : (n : ℕ) (o : Options) → exponential_backoff_delay n o ≤ o.max_ms
unfolding exponential_backoff_delay
delay-le-max n o = omega arith

delay_first :
    (b : Backoff)
    → b.failure_count ≡ 0
    → exponential_backoff_delay b.failure_count b.options
      ≡ min b.options.max_ms b.options.initial_ms
unfolding exponential_backoff_delay
delay_first b fresh =
    let e : min b.failure_count b.options.max_exponent ≡ 0 = omega arith in rw e (omega arith)

-- In a streak of failures each wait is at least as long as the one before, at most the cap, and
-- the first is the initial delay or the cap, whichever is less.
pub waits :
    (k : ℕ) (b : Backoff)
    → b.failure_count ≡ 0
    → ((record_failure b).1 ≡ min b.options.max_ms b.options.initial_ms)
      × ((record_failure (failed k b)).1 ≤ b.options.max_ms)
      × ((record_failure (failed k b)).1 ≤ (record_failure (failed (suc k) b)).1)
waits k b fresh =
    let o : Options = b.options in
    let c = failure_count-failed k b in
    let same = options-failed k b in
    let here = delay-record_failure b in
    let now = delay-record_failure (failed k b) in
    let later = delay-record_failure (failed (suc k) b) in
    let more = count-record_failure (failed k b) in
    (
      here ∙ delay_first b fresh,
      rw now (rw same (delay-le-max (failed k b).failure_count o)),
      rw (now, later)
          (rw (same, options-failed (suc k) b)
            (delay_mono (failed k b).failure_count (failed (suc k) b).failure_count o
              (omega (arith, more)))),
    )
