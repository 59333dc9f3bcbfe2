-- ===== src/Backoff.antt =====
-- src/common/exponential-backoff.ts. Delays are whole milliseconds; attempts are whole numbers, so
-- `Math.floor` and the maximum with 0 change nothing.
pub mod Delays
pub mod Saturation
mod Tests
use replication_backend.Prelude.{
  ℕ, zero, suc, ◌+◌, ◌-◌, ◌*◌, ◌^◌, min, Bool, true, false, Option, not, leb, ltb, eqb, or_else,
  if◌then◌else◌, ◌&&◌,
}

-- `Required<ExponentialBackoffOptions>`
pub record Options : Type 0 where
  pub initial_ms : ℕ
  pub max_ms : ℕ
  pub max_exponent : ℕ

-- `interface ExponentialBackoffOptions`
pub record GivenOptions : Type 0 where
  pub initial_ms : Option ℕ
  pub max_ms : Option ℕ
  pub max_exponent : Option ℕ

-- `DEFAULT_BACKOFF_OPTIONS`
abbrev pub default_backoff_options : Options
default_backoff_options = record { initial_ms = 1000; max_ms = 60000; max_exponent = 6 }

-- `{ ...DEFAULT_BACKOFF_OPTIONS, ...options }`
unfoldable pub with_defaults : GivenOptions → Options
with_defaults given = record {
  initial_ms = or_else given.initial_ms default_backoff_options.initial_ms;
  max_ms = or_else given.max_ms default_backoff_options.max_ms;
  max_exponent = or_else given.max_exponent default_backoff_options.max_exponent;
}

unfoldable pub exponential_backoff_delay : ℕ → Options → ℕ
exponential_backoff_delay attempt options =
    min options.max_ms (options.initial_ms * 2 ^ min attempt options.max_exponent)

-- `class ExponentialBackoff`
pub record Backoff : Type 0 where
  pub failure_count : ℕ
  pub options : Options

unfoldable pub new_backoff : GivenOptions → Backoff
new_backoff given = record { failure_count = 0; options = with_defaults given }

unfoldable pub current_delay : Backoff → ℕ
current_delay b =
    if eqb b.failure_count 0 then 0 else exponential_backoff_delay (b.failure_count - 1) b.options

unfoldable pub record_failure : Backoff → Backoff × ℕ
record_failure b =
    let b' : Backoff = record b { failure_count = b.failure_count + 1 } in (b', current_delay b')

unfoldable pub reset : Backoff → Backoff
reset b = record b { failure_count = 0 }

unfoldable pub is_saturated : Backoff → Bool
is_saturated b = leb b.options.max_ms (current_delay b)

unfoldable pub just_saturated : Backoff → Bool
just_saturated b =
    if not (is_saturated b)
    then false
    else if leb b.failure_count 1
    then true
    else ltb (exponential_backoff_delay (b.failure_count - 2) b.options) b.options.max_ms
