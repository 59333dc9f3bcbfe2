-- ===== src/Backoff/Saturation.antt =====
-- `isSaturated` and `justSaturated` of src/common/exponential-backoff.ts.
use replication_backend.Prelude.{ℕ, zero, suc, ◌+◌, ◌-◌, ◌<◌, ◌≡◌, arith, true, ◌&&◌, not}
use replication_backend.Backoff.{
  Options, Backoff, current_delay, record_failure, is_saturated, just_saturated,
}
use replication_backend.Backoff.Delays.{delay_mono}

abbrev state : ℕ → Options → Backoff
state n o = record { failure_count = n; options = o }

saturated_stays :
    (n : ℕ) (o : Options)
    → is_saturated (state n o) ≡ true
    → is_saturated (record_failure (state n o)).0 ≡ true
unfolding is_saturated record_failure current_delay
saturated_stays zero o h = ground arith
saturated_stays (suc n) o h =
    let e : suc n + 1 - 1 ≡ suc n = omega arith in
    let e' : suc n - 1 ≡ n = omega arith in
    ground (arith, e, e', delay_mono n (suc n) o (omega arith))

just_saturated-state :
    (n : ℕ) (o : Options)
    → 0 < o.max_ms
    → just_saturated (record_failure (state n o)).0
      ≡ (is_saturated (record_failure (state n o)).0 && not (is_saturated (state n o)))
unfolding is_saturated just_saturated record_failure current_delay
just_saturated-state zero o h = ground arith
just_saturated-state (suc n) o h =
    let e : suc n + 1 - 1 ≡ suc n = omega arith in
    let e' : suc n - 1 ≡ n = omega arith in
    let e'' : suc n + 1 - 2 ≡ n = omega arith in
    ground (arith, e, e', e'', delay_mono n (suc n) o (omega arith))

-- One failure more after saturation is still saturated.
pub record_failure-is_saturated :
    (b : Backoff) → is_saturated b ≡ true → is_saturated (record_failure b).0 ≡ true
record_failure-is_saturated b h = saturated_stays b.failure_count b.options h

-- `justSaturated` marks the one failure that first brought the delay to its cap: recording a
-- failure gives it exactly when the delay is now at the cap and was below it before.
pub just_saturated_iff :
    (b : Backoff)
    → 0 < b.options.max_ms
    → just_saturated (record_failure b).0
      ≡ (is_saturated (record_failure b).0 && not (is_saturated b))
just_saturated_iff b h = just_saturated-state b.failure_count b.options h
