-- ===== src/DocumentChanges/Logged.antt =====
-- When a failing feed logs an error.
use replication_backend.Prelude.{
  ℕ, zero, suc, ◌-◌, ◌%◌, ◌≤◌, ◌<◌, min, true, false, not, ◌&&◌, some, eqb, leb, ◌≡◌, refl, ◌∙◌, ap,
  arith, ◌⊎◌, ◌↔◌, inl, inr, Bool-cases,
}
use replication_backend.Effects.{Error}
use replication_backend.Backoff.{
  Backoff, default_backoff_options, exponential_backoff_delay, current_delay, record_failure,
  is_saturated, just_saturated, new_backoff, with_defaults,
}
use replication_backend.Backoff.Delays.{failed, delay_mono}
use replication_backend.ErrorClassification.{
  ErrorTexts, is_likely_transient_error, is_auth_http_error,
}
use replication_backend.DocumentChanges.{log_feed_error, error, new_feed}

abbrev after_failures : ℕ → Backoff
after_failures k = record { failure_count = k; options = default_backoff_options }

failed_lem : (k : ℕ) → failed k new_feed.backoff ≡ after_failures k
unfolding new_backoff with_defaults record_failure
failed_lem zero = refl
failed_lem (suc k) = ap (λ b. (record_failure b).0) (failed_lem k) ∙ ap after_failures (omega arith)

delay_5 : exponential_backoff_delay 5 default_backoff_options ≡ 32000
unfolding exponential_backoff_delay
delay_5 = refl

delay_capped : (n : ℕ) → 6 ≤ n → exponential_backoff_delay n default_backoff_options ≡ 60000
unfolding exponential_backoff_delay
delay_capped n h = let e : min n 6 ≡ 6 = omega arith in rw e refl

unsaturated : (k : ℕ) → k < 7 → is_saturated (after_failures k) ≡ false
unfolding is_saturated current_delay
unsaturated k h =
    ground (arith, delay_mono (k - 1) 5 default_backoff_options (omega arith), delay_5)

saturated : (k : ℕ) → 7 ≤ k → is_saturated (after_failures k) ≡ true
unfolding is_saturated current_delay
saturated k h = ground (arith, delay_capped (k - 1) (omega arith))

just_at_7 : (k : ℕ) → 7 ≤ k → just_saturated (after_failures k) ≡ eqb k 7
unfolding just_saturated
just_at_7 k h = elim (Bool-cases (eqb k 7)) [
  | inl e ↦
      let seven : k ≡ 7 = ground (arith, e) in ground (arith, saturated k h, e, seven, delay_5)
  | inr e ↦ ground (arith, saturated k h, e, delay_capped (k - 2) (ground (arith, e)))
]

level_iff :
    (texts : ErrorTexts) (e : Error) (k : ℕ)
    → (log_feed_error texts e (after_failures k) ≡ some error)
      ↔ ((k ≡ 7) ⊎ ((7 ≤ k) × (k % 30 ≡ 0)))
unfolding log_feed_error
level_iff texts e k = elim (Bool-cases (leb 7 k)) [
  | inl l ↦
      let late : 7 ≤ k = ground (arith, l) in
      let sat = saturated k late in
      let just = just_at_7 k late in
      elim (Bool-cases (eqb k 7)) [
        | inl b ↦ (λ h. inl (ground (arith, b)), λ h. ground (arith, sat, just, b))
        | inr b ↦ elim (Bool-cases (eqb (k % 30) 0)) [
          | inl c ↦ (λ h. inr (late, ground (arith, c)), λ h. ground (arith, sat, just, b, c))
          | inr c ↦ (
            λ h. absurd (ground (arith, sat, just, b, c, h)),
            λ h. absurd (elim h [ inl x ↦ ground (arith, b, x) | inr x ↦ ground (arith, c, x) ]),
          )
        ]
      ]
  | inr l ↦
      let early : k < 7 = ground (arith, l) in
      let unsat = unsaturated k early in
      (
        λ h.
            absurd
              (elim (Bool-cases (is_likely_transient_error texts e && not (is_auth_http_error e))) [
                | inl b ↦ ground (arith, unsat, b, h)
                | inr b ↦ ground (arith, unsat, b, h)
              ]),
        λ h. absurd (elim h [ inl x ↦ omega (arith, early) | inr x ↦ omega (arith, early, x.0) ]),
      )
]

-- In a streak of k failures, the last is logged as an error exactly when it is the seventh, with
-- which the delay reaches its cap, or a later one with k a multiple of 30; whatever the errors are.
pub log_feed_error-error_iff :
    (texts : ErrorTexts) (e : Error) (k : ℕ)
    → (log_feed_error texts e (failed k new_feed.backoff) ≡ some error)
      ↔ ((k ≡ 7) ⊎ ((7 ≤ k) × (k % 30 ≡ 0)))
log_feed_error-error_iff texts e k = rw (failed_lem k) (level_iff texts e k)
