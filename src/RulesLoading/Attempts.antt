-- ===== src/RulesLoading/Attempts.antt =====
-- One attempt to load the permission document at the start: what it leaves, and how long it takes.
use replication_backend.Prelude.{
  ℕ, ◌+◌, ◌≤◌, String, true, Option, none, some, is_some, ◌≡◌, refl, arith, inl, inr, Bool-cases,
}
use replication_backend.Effects.{Error, Result-cases}
use replication_backend.Backoff.{Backoff, record_failure, current_delay}
use replication_backend.RulesConfig.{RulesConfig, bootstrap_permissions}
use replication_backend.Rules.{RulesState}
use replication_backend.RulesLoading.{
  Service, Around, read_permission, wait, permission_data, attempt, keep_or_set, is_not_found,
  ensure_defaults, enter_bootstrap_mode,
}

keeps_or_sets :
    (config : RulesConfig) (s : RulesState) → is_some (keep_or_set config s).permission ≡ true
keeps_or_sets config s = elim (Bool-cases (is_some s.permission)) [
  | inl e ↦ rw e e
  | inr e ↦ rw e refl
]

module _ (around : Around) (db : String) where
  -- What an attempt means: to return is to have permissions; to go round again is to have waited.
  abbrev pub Attempted : ℕ → ℕ → Option Error × Service → Type 0
  Attempted delay time (none, s) = is_some s.rules.permission ≡ true
  Attempted delay time (some e, s) = time + delay ≤ s.time

  pub attempt-Attempted :
      (backoff : Backoff) (s : Service)
      → Attempted (current_delay (record_failure backoff).0) s.time (attempt around db backoff s)
  unfolding attempt
  attempt-Attempted backoff s =
      let s1 : Service = (read_permission around db s).1 in
      let delay : ℕ = current_delay (record_failure backoff).0 in
      elim (Result-cases (permission_data around db (read_permission around db s).0)) [
        | inl ((config, doc), k) ↦
            let stored : attempt around db backoff s ≡ (
              none,
              ensure_defaults around db doc (record s1 { rules = keep_or_set config s1.rules }),
            ) =
              ground (arith, k) in
            rw stored (keeps_or_sets config s1.rules)
        | inr (e, k) ↦ elim (Bool-cases (is_not_found e)) [
          | inl b ↦
              let boot : attempt around db backoff s ≡ (none, enter_bootstrap_mode around db s1) =
                ground (arith, k, b) in
              rw boot (keeps_or_sets bootstrap_permissions s1.rules)
          | inr b ↦ elim (Bool-cases (is_some s1.rules.permission)) [
            | inl c ↦
                let known : attempt around db backoff s ≡ (none, s1) = ground (arith, k, b, c) in
                rw known c
            | inr c ↦
                let waited : Service = wait around db delay s1 in
                elim (Bool-cases (is_some waited.rules.permission)) [
                  | inl d ↦
                      let came : attempt around db backoff s ≡ (none, waited) =
                        ground (arith, k, b, c, d) in
                      rw came d
                  | inr d ↦
                      let again : attempt around db backoff s ≡ (some e, waited) =
                        ground (arith, k, b, c, d) in
                      rw again (omega arith)
                ]
          ]
        ]
      ]
