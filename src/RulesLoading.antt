-- ===== src/RulesLoading.antt =====
-- How src/permissions/rules/rules.service.ts gets the permission document: at the start, and after
-- each change of it.
pub mod Fetch
pub mod Startup
pub mod Update
pub mod Attempts
mod Tests
use replication_backend.Prelude.{
  ℕ, zero, suc, ◌+◌, ◌-◌, ◌*◌, ◌^◌, min, String, Bool, true, false, Option, none, some, List, [],
  ◌∷◌, ◌++◌, ◌&◌, lookup, is_some, eqb, ltb, or_else, if◌then◌else◌,
}
use replication_backend.Json.{DatabaseDocument}
use replication_backend.Effects.{Error, http_exception, other_error, Result, ok, throw}
use replication_backend.Casl.{Lodash}
use replication_backend.Couch.{World, Request, Couch, get, send}
use replication_backend.Backoff.{Backoff, new_backoff, record_failure, current_delay}
use replication_backend.ErrorClassification.{ErrorTexts, is_likely_transient_error}
use replication_backend.RulesConfig.{
  RulesConfig, valid_rules_config, permission_doc_id, bootstrap_permissions,
}
use replication_backend.Rules.{
  RulesState, set_permission, apply_updated_permission, apply_permission_deletion,
}
use replication_backend.WriteBack.{ensure_managed_defaults}

abbrev pub update_fetch_max_retries : ℕ
update_fetch_max_retries = 3

abbrev pub init_max_total_ms : ℕ
init_max_total_ms = 60000

abbrev pub init_max_delay_ms : ℕ
init_max_delay_ms = 10000

-- The wait before a retry
abbrev pub retry_delay_ms : ℕ → ℕ
retry_delay_ms retry_count = min (1000 * 2 ^ (retry_count - 1)) init_max_delay_ms

-- What the service keeps, with the requests sent, the time, and the waits so far.
pub record Service : Type 0 where
  pub rules : RulesState
  pub world : World
  pub time : ℕ
  pub waits : List ℕ

pub data Loaded : Type 0 where
  returned : Loaded
  threw : Error → Loaded
  out_of_fuel : Loaded

abbrev pub is_not_found : Error → Bool
is_not_found (http_exception status message) = eqb status 404
is_not_found _ = false

abbrev pub keep_or_set : RulesConfig → RulesState → RulesState
keep_or_set config s = if is_some s.permission then s else set_permission config s

abbrev pub init_backoff : Backoff
init_backoff =
    new_backoff (record { initial_ms = none; max_ms = some init_max_delay_ms; max_exponent = none })

-- Around the service: how long CouchDB takes to answer the latest request, how much later than asked
-- a timer fires, and what the changes feed makes of the rules by the given time.
pub record Around : Type 0 where
  pub couch : Couch
  pub texts : ErrorTexts
  pub lodash : Lodash
  pub latency : List Request → ℕ
  pub lateness : ℕ → ℕ
  pub meanwhile : ℕ → RulesState → RulesState

module _ (around : Around) (db : String) where
  open around use {couch, texts, lodash, latency, lateness, meanwhile}

  -- `couchdbService.get(db, Permission.DOC_ID)`
  abbrev pub read_permission : Service → Result DatabaseDocument × Service
  read_permission s =
      let (answer, world) = send (get db permission_doc_id []) couch.document s.world in
      let time : ℕ = s.time + latency world.sent in
      (answer, record s { world = world; time = time; rules = meanwhile time s.rules })

  abbrev pub wait : ℕ → Service → Service
  wait delay s =
      let time : ℕ = s.time + delay + lateness s.time in
      record s { time = time; waits = s.waits ++ delay ∷ []; rules = meanwhile time s.rules }

  -- The fetch of `watchPermissionChanges`, by the retries that are left and their number so far:
  -- `none` is an error that is logged and dropped.
  unfoldable pub fetch_with_retries : ℕ → ℕ → Service → Option DatabaseDocument × Service
  fetch_with_retries zero so_far s =
      let (answer, s1) = read_permission s in
      elim answer [ ok doc ↦ (some doc, s1) | throw e ↦ (none, s1) ]
  fetch_with_retries (suc left) so_far s =
      let (answer, s1) = read_permission s in
      elim answer [
        | ok doc ↦ (some doc, s1)
        | throw e ↦ elim (is_likely_transient_error texts e) [
          | true ↦ fetch_with_retries left (so_far + 1) (wait (retry_delay_ms (so_far + 1)) s1)
          | false ↦ (none, s1)
        ]
      ]

  -- `data` of the document, if it is valid, or the exception of the attempt
  abbrev pub permission_data : Result DatabaseDocument → Result (RulesConfig × DatabaseDocument)
  permission_data (throw e) = throw e
  permission_data (ok doc) = elim (valid_rules_config (lookup "data" doc)) [
    | none ↦ throw (
        other_error
          "Permission document \"Config:Permissions\" did not contain a valid configuration object")
    | some config ↦ ok (config, doc)
  ]

  -- `ensureManagedDefaults`
  abbrev pub ensure_defaults : DatabaseDocument → Service → Service
  ensure_defaults doc s =
      let (r, world) = ensure_managed_defaults lodash couch db doc s.world in
      record s { world = world }

  -- `enterBootstrapMode`
  abbrev pub enter_bootstrap_mode : Service → Service
  enter_bootstrap_mode s = record s { rules = keep_or_set bootstrap_permissions s.rules }

  -- `watchPermissionChanges`, for one change of the permission document
  unfoldable pub on_permission_change : (RulesConfig → String) → Bool → Service → Service
  on_permission_change stringify true s = record s {
    rules = apply_permission_deletion stringify db s.rules;
  }
  on_permission_change stringify false s =
      let (fetched, s1) = fetch_with_retries update_fetch_max_retries 0 s in
      elim fetched [
        | none ↦ s1
        | some doc ↦ ensure_defaults doc (record s1 {
          rules = apply_updated_permission stringify db (lookup "data" doc) s1.rules;
        })
      ]

  -- `waitForNextRetry`
  abbrev pub wait_for_next_retry : ℕ → Service → Bool × Service
  wait_for_next_retry delay s =
      let waited = wait delay s in
      elim (is_some s.rules.permission) [
        | true ↦ (true, s)
        | false ↦ (is_some waited.rules.permission, waited)
      ]

  -- One round of the loop of `loadInitialPermissions`: `none` returns, an exception goes round again.
  unfoldable pub attempt : Backoff → Service → Option Error × Service
  attempt backoff s =
      let (answer, s1) = read_permission s in
      elim (permission_data answer) [
        | ok (config, doc) ↦
            (none, ensure_defaults doc (record s1 { rules = keep_or_set config s1.rules }))
        | throw e ↦ elim (is_not_found e) [
          | true ↦ (none, enter_bootstrap_mode s1)
          | false ↦
              let (known, s2) = wait_for_next_retry (current_delay (record_failure backoff).0) s1 in
              ((if known then none else some e), s2)
        ]
      ]

  abbrev pub no_permissions : Error
  no_permissions =
      other_error ("Failed to load initial permissions from \"" & db & "\" within 60000ms")

  unfoldable pub load_loop : ℕ → ℕ → Option Error → Backoff → Service → Loaded × Service
  load_loop zero started_at last_error backoff s = (out_of_fuel, s)
  load_loop (suc fuel) started_at last_error backoff s =
      elim (ltb (s.time - started_at) init_max_total_ms) [
        | false ↦ (threw (or_else last_error no_permissions), s)
        | true ↦
            let (failed, s') = attempt backoff s in
            elim failed [
              | none ↦ (returned, s')
              | some e ↦ load_loop fuel started_at (some e) (record_failure backoff).0 s'
            ]
      ]

  -- `loadInitialPermissions`
  unfoldable pub load_initial_permissions : ℕ → Service → Loaded × Service
  load_initial_permissions fuel s = load_loop fuel s.time none init_backoff s
