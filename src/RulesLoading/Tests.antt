-- ===== src/RulesLoading/Tests.antt =====
-- Tests of the loading of the permission document.
use replication_backend.Prelude.{none, []}
use replication_backend.RulesLoading.{
  Service, Around, fetch_with_retries, update_fetch_max_retries, load_initial_permissions,
}
use replication_backend.RulesLoading.Fetch.{Ends, fetch_with_retries-Ends}
use replication_backend.RulesLoading.Startup.{LoadEnds, load_initial_permissions-LoadEnds}
use replication_backend.Fixtures.{one_child, start, plain_texts, by_name}
use replication_backend.Json.{DatabaseDocument, str, obj, arr, field, end, nil}
use replication_backend.Effects.{ok, throw, http_exception}
use replication_backend.ErrorClassification.{is_likely_transient_error}
use replication_backend.RulesConfig.{RulesConfig, valid_rules_config, normalize_section_keys}
use replication_backend.RulesLoading.{on_permission_change}
use replication_backend.RulesLoading.Update.{
  FailsThenGives, on_permission_change-normalize_section_keys,
}
use replication_backend.Prelude.{
  false, length, ltb, lookup, ◌∷◌, ◌≡◌, refl, if◌then◌else◌, arith, some,
}

-- CouchDB answers in 20 milliseconds with a document that is no permission document.
abbrev slow_answers : Around
slow_answers = record {
  couch = one_child;
  texts = plain_texts;
  lodash = by_name;
  latency = λ history. 20;
  lateness = λ time. 1;
  meanwhile = λ time rules. rules;
}

abbrev nothing_known : Service
nothing_known = record {
  rules = record { permission = none; changes_announced = [] };
  world = start;
  time = 5;
  waits = [];
}

fetch_with_retries-Ends_example :
    Ends slow_answers "app" 4 []
      (fetch_with_retries slow_answers "app" update_fetch_max_retries 0 nothing_known)
fetch_with_retries-Ends_example = fetch_with_retries-Ends slow_answers "app" nothing_known

load_initial_permissions-LoadEnds_example :
    LoadEnds 5 (load_initial_permissions slow_answers "app" 10 nothing_known)
load_initial_permissions-LoadEnds_example =
    load_initial_permissions-LoadEnds slow_answers "app" nothing_known

abbrev permission_doc : DatabaseDocument
permission_doc =
    ("_id", str "Config:Permissions") ∷ ("data", obj (field "user_app" (arr nil) end)) ∷ []

-- The first read fails.
abbrev recovering : Around
recovering = record slow_answers {
  couch = record one_child {
    document = λ history.
        if ltb (length history) 2 then throw (http_exception 503 "down") else ok permission_doc;
  };
}

abbrev recovered_config : RulesConfig
recovered_config = ("user_app", arr nil) ∷ []

fails_once : FailsThenGives recovering "app" 1 [] permission_doc
unfolding is_likely_transient_error
fails_once = ((http_exception 503 "down", refl, refl), refl)

valid : valid_rules_config (lookup "data" permission_doc) ≡ some recovered_config
unfolding lookup valid_rules_config
valid = refl

on_permission_change-normalize_section_keys_example :
    (on_permission_change recovering "app"
      (λ config. "config")
      false
      nothing_known).rules.permission
    ≡ some (normalize_section_keys recovered_config)
on_permission_change-normalize_section_keys_example =
    on_permission_change-normalize_section_keys recovering "app" (λ config. "config") 1
      nothing_known permission_doc recovered_config (omega arith) fails_once valid
