-- ===== src/Rules/Tests.antt =====
-- Tests of the rules in force.
use replication_backend.Prelude.{String, some, [], ◌∷◌, lookup, if◌then◌else◌, refl}
use replication_backend.Json.{str, arr, obj, cons, nil, field, end}
use replication_backend.RulesConfig.{RulesConfig, manage_all, has_role}
use replication_backend.Rules.{RulesState}
use replication_backend.Rules.Updates.{
  Event, updated, deleted, IsNormal, apply_events, apply_events-IsNormal,
}

abbrev config : RulesConfig
config =
    ("_default", arr (cons (str "d") nil))
    ∷ ("user_app", arr (cons manage_all nil))
    ∷ ("_secret", arr (cons manage_all nil))
    ∷ []

-- A text for two configurations: whether the admin role is among their keys.
abbrev stringify : RulesConfig → String
stringify c = if has_role c "admin_app" then "bootstrap" else "other"

abbrev running : RulesState
running = record { permission = some config; changes_announced = [] }

abbrev legacy_update : Event
legacy_update = updated (some (obj (field "default" (arr nil) end)))

apply_events-IsNormal_example :
    IsNormal
      (apply_events stringify "app"
        (legacy_update ∷ deleted ∷ legacy_update ∷ [])
        running).permission
unfolding lookup
apply_events-IsNormal_example =
    apply_events-IsNormal stringify "app" (legacy_update ∷ deleted ∷ legacy_update ∷ []) running
      (refl, refl)
