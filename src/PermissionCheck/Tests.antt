-- ===== src/PermissionCheck/Tests.antt =====
-- Tests of the check of permissions.
use replication_backend.Prelude.{
  Bool, true, false, Option, none, [], ◌∷◌, Dict, lookup, insert, is_blank, ◌≡◌, refl,
}
use replication_backend.Json.{Json, str, arr, obj, nil, cons, end, field, DatabaseDocument}
use replication_backend.Effects.{ok}
use replication_backend.Casl.{read, UserInfo}
use replication_backend.Couch.{get}
use replication_backend.Permission.{is_allowed_to, decide, fetch_or_none}
use replication_backend.UserIdentity.{resolve_user, cached_user, fetch_user, store}
use replication_backend.PermissionCheck.{
  log_permission_check_request, has_text, is_loggable, known, PermissionCheckRequest, CheckResult,
  not_found, denied, validate_permission_check_request, unique, evaluate_permission_for_user,
  evaluate_all, load_canonical_entity_doc, check_permissions, handle_permission_evaluation_error,
}
use replication_backend.PermissionCheck.Answers.{
  AreAnswers, after_load, check_permissions-AreAnswers,
}
use replication_backend.PermissionCheck.Errors.{ReportsIf, check_permissions-Reports}
use replication_backend.Fixtures.{children_only, one_child}
use replication_backend.Fixtures.Accounts.{one_account, nobody_cached, clock}

-- A user who is known, twice, and one who is not.
abbrev body : Json
body = obj (
    field "userIds" (arr (cons (str "u1") (cons (str "u9") (cons (str "u1") nil))))
      (field "entityId" (str "Child:1") end))

abbrev request : PermissionCheckRequest
request = record { user_ids = "u1" ∷ "u9" ∷ "u1" ∷ []; entity_id = "Child:1"; action = known read }

abbrev answers : Dict CheckResult
answers = ("u1", record { permitted = true; error = none }) ∷ ("u9", denied not_found) ∷ []

abbrev never : Option UserInfo → Json → DatabaseDocument → Bool
never ability action doc = false

validated : validate_permission_check_request body ≡ ok request
unfolding validate_permission_check_request lookup is_blank
validated = refl

answered :
    (check_permissions children_only never one_account one_child clock body nobody_cached).0
    ≡ ok answers
unfolding check_permissions log_permission_check_request has_text validate_permission_check_request
    lookup is_blank load_canonical_entity_doc evaluate_all evaluate_permission_for_user resolve_user
    cached_user fetch_user store is_allowed_to decide fetch_or_none
    handle_permission_evaluation_error insert
answered = refl

check_permissions-AreAnswers_example :
    (doc : DatabaseDocument) × (one_child.document
        (get "app" "Child:1" [] ∷ nobody_cached.world.sent)
      ≡ ok doc)
    × AreAnswers children_only never one_account one_child clock
        (known read)
        doc
        (unique request.user_ids)
        (after_load children_only never one_account one_child clock "Child:1" nobody_cached)
        answers
check_permissions-AreAnswers_example =
    check_permissions-AreAnswers children_only never one_account one_child clock body request
      nobody_cached answers validated answered

check_permissions-Reports_example :
    ReportsIf children_only never one_account one_child clock
      (is_loggable body)
      nobody_cached
      (check_permissions children_only never one_account one_child clock body nobody_cached)
check_permissions-Reports_example =
    check_permissions-Reports children_only never one_account one_child clock body nobody_cached
