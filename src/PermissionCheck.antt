-- ===== src/PermissionCheck.antt =====
-- src/permissions/permission-check/permission-check.controller.ts: the check of one action on one
-- document for a list of users.
pub mod Answers
pub mod Errors
mod Tests
use replication_backend.Prelude.{
  ℕ, String, Bool, true, false, not, ◌&&◌, ◌||◌, Option, none, some, List, [], ◌∷◌, Dict, lookup,
  ◌==◌, ◌&◌, length, any, contains, filter, ltb, leb, eqb, or_else, if◌then◌else◌,
}
use replication_backend.Prelude.{is_blank}
use replication_backend.Json.{
  Json, null, bool, num, str, arr, obj, Items, nil, cons, Fields, end, field, elems, entries,
  truthy, non_null, text_of, DatabaseDocument,
}
use replication_backend.Effects.{
  Error, http_exception, axios_error, other_error, Result, ok, throw, result_then, Io, pure, lift,
  raise, catch, ◌>>=◌, ◌>>◌,
}
use replication_backend.Casl.{Permissions, Action, read, create, update, delete, manage, UserInfo}
use replication_backend.Couch.{World, Couch, get, send}
use replication_backend.Permission.{is_allowed_to}
use replication_backend.UserIdentity.{UserAdmin, Identities, resolve_user, on_world}

-- What `ability.can` is asked for: one of the five actions, or what is none of them. A falsy action
-- other than null passes the validation and goes to CASL as it is.
pub data CheckedAction : Type 0 where
  known : Action → CheckedAction
  unknown : Json → CheckedAction

-- `class PermissionCheckRequestDto`, once it is validated
pub record PermissionCheckRequest : Type 0 where
  pub user_ids : List String
  pub entity_id : String
  pub action : CheckedAction

abbrev pub max_user_ids_per_request : ℕ
max_user_ids_per_request = 100

abbrev pub bad_request : String → Error
bad_request message = http_exception 400 message

-- The `TypeError` of a value that has no text
abbrev pub no_primitive_value : Error
no_primitive_value = other_error "Cannot convert object to primitive value"

abbrev pub bad_gateway : String → Error
bad_gateway message = http_exception 502 message

-- `{ permitted, error? }`
pub data CheckError : Type 0 where
  not_found error : CheckError

pub record CheckResult : Type 0 where
  pub permitted : Bool
  pub error : Option CheckError

-- `PermissionCheckController.VALID_ACTIONS`
abbrev pub valid_action : String → Option Action
valid_action name =
    if name == "read"
    then some read
    else if name == "create"
    then some create
    else if name == "update"
    then some update
    else if name == "delete"
    then some delete
    else if name == "manage"
    then some manage
    else none

-- `body.userIds`, if each is a text that is not blank
abbrev pub valid_user_ids : List Json → Option (List String)
valid_user_ids [] = some []
valid_user_ids (str id ∷ vs) =
    let rest = valid_user_ids vs in
    if is_blank id then none else elim rest [ none ↦ none | some ids ↦ some (id ∷ ids) ]
valid_user_ids (v ∷ vs) = none

abbrev pub accept_user_ids : Option (List String) → Result (List String)
accept_user_ids none = throw (bad_request "userIds is required")
accept_user_ids (some []) = throw (bad_request "userIds is required")
accept_user_ids (some (id ∷ ids)) =
    if ltb max_user_ids_per_request (length (id ∷ ids))
    then throw (bad_request "userIds must contain at most 100 entries")
    else ok (id ∷ ids)

abbrev pub validate_user_ids : Option Json → Result (List String)
validate_user_ids (some (arr vs)) = accept_user_ids (valid_user_ids (elems vs))
validate_user_ids _ = throw (bad_request "userIds is required")

abbrev pub validate_entity_id : Option Json → Result String
validate_entity_id (some (str id)) =
    if is_blank id then throw (bad_request "entityId is required") else ok id
validate_entity_id _ = throw (bad_request "entityId is required")

abbrev pub accept_action : Option Action → Result CheckedAction
accept_action none = throw (bad_request "action is invalid")
accept_action (some action) = ok (known action)

-- `body.action ?? 'read'`, validated
abbrev pub validate_action : Option Json → Result CheckedAction
validate_action none = ok (known read)
validate_action (some null) = ok (known read)
validate_action (some (str name)) =
    if name == "" then ok (unknown (str name)) else accept_action (valid_action name)
validate_action (some v) =
    if truthy (some v) then throw (bad_request "action is invalid") else ok (unknown v)

abbrev pub fields_of : Json → Dict Json
fields_of (obj fs) = entries fs
fields_of _ = []

-- `validatePermissionCheckRequest`
unfoldable pub validate_permission_check_request : Json → Result PermissionCheckRequest
validate_permission_check_request body =
    result_then (validate_user_ids (lookup "userIds" (fields_of body))) λ user_ids.
      result_then (validate_entity_id (lookup "entityId" (fields_of body))) λ entity_id.
        result_then (validate_action (lookup "action" (fields_of body)))
          λ action. ok (record { user_ids = user_ids; entity_id = entity_id; action = action })

-- `[...new Set(ids)]`
abbrev pub unique : List String → List String
unique [] = []
unique (id ∷ ids) = let rest = unique ids in id ∷ filter (λ other. not (other == id)) rest

-- `extractStatusCode`
abbrev pub extract_status_code : Error → Option ℕ
extract_status_code (http_exception status message) = some status
extract_status_code (axios_error status) = status
extract_status_code (other_error message) = none

abbrev pub is_axios_error : Error → Bool
is_axios_error (axios_error status) = true
is_axios_error _ = false

abbrev pub denied : CheckError → CheckResult
denied e = record { permitted = false; error = some e }

abbrev pub provider_unavailable : Error
provider_unavailable = bad_gateway "Upstream identity provider is unavailable"

-- `handlePermissionEvaluationError`
unfoldable pub handle_permission_evaluation_error :
    {S : Type 0} → String → Error → Io S (String × CheckResult)
handle_permission_evaluation_error user_id e = elim (extract_status_code e) [
  | some status ↦
      if eqb status 400 || eqb status 404
      then pure (user_id, denied not_found)
      else raise provider_unavailable
  | none ↦ if is_axios_error e then raise provider_unavailable else pure (user_id, denied error)
]

-- One more result in front of those of `Promise.all`.
abbrev pub gather : {A : Type 0} → Result A → Result (List A) → Result (List A)
gather (throw e) rest = throw e
gather (ok a) (throw e) = throw e
gather (ok a) (ok rest) = ok (a ∷ rest)

abbrev pub is_not_found : Error → Bool
is_not_found (http_exception status message) = eqb status 404
is_not_found _ = false

-- A value of the body has no text where a field of its own hides the method `toString`.
abbrev hides_to_string : Fields → Bool
hides_to_string end = false
hides_to_string (field key v fs) = key == "toString" || hides_to_string fs

unfoldable mutual
  pub has_text : Json → Bool
  has_text null = true
  has_text (bool b) = true
  has_text (num n) = true
  has_text (str text) = true
  has_text (arr vs) = items_have_text vs
  has_text (obj fs) = not (hides_to_string fs)

  pub items_have_text : Items → Bool
  items_have_text nil = true
  items_have_text (cons v vs) = has_text v && items_have_text vs

abbrev pub field_has_text : Option Json → Bool
field_has_text none = true
field_has_text (some v) = has_text v

abbrev pub is_loggable : Json → Bool
is_loggable body =
    field_has_text (lookup "entityId" (fields_of body))
    && field_has_text (lookup "action" (fields_of body))

-- `logPermissionCheckRequest`: its message has the texts of the entity id and of the action.
unfoldable pub log_permission_check_request : Json → Result (Unit {0})
log_permission_check_request body = if is_loggable body then ok tt else throw no_primitive_value

module _ (permissions : Permissions)
    (can_other : permissions.Ability → Json → DatabaseDocument → Bool) (admin : UserAdmin)
    (couch : Couch) (now : World → admin.State → ℕ) where
  open permissions use {ability_for}

  abbrev pub is_allowed : CheckedAction → DatabaseDocument → UserInfo → Io World Bool
  is_allowed (known action) doc user = is_allowed_to permissions couch action doc (some user) "app"
  is_allowed (unknown v) doc user = do
    ability ← lift (ability_for (some user))
    pure (can_other ability v doc)

  -- `evaluatePermissionForUser`
  unfoldable pub evaluate_permission_for_user :
      String → CheckedAction → DatabaseDocument → Io (Identities admin) (String × CheckResult)
  evaluate_permission_for_user user_id action doc =
      catch
        (do
          user ← resolve_user admin couch now user_id
          permitted ← on_world admin (is_allowed action doc user)
          pure (user_id, record { permitted = permitted; error = none }))
        (handle_permission_evaluation_error user_id)

  -- `Promise.all`: each evaluation runs to its end, and one that is rejected rejects all.
  unfoldable pub evaluate_all :
      List String
      → CheckedAction
      → DatabaseDocument
      → Io (Identities admin) (List (String × CheckResult))
  evaluate_all [] action doc s = (ok [], s)
  evaluate_all (user_id ∷ ids) action doc s =
      let (r, s1) = evaluate_permission_for_user user_id action doc s in
      let (rest, s2) = evaluate_all ids action doc s1 in (gather r rest, s2)

  -- `loadCanonicalEntityDoc`
  unfoldable pub load_canonical_entity_doc : String → Io World DatabaseDocument
  load_canonical_entity_doc entity_id = catch (send (get "app" entity_id []) couch.document) (λ e.
      if is_not_found e
      then raise (bad_request ("entityDoc not found: " & entity_id))
      else raise (bad_gateway "Failed to load target entity document"))

  -- `checkPermissions`
  unfoldable pub check_permissions : Json → Io (Identities admin) (Dict CheckResult)
  check_permissions body = do
    lift (log_permission_check_request body)
    request ← lift (validate_permission_check_request body)
    doc ← on_world admin (load_canonical_entity_doc request.entity_id)
    evaluate_all (unique request.user_ids) request.action doc
