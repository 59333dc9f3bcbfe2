-- ===== src/PermissionCheck/Errors.antt =====
-- The exceptions of the check of permissions.
use replication_backend.Prelude.{
  ℕ, String, Bool, true, false, ◌||◌, Option, none, some, List, [], ◌∷◌, Dict, lookup, ◌==◌, eqb,
  ltb, length, is_blank, ◌≡◌, refl, sym, subst, arith, ◌⊎◌, inl, inr, Bool-cases, if◌then◌else◌,
}
use replication_backend.Json.{Json, null, bool, num, str, arr, obj, elems, DatabaseDocument, truthy}
use replication_backend.Effects.{
  Error, http_exception, axios_error, other_error, Result, ok, throw, result_then, Io, ◌>>=◌,
  Result-cases,
}
use replication_backend.Casl.{Permissions, Action}
use replication_backend.Couch.{World, Couch, get}
use replication_backend.UserIdentity.{on_world, UserAdmin, Identities, resolve_user}
use replication_backend.PermissionCheck.{
  log_permission_check_request, is_loggable, no_primitive_value, CheckedAction, unknown,
  PermissionCheckRequest, CheckResult, validate_permission_check_request, validate_user_ids,
  validate_entity_id, validate_action, valid_user_ids, valid_action, fields_of, unique,
  extract_status_code, handle_permission_evaluation_error, evaluate_permission_for_user,
  evaluate_all, gather, load_canonical_entity_doc, check_permissions, is_not_found, accept_user_ids,
  accept_action, bad_request, max_user_ids_per_request,
}
use replication_backend.PermissionCheck.Answers.{
  evaluate, evaluate_each, allows_with, is_allowed_lem, is_allowed_throws,
}

-- A bad request, or a bad gateway.
abbrev pub IsReported : Error → Type 0
IsReported e = (extract_status_code e ≡ some 400) ⊎ (extract_status_code e ≡ some 502)

abbrev pub Reports : {A : Type 0} → Result A → Type 0
Reports (ok a) = Unit {0}
Reports (throw e) = IsReported e

handled-Reports :
    {S : Type 0} (user_id : String) (e : Error) (s : S)
    → Reports (handle_permission_evaluation_error user_id e s).0
unfolding handle_permission_evaluation_error
handled-Reports user_id (http_exception status message) s =
    elim (Bool-cases (eqb status 400 || eqb status 404)) [
      | inl h ↦ rw h tt
      | inr h ↦ rw h (inr refl)
    ]
handled-Reports user_id (axios_error none) s = inr refl
handled-Reports user_id (axios_error (some status)) s =
    elim (Bool-cases (eqb status 400 || eqb status 404)) [
      | inl h ↦ rw h tt
      | inr h ↦ rw h (inr refl)
    ]
handled-Reports user_id (other_error message) s = tt

user_ids-Reports : (found : Option (List String)) → Reports (accept_user_ids found)
user_ids-Reports none = inl refl
user_ids-Reports (some []) = inl refl
user_ids-Reports (some (id ∷ ids)) =
    elim (Bool-cases (ltb max_user_ids_per_request (length (id ∷ ids)))) [
      | inl e ↦ rw e (inl refl)
      | inr e ↦ rw e tt
    ]

validate_user_ids-Reports : (v : Option Json) → Reports (validate_user_ids v)
validate_user_ids-Reports none = inl refl
validate_user_ids-Reports (some (arr vs)) = user_ids-Reports (valid_user_ids (elems vs))
validate_user_ids-Reports (some null) = inl refl
validate_user_ids-Reports (some (bool b)) = inl refl
validate_user_ids-Reports (some (num n)) = inl refl
validate_user_ids-Reports (some (str t)) = inl refl
validate_user_ids-Reports (some (obj fs)) = inl refl

validate_entity_id-Reports : (v : Option Json) → Reports (validate_entity_id v)
validate_entity_id-Reports none = inl refl
validate_entity_id-Reports (some (str t)) = elim (Bool-cases (is_blank t)) [
  | inl e ↦ rw e (inl refl)
  | inr e ↦ rw e tt
]
validate_entity_id-Reports (some null) = inl refl
validate_entity_id-Reports (some (bool b)) = inl refl
validate_entity_id-Reports (some (num n)) = inl refl
validate_entity_id-Reports (some (arr vs)) = inl refl
validate_entity_id-Reports (some (obj fs)) = inl refl

action-Reports : (found : Option Action) → Reports (accept_action found)
action-Reports none = inl refl
action-Reports (some action) = tt

named_action-Reports :
    (empty : Bool) (name : String)
    → Reports (if empty then ok (unknown (str name)) else accept_action (valid_action name))
named_action-Reports true name = tt
named_action-Reports false name = action-Reports (valid_action name)

other_action-Reports :
    (refused : Bool) (v : Json)
    → Reports (if refused then throw (bad_request "action is invalid") else ok (unknown v))
other_action-Reports true v = inl refl
other_action-Reports false v = tt

validate_action-Reports : (v : Option Json) → Reports (validate_action v)
validate_action-Reports none = tt
validate_action-Reports (some null) = tt
validate_action-Reports (some (str name)) = named_action-Reports (name == "") name
validate_action-Reports (some (bool b)) = other_action-Reports b (bool b)
validate_action-Reports (some (num n)) = other_action-Reports (truthy (some (num n))) (num n)
validate_action-Reports (some (arr vs)) = inl refl
validate_action-Reports (some (obj fs)) = inl refl

then-Reports :
    {A B : Type 0} (r : Result A) (f : A → Result B)
    → Reports r
    → ((a : A) → Reports (f a))
    → Reports (result_then r f)
then-Reports (throw e) f h k = h
then-Reports (ok a) f h k = k a

continue-Reports :
    {S A B : Type 0} (r : Result A) (f : A → Io S B) (s : S)
    → Reports r
    → ((a : A) (t : S) → Reports (f a t).0)
    → Reports (◌>>=◌ (λ (t : S). (r, t)) f s).0
continue-Reports (throw e) f s h k = h
continue-Reports (ok a) f s h k = k a s

bind-Reports :
    {S A B : Type 0} (m : Io S A) (f : A → Io S B) (s : S)
    → Reports (m s).0
    → ((a : A) (t : S) → Reports (f a t).0)
    → Reports ((m >>= f) s).0
bind-Reports m f s h k = let (r, s') = m s in continue-Reports r f s' h k

validate-Reports : (body : Json) → Reports (validate_permission_check_request body)
unfolding validate_permission_check_request
validate-Reports body =
    then-Reports (validate_user_ids (lookup "userIds" (fields_of body))) _
      (validate_user_ids-Reports (lookup "userIds" (fields_of body)))
      (λ user_ids.
        then-Reports (validate_entity_id (lookup "entityId" (fields_of body))) _
          (validate_entity_id-Reports (lookup "entityId" (fields_of body)))
          (λ entity_id.
            then-Reports (validate_action (lookup "action" (fields_of body))) _
              (validate_action-Reports (lookup "action" (fields_of body))) (λ action. tt)))

module _ (permissions : Permissions)
    (can_other : permissions.Ability → Json → DatabaseDocument → Bool) (admin : UserAdmin)
    (couch : Couch) (now : World → admin.State → ℕ) where
  evaluate-Reports :
      (user_id : String) (action : CheckedAction) (doc : DatabaseDocument) (s : Identities admin)
      → Reports (evaluate permissions can_other admin couch now user_id action doc s).0
  unfolding evaluate_permission_for_user
  evaluate-Reports user_id action doc s =
      let p = resolve_user admin couch now user_id s in
      elim (Result-cases p.0) [
        | inl (user, h) ↦ elim (Result-cases (permissions.ability_for (some user))) [
          | inl (ability, built) ↦
              let allowed =
                is_allowed_lem permissions can_other admin couch now action doc user p.1.world
                  ability built in
              let answered : (evaluate permissions can_other admin couch now user_id action doc s).0
                  ≡ ok (
                    user_id,
                    record {
                      permitted =
                          allows_with permissions can_other admin couch now ability action doc;
                      error = none;
                    },
                  ) =
                ground (arith, h, allowed) in
              subst Reports (sym answered) tt
          | inr (e, failed) ↦
              let refused =
                is_allowed_throws permissions can_other admin couch now action doc user p.1.world e
                  failed in
              let handled : (evaluate permissions can_other admin couch now user_id action doc s).0
                  ≡ (handle_permission_evaluation_error user_id e p.1).0 =
                ground (arith, h, refused) in
              subst Reports (sym handled) (handled-Reports user_id e p.1)
        ]
        | inr (e, h) ↦
            let handled : (evaluate permissions can_other admin couch now user_id action doc s).0
                ≡ (handle_permission_evaluation_error user_id e p.1).0 =
              ground (arith, h) in
            subst Reports (sym handled) (handled-Reports user_id e p.1)
      ]

  gather-Reports :
      (r : Result (String × CheckResult)) (rest : Result (Dict CheckResult))
      → Reports r
      → Reports rest
      → Reports (gather r rest)
  gather-Reports (throw e) rest h k = h
  gather-Reports (ok entry) (throw e) h k = k
  gather-Reports (ok entry) (ok entries) h k = tt

  evaluate_all-Reports :
      (ids : List String) (action : CheckedAction) (doc : DatabaseDocument) (s : Identities admin)
      → Reports (evaluate_each permissions can_other admin couch now ids action doc s).0
  unfolding evaluate_all
  evaluate_all-Reports [] action doc s = tt
  evaluate_all-Reports (user_id ∷ ids) action doc s =
      let step = evaluate permissions can_other admin couch now user_id action doc s in
      gather-Reports step.0
        (evaluate_each permissions can_other admin couch now ids action doc step.1).0
        (evaluate-Reports user_id action doc s) (evaluate_all-Reports ids action doc step.1)

  loaded-Reports :
      (entity_id : String) (w : World)
      → Reports (load_canonical_entity_doc permissions can_other admin couch now entity_id w).0
  unfolding load_canonical_entity_doc
  loaded-Reports entity_id w =
      elim (Result-cases (couch.document (get "app" entity_id [] ∷ w.sent))) [
        | inl (found, e) ↦ rw e tt
        | inr (e, k) ↦ elim (Bool-cases (is_not_found e)) [
          | inl b ↦ rw (k, b) (inl refl)
          | inr b ↦ rw (k, b) (inr refl)
        ]
      ]

  -- Of a body that is logged, all that is thrown is reported.
  logged-Reports :
      (body : Json) (s : Identities admin)
      → log_permission_check_request body ≡ ok tt
      → Reports (check_permissions permissions can_other admin couch now body s).0
  unfolding check_permissions
  logged-Reports body s logged =
      let each : PermissionCheckRequest
          → DatabaseDocument
          → Io (Identities admin) (Dict CheckResult) =
        λ request doc.
          evaluate_each permissions can_other admin couch now (unique request.user_ids)
            request.action doc in
      let load : PermissionCheckRequest → Io (Identities admin) DatabaseDocument = λ request.
        on_world admin
          (load_canonical_entity_doc permissions can_other admin couch now request.entity_id) in
      rw logged (
        bind-Reports (λ t. (validate_permission_check_request body, t))
          (λ request. load request >>= each request) s (validate-Reports body)
          (λ request t.
            bind-Reports (load request) (each request) t (loaded-Reports request.entity_id t.world)
              (λ doc u. evaluate_all-Reports (unique request.user_ids) request.action doc u)))

  -- The exceptions of a check, by whether the entity id and the action of the body have texts.
  abbrev pub ReportsIf :
      Bool → Identities admin → Result (Dict CheckResult) × Identities admin → Type 0
  ReportsIf true s outcome = Reports outcome.0
  ReportsIf false s outcome = outcome ≡ (throw no_primitive_value, s)

  ReportsIf-logged :
      (body : Json) (s : Identities admin) (logged : Bool)
      → is_loggable body ≡ logged
      → ReportsIf logged s (check_permissions permissions can_other admin couch now body s)
  unfolding check_permissions log_permission_check_request
  ReportsIf-logged body s true e =
      logged-Reports body s (unfold log_permission_check_request in ground (arith, e))
  ReportsIf-logged body s false e = ground (arith, e)

  -- Whatever is asked, and whatever CouchDB, the identity provider and the building of abilities
  -- answer: where the entity id and the action of the body have texts, an array having one where its
  -- items have and an object where no field of its own is called `toString`, a check that throws
  -- throws an exception with the status 400 or 502; otherwise it throws the `TypeError` of writing
  -- them to the log, before any request.
  pub check_permissions-Reports :
      (body : Json) (s : Identities admin)
      → ReportsIf
          (is_loggable body)
          s
          (check_permissions permissions can_other admin couch now body s)
  check_permissions-Reports body s = ReportsIf-logged body s (is_loggable body) refl
