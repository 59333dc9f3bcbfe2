-- ===== src/PermissionCheck/Answers.antt =====
-- What the check of permissions answers: who is permitted, and which exceptions it throws.
use replication_backend.Prelude.{
  ℕ, String, Bool, true, false, ◌||◌, none, some, List, [], ◌∷◌, Dict, eqb, ◌≡◌, refl, ◌∙◌, ap, sym,
  subst, arith, ◌↔◌, inl, inr, Bool-cases,
}
use replication_backend.Json.{Json, DatabaseDocument}
use replication_backend.Effects.{
  Error, http_exception, axios_error, other_error, Result, ok, throw, Result-cases,
}
use replication_backend.Casl.{Permissions, document, UserInfo}
use replication_backend.Couch.{World, Couch, get}
use replication_backend.Permission.{is_allowed_to, decide}
use replication_backend.UserIdentity.{UserAdmin, Identities, resolve_user}
use replication_backend.PermissionCheck.{
  log_permission_check_request, CheckedAction, known, unknown, PermissionCheckRequest, CheckResult,
  validate_permission_check_request, unique, handle_permission_evaluation_error, is_allowed,
  evaluate_permission_for_user, evaluate_all, gather, load_canonical_entity_doc, check_permissions,
  is_not_found,
}

-- No answer of the handler permits anything.
handled_denies :
    {S : Type 0} (user_id : String) (e : Error) (s : S) (entry : String × CheckResult)
    → (handle_permission_evaluation_error user_id e s).0 ≡ ok entry
    → (entry.0 ≡ user_id) × (entry.1.permitted ≡ false)
unfolding handle_permission_evaluation_error
handled_denies user_id (http_exception status message) s entry k =
    elim (Bool-cases (eqb status 400 || eqb status 404)) [
      | inl h ↦ (ground (arith, h, k), ground (arith, h, k))
      | inr h ↦ absurd (ground (arith, h, k))
    ]
handled_denies user_id (axios_error none) s entry k = cc
handled_denies user_id (axios_error (some status)) s entry k =
    elim (Bool-cases (eqb status 400 || eqb status 404)) [
      | inl h ↦ (ground (arith, h, k), ground (arith, h, k))
      | inr h ↦ absurd (ground (arith, h, k))
    ]
handled_denies user_id (other_error message) s entry k = (ground (arith, k), ground (arith, k))

module _ (permissions : Permissions)
    (can_other : permissions.Ability → Json → DatabaseDocument → Bool) (admin : UserAdmin)
    (couch : Couch) (now : World → admin.State → ℕ) where
  open permissions use {ability_for, can}

  abbrev pub allows_with : permissions.Ability → CheckedAction → DatabaseDocument → Bool
  allows_with ability (known action) doc = can ability action (document doc)
  allows_with ability (unknown v) doc = can_other ability v doc

  -- The ability of the user is built, and CASL allows the action on a document with it.
  abbrev pub allows : CheckedAction → DatabaseDocument → UserInfo → Bool
  allows action doc user = elim (ability_for (some user)) [
    | throw e ↦ false
    | ok ability ↦ allows_with ability action doc
  ]

  abbrev pub evaluate :
      String
      → CheckedAction
      → DatabaseDocument
      → Identities admin
      → Result (String × CheckResult) × Identities admin
  evaluate = evaluate_permission_for_user permissions can_other admin couch now

  pub is_allowed_lem :
      (action : CheckedAction) (doc : DatabaseDocument) (user : UserInfo) (w : World)
      (ability : permissions.Ability)
      → ability_for (some user) ≡ ok ability
      → is_allowed permissions can_other admin couch now action doc user w
        ≡ (ok (allows_with ability action doc), w)
  unfolding is_allowed_to decide
  is_allowed_lem (known action) doc user w ability built = rw built refl
  is_allowed_lem (unknown v) doc user w ability built = rw built refl

  pub is_allowed_throws :
      (action : CheckedAction) (doc : DatabaseDocument) (user : UserInfo) (w : World) (e : Error)
      → ability_for (some user) ≡ throw e
      → is_allowed permissions can_other admin couch now action doc user w ≡ (throw e, w)
  unfolding is_allowed_to
  is_allowed_throws (known action) doc user w e failed = rw failed refl
  is_allowed_throws (unknown v) doc user w e failed = rw failed refl

  -- An answer names the user; it permits exactly what CASL allows the user who was resolved.
  abbrev pub IsAnswer :
      CheckedAction → DatabaseDocument → String → Identities admin → String × CheckResult → Type 0
  IsAnswer action doc user_id s entry =
      (entry.0 ≡ user_id)
      × ((entry.1.permitted ≡ true) ↔ (
          (user : UserInfo) × ((resolve_user admin couch now user_id s).0 ≡ ok user)
          × (allows action doc user ≡ true)))

  evaluate-IsAnswer :
      (user_id : String) (action : CheckedAction) (doc : DatabaseDocument) (s : Identities admin)
      (entry : String × CheckResult)
      → (evaluate user_id action doc s).0 ≡ ok entry
      → IsAnswer action doc user_id s entry
  unfolding evaluate_permission_for_user
  evaluate-IsAnswer user_id action doc s entry k =
      let p = resolve_user admin couch now user_id s in
      elim (Result-cases p.0) [
        | inl (user, h) ↦ elim (Result-cases (ability_for (some user))) [
          | inl (ability, built) ↦
              let allowed = is_allowed_lem action doc user p.1.world ability built in
              let same : entry
                  ≡ (user_id, record { permitted = allows_with ability action doc; error = none }) =
                ground (arith, h, k, allowed) in
              let by_casl : allows action doc user ≡ allows_with ability action doc =
                rw (built, allows) refl in
              let permits : entry.1.permitted ≡ allows action doc user =
                ap (λ x. x.1.permitted) same ∙ sym by_casl in
              (
                ap (λ x. x.0) same,
                (
                  λ t. (user, h, sym permits ∙ t),
                  λ (other, r, t).
                      let same_user : other ≡ user = ground (arith, r, h) in
                      permits ∙ subst (λ u. allows action doc u ≡ true) same_user t,
                ),
              )
          | inr (e, failed) ↦
              let refused = is_allowed_throws action doc user p.1.world e failed in
              let no = handled_denies user_id e p.1 entry (ground (arith, h, k, refused)) in
              let nothing : allows action doc user ≡ false = rw (failed, allows) refl in
              (
                no.0,
                (
                  λ t. absurd (ground (arith, t, no.1)),
                  λ (other, r, t).
                      let same_user : other ≡ user = ground (arith, r, h) in
                      let allowed = subst (λ u. allows action doc u ≡ true) same_user t in
                      absurd (ground (arith, allowed, nothing)),
                ),
              )
        ]
        | inr (e, h) ↦
            let no = handled_denies user_id e p.1 entry (ground (arith, h, k)) in
            (
              no.0,
              (
                λ t. absurd (ground (arith, t, no.1)),
                λ (user, r, t). absurd (ground (arith, r, h)),
              ),
            )
      ]

  -- The answers for the users one after the other, each from the state that the one before leaves.
  abbrev pub AreAnswers :
      CheckedAction → DatabaseDocument → List String → Identities admin → Dict CheckResult → Type 0
  AreAnswers action doc [] s [] = Unit {0}
  AreAnswers action doc (user_id ∷ ids) s (entry ∷ entries) =
      IsAnswer action doc user_id s entry
      × AreAnswers action doc ids (evaluate user_id action doc s).1 entries
  AreAnswers action doc _ s _ = ⊥

  abbrev pub evaluate_each :
      List String
      → CheckedAction
      → DatabaseDocument
      → Identities admin
      → Result (Dict CheckResult) × Identities admin
  evaluate_each = evaluate_all permissions can_other admin couch now

  gathered :
      (r : Result (String × CheckResult)) (rest : Result (Dict CheckResult))
      (answers : Dict CheckResult)
      → gather r rest ≡ ok answers
      → (entry : String × CheckResult) × (entries : Dict CheckResult) × (r ≡ ok entry)
        × (rest ≡ ok entries)
        × (answers ≡ entry ∷ entries)
  gathered (throw e) rest answers h = cc
  gathered (ok entry) (throw e) answers h = cc
  gathered (ok entry) (ok entries) answers h = (entry, entries, refl, refl, ground (arith, h))

  evaluate_all-AreAnswers :
      (ids : List String) (action : CheckedAction) (doc : DatabaseDocument) (s : Identities admin)
      (answers : Dict CheckResult)
      → (evaluate_each ids action doc s).0 ≡ ok answers
      → AreAnswers action doc ids s answers
  unfolding evaluate_all
  evaluate_all-AreAnswers [] action doc s answers h =
      let same : [] ≡ answers = ground (arith, h) in subst (AreAnswers action doc [] s) same tt
  evaluate_all-AreAnswers (user_id ∷ ids) action doc s answers h =
      let step = evaluate user_id action doc s in
      let parts = gathered step.0 (evaluate_each ids action doc step.1).0 answers h in
      subst (AreAnswers action doc (user_id ∷ ids) s) (sym parts.4) (
        evaluate-IsAnswer user_id action doc s parts.0 parts.2,
        evaluate_all-AreAnswers ids action doc step.1 parts.1 parts.3,
      )

  -- What is loaded is the answer of CouchDB.
  loaded :
      (entity_id : String) (doc : DatabaseDocument) (w : World)
      → (load_canonical_entity_doc permissions can_other admin couch now entity_id w).0 ≡ ok doc
      → couch.document (get "app" entity_id [] ∷ w.sent) ≡ ok doc
  unfolding load_canonical_entity_doc
  loaded entity_id doc w h =
      elim (Result-cases (couch.document (get "app" entity_id [] ∷ w.sent))) [
        | inl (found, e) ↦ e ∙ ground (arith, e, h)
        | inr (e, k) ↦ elim (Bool-cases (is_not_found e)) [
          | inl b ↦ absurd (ground (arith, k, b, h))
          | inr b ↦ absurd (ground (arith, k, b, h))
        ]
      ]

  -- The state in which the first user is resolved.
  abbrev pub after_load : String → Identities admin → Identities admin
  after_load entity_id s = record s {
    world = record s.world { sent = get "app" entity_id [] ∷ s.world.sent };
  }

  checked :
      (request : PermissionCheckRequest) (doc : DatabaseDocument) (s : Identities admin)
      (body : Json)
      → log_permission_check_request body ≡ ok tt
      → validate_permission_check_request body ≡ ok request
      → couch.document (get "app" request.entity_id [] ∷ s.world.sent) ≡ ok doc
      → check_permissions permissions can_other admin couch now body s
        ≡ evaluate_each
            (unique request.user_ids)
            request.action
            doc
            (after_load request.entity_id s)
  unfolding check_permissions load_canonical_entity_doc
  checked request doc s body l v k = ground (arith, l, v, k)

  -- A check that answers names each requested user once, in order, and permits exactly those whose
  -- identity was resolved and whom CASL allows the action on the document under the requested id, as
  -- CouchDB has it.
  pub check_permissions-AreAnswers :
      (body : Json) (request : PermissionCheckRequest) (s : Identities admin)
      (answers : Dict CheckResult)
      → validate_permission_check_request body ≡ ok request
      → (check_permissions permissions can_other admin couch now body s).0 ≡ ok answers
      → (doc : DatabaseDocument) × (couch.document (get "app" request.entity_id [] ∷ s.world.sent)
          ≡ ok doc)
        × AreAnswers request.action doc
            (unique request.user_ids)
            (after_load request.entity_id s)
            answers
  unfolding check_permissions
  check_permissions-AreAnswers body request s answers v h =
      let p =
        load_canonical_entity_doc permissions can_other admin couch now request.entity_id s.world in
      elim (Result-cases (log_permission_check_request body)) [
        | inr (e, l) ↦ absurd (ground (arith, l, h))
        | inl (logged, l) ↦ elim (Result-cases p.0) [
          | inr (e, k) ↦ absurd (ground (arith, l, v, k, h))
          | inl (doc, k) ↦
              let found = loaded request.entity_id doc s.world k in
              (
                doc,
                found,
                evaluate_all-AreAnswers (unique request.user_ids) request.action doc
                    (after_load request.entity_id s) answers
                    (ap (λ p. p.0) (sym (checked request doc s body l v found)) ∙ h),
              )
        ]
      ]
