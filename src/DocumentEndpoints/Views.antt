-- ===== src/DocumentEndpoints/Views.antt =====
-- The rows of a view that is asked for with its documents.
use replication_backend.Prelude.{
  String, true, Option, some, List, ◌∷◌, Dict, filter, mem-filter, Memᴰ, ◌≡◌, ◌↔◌, ◌⊎◌, subst,
  arith, inl, inr, Bool-cases, Option-cases, ◌&◌,
}
use replication_backend.Json.{Json, DatabaseDocument}
use replication_backend.Effects.{Result, ok}
use replication_backend.Casl.{Permissions, read, document, UserInfo}
use replication_backend.Couch.{World, Request, Couch, get}
use replication_backend.DocumentEndpoints.{
  ViewResponse, is_deleted_row, object_at, include_docs, is_shown_row, query_view,
}

module _ (permissions : Permissions) (couch : Couch) where
  open permissions use {Ability, ability_for, can}

  -- A deletion, or a row with a document that the user may read.
  abbrev pub MaySee : Ability → Dict Json → Type 0
  MaySee ability row =
      (is_deleted_row row ≡ true)
      ⊎ ((doc : DatabaseDocument) × (object_at "doc" row ≡ some doc)
          × (can ability read (document doc) ≡ true))

  shown_iff :
      (ability : Ability) (row : Dict Json)
      → (is_shown_row permissions couch ability row ≡ true) ↔ MaySee ability row
  unfolding is_shown_row
  shown_iff ability row = elim (Bool-cases (is_deleted_row row)) [
    | inl e ↦ (λ h. inl e, λ h. ground (arith, e))
    | inr e ↦ elim (Option-cases (object_at "doc" row)) [
      | inl o ↦ (
        λ h. absurd (ground (arith, e, o, h)),
        λ h.
            absurd
              (elim h [ inl d ↦ ground (arith, d, e) | inr (doc, k, c) ↦ ground (arith, k, o) ]),
      )
      | inr (doc, o) ↦ (
        λ h. inr (doc, o, ground (arith, e, o, h)),
        λ h. elim h [
          | inl d ↦ absurd (ground (arith, d, e))
          | inr (other, k, c) ↦
              let same : other ≡ doc = ground (arith, k, o) in
              let allowed = subst (λ d. can ability read (document d) ≡ true) same c in
              ground (arith, e, o, allowed)
        ],
      )
    ]
  ]

  -- With `include_docs`, the answer to a query of a view has exactly the rows of the view that are
  -- deletions or have a document that the user may read.
  pub query_view-MaySee :
      (views : List Request → Result ViewResponse) (db design_name view_name : String)
      (user : Option UserInfo) (query_params : Dict Json) (w : World) (view result : ViewResponse)
      (row : Dict Json) (ability : Ability)
      → ability_for user ≡ ok ability
      → include_docs query_params ≡ true
      → views (get db ("_design/" & design_name & "/_view/" & view_name) query_params ∷ w.sent)
        ≡ ok view
      → (query_view permissions couch views db design_name view_name user query_params w).0
        ≡ ok result
      → Memᴰ row result.rows ↔ (Memᴰ row view.rows × MaySee ability row)
  unfolding query_view
  query_view-MaySee views db design_name view_name user query_params w view result row ability b d v
        r =
      let shown = is_shown_row permissions couch ability in
      let same : result.rows ≡ filter shown view.rows = ground (arith, b, d, v, r) in
      let kept = mem-filter shown view.rows row in
      let may = shown_iff ability row in
      rw same (λ m. let old = kept.0 m in (old.0, may.0 old.1), λ (m, s). kept.1 (m, may.1 s))
