-- ===== src/BulkEndpoints/Shown.antt =====
-- What the responses of the streaming endpoints show.
use replication_backend.Prelude.{
  String, true, Option, none, some, List, [], ◌∷◌, ◌++◌, ◌≡◌, ◌≢◌, refl, subst, arith, ◌==◌,
  eq_refl, ◌⊎◌, inl, inr, Bool-cases, Dict,
}
use replication_backend.Json.{
  Json, null, bool, num, str, arr, obj, Items, nil, cons, Fields, end, field, entries,
}
use replication_backend.Json.Text.{stringify}
use replication_backend.Effects.{Result, ok, throw, Result-cases}
use replication_backend.Casl.{Permissions, UserInfo}
use replication_backend.Couch.{World, Request, post, get, json, DocMetaInf}
use replication_backend.DocumentFilter.{DocumentFilter}
use replication_backend.BulkDocument.{find_doc_filter, all_docs_row_filter}
use replication_backend.JsonFilter.{StreamJson, Token}
use replication_backend.JsonFilter.Tokens.{
  tokens, Assembles, filter_items, filter_array, filter_value, filter_fields, keep_item, keep_field,
  result_map,
}
use replication_backend.BulkEndpoints.{
  Source, Sink, replied, find_item, stream_filtered, all_docs_get, all_docs_item, find, row_of,
}
use replication_backend.BulkEndpoints.Streamed.{stream_filtered-replied_iff}

-- Every item of an array holds the property.
abbrev pub AllItems : (Json → Type 0) → Items → Type 0
AllItems P nil = Unit {0}
AllItems P (cons v vs) = P v × AllItems P vs

-- A value under a key: if the key is the given one and the value an array, every item of it does.
abbrev pub UnderKey : (Json → Type 0) → String → String → Json → Type 0
UnderKey P key k (arr vs) = (k ≢ key) ⊎ AllItems P vs
UnderKey P key k v = Unit {0}

abbrev pub AllUnder : (Json → Type 0) → String → Fields → Type 0
AllUnder P key end = Unit {0}
AllUnder P key (field k v fs) = UnderKey P key k v × AllUnder P key fs

abbrev OkAll : {A : Type 0} → (A → Type 0) → Result A → Type 0
OkAll P (throw e) = Unit {0}
OkAll P (ok a) = P a

module _ (array_field : String) (map_item : Json → Result (Option Json)) (P : Json → Type 0)
    (mapped : (v w : Json) → map_item v ≡ ok (some w) → P w) where
  items_step :
      (v : Json) (r : Result (Option Json)) (tail : Result Items)
      → map_item v ≡ r
      → OkAll (AllItems P) tail
      → OkAll (AllItems P) (keep_item r tail)
  items_step v (throw e) tail h ih = tt
  items_step v (ok none) tail h ih = ih
  items_step v (ok (some w)) (throw e) h ih = tt
  items_step v (ok (some w)) (ok us) h ih = (mapped v w h, ih)

  items_all : (vs : Items) → OkAll (AllItems P) (filter_items array_field map_item vs)
  unfolding filter_items
  items_all nil = tt
  items_all (cons v vs) =
      items_step v (map_item v) (filter_items array_field map_item vs) refl (items_all vs)

  array_all :
      (k : String) (r : Result Items)
      → OkAll (AllItems P) r
      → OkAll (UnderKey P array_field k) (result_map arr r)
  array_all k (throw e) h = tt
  array_all k (ok ws) h = inr h

  other_key : (k : String) (v : Json) → k ≢ array_field → UnderKey P array_field k v
  other_key k (arr vs) h = inl h
  other_key k null h = tt
  other_key k (bool b) h = tt
  other_key k (num n) h = tt
  other_key k (str t) h = tt
  other_key k (obj fs) h = tt

  filtered_all :
      (k : String) (v : Json)
      → OkAll (UnderKey P array_field k) (filter_array array_field map_item v)
  filtered_all k (arr vs) = array_all k (filter_items array_field map_item vs) (items_all vs)
  filtered_all k null = tt
  filtered_all k (bool b) = tt
  filtered_all k (num n) = tt
  filtered_all k (str t) = tt
  filtered_all k (obj fs) = tt

  value_all :
      (k : String) (v : Json)
      → OkAll (UnderKey P array_field k) (filter_value array_field map_item k v)
  value_all k v = elim (Bool-cases (k == array_field)) [
    | inl e ↦ rw e (filtered_all k v)
    | inr e ↦ rw e (other_key k v (λ p. ground (arith, e, p, eq_refl array_field)))
  ]

  field_step :
      (k : String) (r : Result Json) (tail : Result Fields)
      → OkAll (UnderKey P array_field k) r
      → OkAll (AllUnder P array_field) tail
      → OkAll (AllUnder P array_field) (keep_field k r tail)
  field_step k (throw e) tail h ih = tt
  field_step k (ok w) (throw e) h ih = tt
  field_step k (ok w) (ok gs) h ih = (h, ih)

  pub fields_all :
      (fs : Fields) → OkAll (AllUnder P array_field) (filter_fields array_field map_item fs)
  unfolding filter_fields
  fields_all end = tt
  fields_all (field k v fs) =
      field_step k (filter_value array_field map_item k v) (filter_fields array_field map_item fs)
        (value_all k v) (fields_all fs)

module _ (permissions : Permissions) (filter_of : DocumentFilter)
    (ability : permissions.Ability) where
  -- A document that the user may find.
  abbrev pub IsFindable : Json → Type 0
  IsFindable v =
      (doc : Fields) × (v ≡ obj doc)
      × (find_doc_filter permissions filter_of ability (entries doc) ≡ true)

  find_item-IsFindable :
      (v w : Json) → find_item permissions filter_of ability v ≡ ok (some w) → IsFindable w
  unfolding find_item
  find_item-IsFindable (obj fs) w h =
      elim (Bool-cases (find_doc_filter permissions filter_of ability (entries fs))) [
        | inl e ↦ (fs, ground (arith, e, h), e)
        | inr e ↦ absurd (ground (arith, e, h))
      ]
  find_item-IsFindable null w h = cc
  find_item-IsFindable (bool b) w h = cc
  find_item-IsFindable (num n) w h = cc
  find_item-IsFindable (str t) w h = cc
  find_item-IsFindable (arr vs) w h = cc

  -- A row of `_all_docs` that the user may see: an object that passes the filter of rows.
  abbrev pub IsShownRow : Json → Type 0
  IsShownRow (obj fs) =
      (row : DocMetaInf) × (row_of (entries fs) ≡ ok row)
      × (all_docs_row_filter permissions filter_of ability row ≡ true)
  IsShownRow _ = Unit {0}

  all_docs_item-IsShownRow :
      (v w : Json) → all_docs_item permissions filter_of ability v ≡ ok (some w) → IsShownRow w
  unfolding all_docs_item
  all_docs_item-IsShownRow (obj fs) w h = elim (Result-cases (row_of (entries fs))) [
    | inr (e, k) ↦ absurd (ground (arith, h, k))
    | inl (row, k) ↦ elim (Bool-cases (all_docs_row_filter permissions filter_of ability row)) [
      | inl e ↦ let same : obj fs ≡ w = ground (arith, h, k, e) in subst IsShownRow same (row, k, e)
      | inr e ↦ absurd (ground (arith, h, k, e))
    ]
  ]
  all_docs_item-IsShownRow null w h = cc
  all_docs_item-IsShownRow (bool b) w h =
      let same : bool b ≡ w = ground (arith, h) in subst IsShownRow same tt
  all_docs_item-IsShownRow (num n) w h =
      let same : num n ≡ w = ground (arith, h) in subst IsShownRow same tt
  all_docs_item-IsShownRow (str t) w h =
      let same : str t ≡ w = ground (arith, h) in subst IsShownRow same tt
  all_docs_item-IsShownRow (arr vs) w h =
      let same : arr vs ≡ w = ground (arith, h) in subst IsShownRow same tt

module _ (lib : StreamJson) (sink : Sink) (permissions : Permissions) (filter_of : DocumentFilter)
    (stream : List Request → Result Source) (assembles : Assembles lib) where
  -- Where CouchDB answers a `_find` with a source that holds the tokens of an object as far as they
  -- came, none of its documents null: a response that is whole has nothing missing and is the text of
  -- the filtered object, in which each document under `docs` is replicated and readable by the user.
  pub find-IsFindable :
      (db : String) (body : Json) (user : Option UserInfo) (w : World)
      (ability : permissions.Ability) (fs gs : Fields) (source : Source) (missing : List Token)
      (text : String)
      → permissions.ability_for user ≡ ok ability
      → stream (post db "_find" (json body) [] ∷ w.sent) ≡ ok source
      → source.tokens ++ missing ≡ tokens (obj fs) []
      → filter_fields "docs" (find_item permissions filter_of ability) fs ≡ ok gs
      → (find lib sink permissions filter_of stream db body user w).0 ≡ ok (replied text)
      → (missing ≡ [])
        × (text ≡ stringify lib.quote lib.digits (obj gs))
        × AllUnder (IsFindable permissions filter_of ability) "docs" gs
  unfolding find
  find-IsFindable db body user w ability fs gs source missing text b a e h r =
      let item = find_item permissions filter_of ability in
      let reply : stream_filtered lib sink source "docs" item ≡ replied text =
        ground (arith, a, b, r) in
      let given =
        (stream_filtered-replied_iff lib sink "docs" item assembles fs gs source missing text h e).0
          reply in
      (
        given.1,
        given.3,
        subst (OkAll (AllUnder (IsFindable permissions filter_of ability) "docs")) h (
            fields_all "docs" item (IsFindable permissions filter_of ability)
              (find_item-IsFindable permissions filter_of ability) fs),
      )

  -- The same of a GET of `_all_docs`, none of its rows null or with an id or document of the wrong
  -- type: each row that is an object passes the filter of rows.
  pub all_docs_get-IsShownRow :
      (db : String) (query_params : Dict Json) (user : Option UserInfo) (w : World)
      (ability : permissions.Ability) (fs gs : Fields) (source : Source) (missing : List Token)
      (text : String)
      → permissions.ability_for user ≡ ok ability
      → stream (get db "_all_docs" query_params ∷ w.sent) ≡ ok source
      → source.tokens ++ missing ≡ tokens (obj fs) []
      → filter_fields "rows" (all_docs_item permissions filter_of ability) fs ≡ ok gs
      → (all_docs_get lib sink permissions filter_of stream db query_params user w).0
        ≡ ok (replied text)
      → (missing ≡ [])
        × (text ≡ stringify lib.quote lib.digits (obj gs))
        × AllUnder (IsShownRow permissions filter_of ability) "rows" gs
  unfolding all_docs_get
  all_docs_get-IsShownRow db query_params user w ability fs gs source missing text b a e h r =
      let item = all_docs_item permissions filter_of ability in
      let reply : stream_filtered lib sink source "rows" item ≡ replied text =
        ground (arith, a, b, r) in
      let given =
        (stream_filtered-replied_iff lib sink "rows" item assembles fs gs source missing text h e).0
          reply in
      (
        given.1,
        given.3,
        subst (OkAll (AllUnder (IsShownRow permissions filter_of ability) "rows")) h (
            fields_all "rows" item (IsShownRow permissions filter_of ability)
              (all_docs_item-IsShownRow permissions filter_of ability) fs),
      )
