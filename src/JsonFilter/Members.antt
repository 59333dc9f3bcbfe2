-- ===== src/JsonFilter/Members.antt =====
-- The members of a document, one after the other, in the transform and in memory.
use text.Mathlib.TextLemmas.{append_assoc, nil-append, append-nil}
use replication_backend.Prelude.{
  String, Bool, true, false, ◌&&◌, Option, List, [], ◌∷◌, ◌≡◌, refl, ◌∙◌, ap, sym, subst, arith,
  ◌==◌, ◌&◌, if◌then◌else◌, inl, inr, Bool-cases,
}
use replication_backend.Json.{Json, arr, Items, Fields, field}
use replication_backend.Json.Text.{stringify, stringify_items, stringify_fields, separator}
use replication_backend.Effects.{Result, ok, throw}
use replication_backend.JsonFilter.{
  Token, start_array, key_value, StreamJson, Transform, Mode, value, items, members, done,
  process_token, on_complete, member_token, value_token, is_start_array,
}
use replication_backend.JsonFilter.Tokens.{
  tokens, item_tokens, field_tokens, Assembles, keep_field, result_map, filter_items, filter_array,
  filter_value, filter_fields,
}
use replication_backend.JsonFilter.Inside.{a_value, run_step}
use replication_backend.JsonFilter.Whole.{run, continue, value_whole, first_token}
use replication_backend.JsonFilter.Array.{state, ItemsOutcome, items_lem}

module _ (lib : StreamJson) (array_field : String) (map_item : Json → Result (Option Json))
    (assembles : Assembles lib) where
  open lib use {quote, digits}

  abbrev st : Mode → String → Bool → Bool → String → Transform lib
  st = state lib array_field map_item assembles

  abbrev go : List Token → Transform lib → Result (Unit {0}) × Transform lib
  go = run lib array_field map_item

  -- The text of a member, with what separates it from the one before.
  abbrev member_text : Bool → String → Json → String
  member_text first k v = separator first & ((quote k & ":") & stringify quote digits v)

  abbrev pub Outcome : Result (Unit {0}) × Transform lib → String → Bool → Result Fields → Type 0
  Outcome r out first (throw e) = r.0 ≡ throw e
  Outcome r out first (ok gs) =
      (r.0 ≡ ok tt)
      × (r.1.mode ≡ done)
      × (r.1.pushed ≡ out & stringify_fields quote digits first gs)

  abbrev pub FieldsLemma : Fields → Result Fields → Type 0
  FieldsLemma fs expected =
      (key : String) (first first_item : Bool) (out : String)
      → Outcome (go (field_tokens fs []) (st members key first first_item out)) out first expected

  text_member :
      (out : String) (first : Bool) (k : String) (w : Json) (gs : Fields)
      → (out & member_text first k w) & stringify_fields quote digits false gs
        ≡ out & stringify_fields quote digits first (field k w gs)
  unfolding stringify
  text_member out first k w gs = simp append_assoc

  -- A member is written, and the rest follows.
  field_step :
      (fs : Fields) (tail : Result Fields) (k : String) (w : Json) (first first_item : Bool)
      (out : String) (r : Result (Unit {0}) × Transform lib)
      → r ≡ go (field_tokens fs []) (st members k false first_item (out & member_text first k w))
      → FieldsLemma fs tail
      → Outcome r out first (keep_field k (ok w) tail)
  field_step fs (throw e) k w first first_item out r h ih =
      ap (λ p. p.0) h ∙ ih k false first_item (out & member_text first k w)
  field_step fs (ok gs) k w first first_item out r h ih =
      let later = ih k false first_item (out & member_text first k w) in
      (
        ap (λ p. p.0) h ∙ later.0,
        ap (λ p. p.1.mode) h ∙ later.1,
        ap (λ p. p.1.pushed) h ∙ later.2 ∙ text_member out first k w gs,
      )

  key_step :
      (k key : String) (first first_item : Bool) (out : String) (rest : List Token)
      → go (key_value k ∷ rest) (st members key first first_item out)
        ≡ go rest (st value k first first_item out)
  unfolding process_token member_token
  key_step k key first first_item out rest =
      run_step lib array_field map_item (key_value k) rest (st members key first first_item out)
        (st value k first first_item out) refl

  member_stored :
      (v : Json) (k : String) (first first_item : Bool) (out : String)
      → on_complete lib array_field map_item value v (st value k first first_item out)
        ≡ (ok tt, st members k false first_item (out & member_text first k v))
  unfolding on_complete stringify
  member_stored v k true first_item out = ground (
    arith,
    append_assoc out (quote k & ":") (stringify quote digits v),
    nil-append ((quote k & ":") & stringify quote digits v),
  )
  member_stored v k false first_item out = ground (
    arith,
    append_assoc out "," (quote k & ":"),
    append_assoc out ("," & (quote k & ":")) (stringify quote digits v),
    append_assoc "," (quote k & ":") (stringify quote digits v),
  )

  plain_step :
      (v : Json) (k key : String) (first first_item : Bool) (out : String) (fs : Fields)
      → (k == array_field && is_start_array (first_token lib array_field map_item v)) ≡ false
      → go (field_tokens (field k v fs) []) (st members key first first_item out)
        ≡ go (field_tokens fs []) (st members k false first_item (out & member_text first k v))
  unfolding tokens
  plain_step v k key first first_item out fs h =
      key_step k key first first_item out (tokens v (field_tokens fs []))
      ∙ value_whole lib array_field map_item assembles v (st value k first first_item out) value
          a_value (field_tokens fs []) (inr h)
      ∙ ap (λ p. continue lib array_field map_item p (field_tokens fs []))
          (member_stored v k first first_item out)

  array_text : Bool → String → String → String
  array_text first k out = (out & separator first) & (quote k & ":[")

  array_start :
      (k key : String) (first first_item : Bool) (out : String) (rest : List Token)
      → k == array_field ≡ true
      → go (start_array ∷ rest) (st value k first first_item out)
        ≡ go rest (st items k false true (array_text first k out))
  unfolding process_token value_token stringify array_text
  array_start k key true first_item out rest h =
      run_step lib array_field map_item start_array rest (st value k true first_item out)
        (st items k false true (array_text true k out)) (ground (arith, h, append-nil out))
  array_start k key false first_item out rest h =
      run_step lib array_field map_item start_array rest (st value k false first_item out)
        (st items k false true (array_text false k out)) (ground (arith, h))

  text_array :
      (out : String) (first : Bool) (k : String) (ws : Items)
      → array_text first k out & stringify_items quote digits true ws
        ≡ out & member_text first k (arr ws)
  unfolding stringify array_text
  text_array out first k ws =
      let vs : String = stringify_items quote digits true ws in
      simp append_assoc
        (ap (λ t. out & (separator first & (quote k & t))) (append_assoc ":" "[" vs))

  array_step :
      (vs : Items) (fs : Fields) (kept : Result Items) (tail : Result Fields) (k : String)
      (first : Bool) (out : String) (r : Result (Unit {0}) × Transform lib)
      → ItemsOutcome lib array_field map_item assembles r k
          (array_text first k out)
          (field_tokens fs [])
          true
          kept
      → FieldsLemma fs tail
      → Outcome r out first (keep_field k (result_map arr kept) tail)
  array_step vs fs (throw e) tail k first out r h ih = h
  array_step vs fs (ok ws) tail k first out r h ih =
      field_step fs tail k (arr ws) first h.0 out r
        (h.1
          ∙ ap (λ text. go (field_tokens fs []) (st members k false h.0 text))
              (text_array out first k ws))
        ih

  -- A member that is not the target array.
  plain_member :
      (v : Json) (fs : Fields) (tail : Result Fields) (k key : String) (first first_item : Bool)
      (out : String)
      → is_start_array (first_token lib array_field map_item v) ≡ false
      → FieldsLemma fs tail
      → Outcome
          (go (field_tokens (field k v fs) []) (st members key first first_item out))
          out
          first
          (keep_field k (ok v) tail)
  plain_member v fs tail k key first first_item out h ih =
      field_step fs tail k v first first_item out
        (go (field_tokens (field k v fs) []) (st members key first first_item out))
        (plain_step v k key first first_item out fs (ground (arith, h))) ih

  pub array_member :
      (vs : Items) (fs : Fields) (tail : Result Fields) (k key : String) (first first_item : Bool)
      (out : String)
      → FieldsLemma fs tail
      → Outcome
          (go (field_tokens (field k (arr vs) fs) []) (st members key first first_item out))
          out
          first
          (keep_field k (filter_value array_field map_item k (arr vs)) tail)
  unfolding tokens
  array_member vs fs tail k key first first_item out ih =
      let r = go (field_tokens (field k (arr vs) fs) []) (st members key first first_item out) in
      elim (Bool-cases (k == array_field)) [
        | inr e ↦ rw e (
            field_step fs tail k (arr vs) first first_item out r
              (plain_step (arr vs) k key first first_item out fs (ground (arith, e))) ih)
        | inl e ↦ rw e (
            array_step vs fs (filter_items array_field map_item vs) tail k first out r
              (subst
                (λ p.
                  ItemsOutcome lib array_field map_item assembles p k (array_text first k out)
                    (field_tokens fs []) true (filter_items array_field map_item vs))
                (sym (
                  key_step k key first first_item out
                    (start_array ∷ item_tokens vs (field_tokens fs []))
                  ∙ array_start k key first first_item out (item_tokens vs (field_tokens fs [])) e))
                (items_lem lib array_field map_item assembles vs k (field_tokens fs []) true
                  (array_text first k out)))
              ih)
      ]

  same_value : {A : Type 0} (b : Bool) (x : A) → (if b then x else x) ≡ x
  same_value true x = refl
  same_value false x = refl

  pub scalar_member :
      (v : Json) (k : String) (fs : Fields) (key : String) (first first_item : Bool) (out : String)
      → filter_array array_field map_item v ≡ ok v
      → is_start_array (first_token lib array_field map_item v) ≡ false
      → FieldsLemma fs (filter_fields array_field map_item fs)
      → Outcome
          (go (field_tokens (field k v fs) []) (st members key first first_item out))
          out
          first
          (keep_field k
            (filter_value array_field map_item k v)
            (filter_fields array_field map_item fs))
  scalar_member v k fs key first first_item out kept h ih = rw (kept) (
      rw (same_value (k == array_field) (ok v))
        (plain_member v fs (filter_fields array_field map_item fs) k key first first_item out h ih))
