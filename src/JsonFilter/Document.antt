-- ===== src/JsonFilter/Document.antt =====
-- The transform on the tokens of a whole document, against the filter of the document in memory.
use replication_backend.Prelude.{
  String, Bool, true, false, Option, List, [], ◌∷◌, ◌≡◌, refl, sym, subst, arith,
}
use replication_backend.Json.{Json, null, bool, num, str, arr, obj, Fields, end, field}
use replication_backend.Json.Text.{stringify}
use replication_backend.Effects.{Result, ok, throw}
use replication_backend.JsonFilter.{
  Token, start_object, end_object, StreamJson, Transform, Mode, members, process_token,
  process_tokens, member_token, root_token, new_transform, transform, flush,
}
use replication_backend.JsonFilter.Tokens.{tokens, field_tokens, Assembles, filter_fields}
use replication_backend.JsonFilter.Inside.{run_step}
use replication_backend.JsonFilter.Whole.{run}
use replication_backend.JsonFilter.Array.{state}
use replication_backend.JsonFilter.Members.{Outcome, FieldsLemma, array_member, scalar_member}

module _ (lib : StreamJson) (array_field : String) (map_item : Json → Result (Option Json))
    (assembles : Assembles lib) where
  open lib use {quote, digits}

  abbrev st : Mode → String → Bool → Bool → String → Transform lib
  st = state lib array_field map_item assembles

  abbrev go : List Token → Transform lib → Result (Unit {0}) × Transform lib
  go = run lib array_field map_item

  object_end :
      (key : String) (first first_item : Bool) (out : String)
      → Outcome lib array_field map_item assembles
          (go (end_object ∷ []) (st members key first first_item out))
          out
          first
          (ok end)
  unfolding process_tokens process_token member_token stringify
  object_end key first first_item out = (refl, refl, refl)

  fields_lem :
      (fs : Fields)
      → FieldsLemma lib array_field map_item assembles fs (filter_fields array_field map_item fs)
  unfolding filter_fields tokens
  fields_lem end key first first_item out = object_end key first first_item out
  fields_lem (field k (arr vs) fs) key first first_item out =
      array_member lib array_field map_item assembles vs fs (filter_fields array_field map_item fs)
        k key first first_item out (fields_lem fs)
  fields_lem (field k null fs) key first first_item out =
      scalar_member lib array_field map_item assembles null k fs key first first_item out refl refl
        (fields_lem fs)
  fields_lem (field k (bool true) fs) key first first_item out =
      scalar_member lib array_field map_item assembles (bool true) k fs key first first_item out
        refl refl (fields_lem fs)
  fields_lem (field k (bool false) fs) key first first_item out =
      scalar_member lib array_field map_item assembles (bool false) k fs key first first_item out
        refl refl (fields_lem fs)
  fields_lem (field k (num n) fs) key first first_item out =
      scalar_member lib array_field map_item assembles (num n) k fs key first first_item out refl
        refl (fields_lem fs)
  fields_lem (field k (str s) fs) key first first_item out =
      scalar_member lib array_field map_item assembles (str s) k fs key first first_item out refl
        refl (fields_lem fs)
  fields_lem (field k (obj gs) fs) key first first_item out =
      scalar_member lib array_field map_item assembles (obj gs) k fs key first first_item out refl
        refl (fields_lem fs)

  -- What a stream ends with, given the filter of the whole document.
  abbrev pub Streams : Result (Unit {0}) × Transform lib → Result Fields → Type 0
  Streams r (throw e) = r.0 ≡ throw e
  Streams r (ok gs) = (r.0 ≡ ok tt) × (r.1.pushed ≡ stringify quote digits (obj gs))

  root_step :
      (fs : Fields)
      → go (tokens (obj fs) []) (new_transform lib)
        ≡ go (field_tokens fs []) (st members "" true true "{")
  unfolding tokens process_token root_token
  root_step fs =
      run_step lib array_field map_item start_object (field_tokens fs []) (new_transform lib)
        (st members "" true true "{") refl

  flushed :
      (fs : Fields) (expected : Result Fields)
      → Outcome lib array_field map_item assembles
          (go (tokens (obj fs) []) (new_transform lib))
          "{"
          true
          expected
      → Streams (transform lib array_field map_item (tokens (obj fs) [])) expected
  unfolding transform flush stringify
  flushed fs (throw e) h = ground (arith, h)
  flushed fs (ok gs) h = (ground (arith, h.0, h.1), ground (arith, h.0, h.1, h.2))

  -- Streaming the tokens of a JSON object writes the JSON text of the object that the filter makes of
  -- it in memory: with the array under the given key filtered, and all else, and the order, as it
  -- was. It fails where, and as, the first of the items fails to be transformed.
  pub transform-tokens :
      (fs : Fields)
      → Streams
          (transform lib array_field map_item (tokens (obj fs) []))
          (filter_fields array_field map_item fs)
  transform-tokens fs = flushed fs (filter_fields array_field map_item fs) (
      subst
        (λ p.
          Outcome lib array_field map_item assembles p "{" true
            (filter_fields array_field map_item fs))
        (sym (root_step fs)) (fields_lem fs "" true true "{"))
