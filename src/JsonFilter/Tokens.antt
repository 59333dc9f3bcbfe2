-- ===== src/JsonFilter/Tokens.antt =====
-- The tokens that a JSON document is parsed into, and the filter of a whole document, which holds
-- the document in memory.
use replication_backend.Prelude.{◌≡◌, String, Option, none, some, List, ◌∷◌, ◌==◌, if◌then◌else◌}
use replication_backend.Json.{
  Json, null, bool, num, str, arr, obj, Items, nil, cons, Fields, end, field,
}
use replication_backend.Effects.{Result, ok, throw}
use replication_backend.JsonFilter.{
  Token, start_object, end_object, start_array, end_array, key_value, string_value, number_value,
  true_value, false_value, null_value, StreamJson,
}

-- The tokens of a value, before those that follow.
unfoldable mutual
  pub tokens : Json → List Token → List Token
  tokens null rest = null_value ∷ rest
  tokens (bool b) rest = (if b then true_value else false_value) ∷ rest
  tokens (num n) rest = number_value n ∷ rest
  tokens (str s) rest = string_value s ∷ rest
  tokens (arr vs) rest = start_array ∷ item_tokens vs rest
  tokens (obj fs) rest = start_object ∷ field_tokens fs rest

  pub item_tokens : Items → List Token → List Token
  item_tokens nil rest = end_array ∷ rest
  item_tokens (cons v vs) rest = tokens v (item_tokens vs rest)

  pub field_tokens : Fields → List Token → List Token
  field_tokens end rest = end_object ∷ rest
  field_tokens (field k v fs) rest = key_value k ∷ tokens v (field_tokens fs rest)

module _ (lib : StreamJson) where
  open lib use {Assembler, new, consume, current}

  -- An assembler that has consumed the tokens of a value, in their order.
  unfoldable mutual
    pub assemble : Assembler → Json → Assembler
    assemble a null = consume a null_value
    assemble a (bool b) = consume a (if b then true_value else false_value)
    assemble a (num n) = consume a (number_value n)
    assemble a (str s) = consume a (string_value s)
    assemble a (arr vs) = assemble_items (consume a start_array) vs
    assemble a (obj fs) = assemble_fields (consume a start_object) fs

    pub assemble_items : Assembler → Items → Assembler
    assemble_items a nil = consume a end_array
    assemble_items a (cons v vs) = assemble_items (assemble a v) vs

    pub assemble_fields : Assembler → Fields → Assembler
    assemble_fields a end = consume a end_object
    assemble_fields a (field k v fs) = assemble_fields (assemble (consume a (key_value k)) v) fs

  -- What stream-json documents: the tokens of a value assemble to that value.
  abbrev pub Assembles : Type 0
  Assembles = (v : Json) → current (assemble new v) ≡ v

abbrev pub result_map : {A B : Type 0} → (A → B) → Result A → Result B
result_map f (throw e) = throw e
result_map f (ok a) = ok (f a)

abbrev pub keep_item : Result (Option Json) → Result Items → Result Items
keep_item (throw e) rest = throw e
keep_item (ok none) rest = rest
keep_item (ok (some w)) rest = result_map (cons w) rest

abbrev pub keep_field : String → Result Json → Result Fields → Result Fields
keep_field k (throw e) rest = throw e
keep_field k (ok w) rest = result_map (field k w) rest

module _ (array_field : String) (map_item : Json → Result (Option Json)) where
  -- The items that are kept, transformed; the first exception ends it.
  unfoldable pub filter_items : Items → Result Items
  filter_items nil = ok nil
  filter_items (cons v vs) = keep_item (map_item v) (filter_items vs)

  abbrev pub filter_array : Json → Result Json
  filter_array (arr vs) = result_map arr (filter_items vs)
  filter_array v = ok v

  abbrev pub filter_value : String → Json → Result Json
  filter_value key v = if key == array_field then filter_array v else ok v

  unfoldable pub filter_fields : Fields → Result Fields
  filter_fields end = ok end
  filter_fields (field k v fs) = keep_field k (filter_value k v) (filter_fields fs)
