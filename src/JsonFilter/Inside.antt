-- ===== src/JsonFilter/Inside.antt =====
-- A value inside an array or object that the transform is assembling goes to the assembler whole.
use replication_backend.Prelude.{
  ℕ, suc, String, true, false, Option, some, List, ◌∷◌, ◌≡◌, refl, ◌∙◌, arith,
}
use replication_backend.Json.{
  Json, null, bool, num, str, arr, obj, Items, nil, cons, Fields, end, field,
}
use replication_backend.Effects.{Result, ok}
use replication_backend.JsonFilter.{
  Token, start_object, end_object, start_array, end_array, key_value, string_value, number_value,
  true_value, false_value, null_value, StreamJson, Transform, Mode, value, items, process_token,
  process_tokens, consumed, consume_value_token, value_token, item_token, depth_after,
}
use replication_backend.JsonFilter.Tokens.{
  tokens, item_tokens, field_tokens, assemble, assemble_items, assemble_fields,
}

-- The two modes in which values are assembled.
pub data Collects : Mode → Type 0 where
  a_value : Collects value
  an_item : Collects items

module _ (lib : StreamJson) (array_field : String) (map_item : Json → Result (Option Json)) where
  open lib use {Assembler, new, consume, current}

  -- The transform while it assembles a value, `depth` brackets deep.
  abbrev pub inside : Transform lib → Mode → Assembler → ℕ → Transform lib
  inside s m a depth = record s { mode = m; assembler = some a; value_depth = depth }

  abbrev run : List Token → Transform lib → Result (Unit {0}) × Transform lib
  run = process_tokens lib array_field map_item

  pub process_inside :
      (s : Transform lib) (m : Mode) (collects : Collects m) (a : Assembler) (depth : ℕ)
      (token : Token)
      → process_token lib array_field map_item token (inside s m a depth)
        ≡ consumed lib array_field map_item
            (consume a token)
            (depth_after token depth)
            (inside s m a depth)
  unfolding process_token value_token item_token consume_value_token
  process_inside s m a_value a depth token = refl
  process_inside s m an_item a depth token = refl

  consumed_open :
      (s : Transform lib) (m : Mode) (a b : Assembler) (depth after : ℕ)
      → consumed lib array_field map_item b (suc after) (inside s m a depth)
        ≡ (ok tt, inside s m b (suc after))
  unfolding consumed
  consumed_open s m a b depth after = ground arith

  -- A token that is accepted.
  pub run_step :
      (token : Token) (rest : List Token) (s s' : Transform lib)
      → process_token lib array_field map_item token s ≡ (ok tt, s')
      → run (token ∷ rest) s ≡ run rest s'
  unfolding process_tokens
  run_step token rest s s' h = ground (arith, h)

  -- One token that leaves a bracket open.
  pub step_inside :
      (s : Transform lib) (m : Mode) (collects : Collects m) (a : Assembler) (depth after : ℕ)
      (token : Token) (rest : List Token)
      → depth_after token depth ≡ suc after
      → run (token ∷ rest) (inside s m a depth)
        ≡ run rest (inside s m (consume a token) (suc after))
  step_inside s m collects a depth after token rest h =
      run_step token rest (inside s m a depth) (inside s m (consume a token) (suc after)) (
        process_inside s m collects a depth token
        ∙ rw h (consumed_open s m a (consume a token) depth after))

  mutual
    unfolding tokens assemble

    pub value_inside :
        (v : Json) (s : Transform lib) (m : Mode) (collects : Collects m) (a : Assembler)
        (depth : ℕ) (rest : List Token)
        → run (tokens v rest) (inside s m a (suc depth))
          ≡ run rest (inside s m (assemble lib a v) (suc depth))
    value_inside null s m c a depth rest =
        step_inside s m c a (suc depth) depth null_value rest refl
    value_inside (bool true) s m c a depth rest =
        step_inside s m c a (suc depth) depth true_value rest refl
    value_inside (bool false) s m c a depth rest =
        step_inside s m c a (suc depth) depth false_value rest refl
    value_inside (num n) s m c a depth rest =
        step_inside s m c a (suc depth) depth (number_value n) rest refl
    value_inside (str t) s m c a depth rest =
        step_inside s m c a (suc depth) depth (string_value t) rest refl
    value_inside (arr vs) s m c a depth rest =
        step_inside s m c a (suc depth) (suc depth) start_array (item_tokens vs rest) (omega arith)
        ∙ items_inside vs s m c (consume a start_array) depth rest
    value_inside (obj fs) s m c a depth rest =
        step_inside s m c a (suc depth) (suc depth) start_object (field_tokens fs rest)
          (omega arith)
        ∙ fields_inside fs s m c (consume a start_object) depth rest

    items_inside :
        (vs : Items) (s : Transform lib) (m : Mode) (collects : Collects m) (a : Assembler)
        (depth : ℕ) (rest : List Token)
        → run (item_tokens vs rest) (inside s m a (suc (suc depth)))
          ≡ run rest (inside s m (assemble_items lib a vs) (suc depth))
    items_inside nil s m c a depth rest =
        step_inside s m c a (suc (suc depth)) depth end_array rest (omega arith)
    items_inside (cons v vs) s m c a depth rest =
        value_inside v s m c a (suc depth) (item_tokens vs rest)
        ∙ items_inside vs s m c (assemble lib a v) depth rest

    fields_inside :
        (fs : Fields) (s : Transform lib) (m : Mode) (collects : Collects m) (a : Assembler)
        (depth : ℕ) (rest : List Token)
        → run (field_tokens fs rest) (inside s m a (suc (suc depth)))
          ≡ run rest (inside s m (assemble_fields lib a fs) (suc depth))
    fields_inside end s m c a depth rest =
        step_inside s m c a (suc (suc depth)) depth end_object rest (omega arith)
    fields_inside (field k v fs) s m c a depth rest =
        step_inside s m c a (suc (suc depth)) (suc depth) (key_value k)
          (tokens v (field_tokens fs rest)) refl
        ∙ value_inside v s m c (consume a (key_value k)) (suc depth) (field_tokens fs rest)
        ∙ fields_inside fs s m c (assemble lib (consume a (key_value k)) v) depth rest
