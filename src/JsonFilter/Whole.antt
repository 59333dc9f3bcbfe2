-- ===== src/JsonFilter/Whole.antt =====
-- The tokens of a whole value, where none is being assembled.
use replication_backend.Prelude.{
  String, true, false, ◌&&◌, Option, none, List, ◌∷◌, ◌≡◌, refl, ◌∙◌, ap, arith, ◌==◌,
  if◌then◌else◌, ◌⊎◌, inl, inr,
}
use replication_backend.Json.{
  Json, null, bool, num, str, arr, obj, Items, nil, cons, Fields, end, field,
}
use replication_backend.Effects.{Result, ok, throw}
use replication_backend.JsonFilter.{
  Token, start_object, end_object, start_array, end_array, key_value, string_value, number_value,
  true_value, false_value, null_value, StreamJson, Transform, Mode, items, process_token,
  process_tokens, consumed, consume_value_token, value_token, item_token, depth_after, on_complete,
  starts_value, is_start_array, is_end_array,
}
use replication_backend.JsonFilter.Tokens.{
  tokens, item_tokens, field_tokens, assemble, assemble_items, assemble_fields, Assembles,
}
use replication_backend.JsonFilter.Inside.{
  Collects, a_value, an_item, inside, run_step, process_inside, step_inside, value_inside,
}

module _ (lib : StreamJson) (array_field : String) (map_item : Json → Result (Option Json)) where
  open lib use {Assembler, new, consume, current}

  abbrev pub run : List Token → Transform lib → Result (Unit {0}) × Transform lib
  run = process_tokens lib array_field map_item

  -- The transform between two values.
  abbrev pub between : Transform lib → Mode → Transform lib
  between s m = record s { mode = m; assembler = none; value_depth = 0 }

  -- What follows after a step, unless it threw.
  abbrev pub continue :
      Result (Unit {0}) × Transform lib → List Token → Result (Unit {0}) × Transform lib
  continue (throw e, s) rest = (throw e, s)
  continue (ok _, s) rest = run rest s

  abbrev pub complete : Mode → Json → Transform lib → Result (Unit {0}) × Transform lib
  complete m v s = on_complete lib array_field map_item m v (between s m)

  continue_step :
      (token : Token) (rest : List Token) (s : Transform lib)
      (p : Result (Unit {0}) × Transform lib)
      → process_token lib array_field map_item token s ≡ p
      → run (token ∷ rest) s ≡ continue p rest
  unfolding process_tokens
  continue_step token rest s (throw e, t) h = ground (arith, h)
  continue_step token rest s (ok _, t) h = ground (arith, h)

  consumed_closed :
      (s : Transform lib) (m : Mode) (b : Assembler) (t : Transform lib)
      → record t { mode = m; assembler = none; value_depth = 0 } ≡ between s m
      → t.mode ≡ m
      → consumed lib array_field map_item b 0 t ≡ complete m (current b) s
  unfolding consumed
  consumed_closed s m b t h k = ground (arith, h, k)

  -- A closing bracket at depth 1 completes the value.
  close_outer :
      (s : Transform lib) (m : Mode) (collects : Collects m) (a : Assembler) (token : Token)
      (rest : List Token)
      → depth_after token 1 ≡ 0
      → run (token ∷ rest) (inside lib array_field map_item s m a 1)
        ≡ continue (complete m (current (consume a token)) s) rest
  unfolding consumed
  close_outer s m collects a token rest h =
      continue_step token rest (inside lib array_field map_item s m a 1)
        (complete m (current (consume a token)) s)
        (process_inside lib array_field map_item s m collects a 1 token ∙ rw h refl)

  items_outer :
      (vs : Items) (s : Transform lib) (m : Mode) (collects : Collects m) (a : Assembler)
      (rest : List Token)
      → run (item_tokens vs rest) (inside lib array_field map_item s m a 1)
        ≡ continue (complete m (current (assemble_items lib a vs)) s) rest
  unfolding tokens assemble
  items_outer nil s m c a rest = close_outer s m c a end_array rest (omega arith)
  items_outer (cons v vs) s m c a rest =
      value_inside lib array_field map_item v s m c a 0 (item_tokens vs rest)
      ∙ items_outer vs s m c (assemble lib a v) rest

  fields_outer :
      (fs : Fields) (s : Transform lib) (m : Mode) (collects : Collects m) (a : Assembler)
      (rest : List Token)
      → run (field_tokens fs rest) (inside lib array_field map_item s m a 1)
        ≡ continue (complete m (current (assemble_fields lib a fs)) s) rest
  unfolding tokens assemble
  fields_outer end s m c a rest = close_outer s m c a end_object rest (omega arith)
  fields_outer (field k v fs) s m c a rest =
      step_inside lib array_field map_item s m c a 1 0 (key_value k)
        (tokens v (field_tokens fs rest)) refl
      ∙ value_inside lib array_field map_item v s m c (consume a (key_value k)) 0
          (field_tokens fs rest)
      ∙ fields_outer fs s m c (assemble lib (consume a (key_value k)) v) rest

  -- The value is not the target array itself.
  abbrev pub IsPlain : Mode → String → Token → Type 0
  IsPlain m key token = (m ≡ items) ⊎ ((key == array_field && is_start_array token) ≡ false)

  -- The first token of a value goes to a new assembler.
  process_first :
      (s : Transform lib) (m : Mode) (collects : Collects m) (token : Token)
      → starts_value token ≡ true
      → is_end_array token ≡ false
      → IsPlain m s.pending_key token
      → process_token lib array_field map_item token (between s m)
        ≡ consumed lib array_field map_item (consume new token) (depth_after token 0) (between s m)
  unfolding process_token value_token item_token consume_value_token
  process_first s m a_value token h k p = elim p [ inl e ↦ cc | inr q ↦ ground (arith, q, h) ]
  process_first s m an_item token h k p = ground (arith, k, h)

  scalar_whole :
      (s : Transform lib) (m : Mode) (collects : Collects m) (token : Token) (rest : List Token)
      → starts_value token ≡ true
      → is_end_array token ≡ false
      → IsPlain m s.pending_key token
      → depth_after token 0 ≡ 0
      → run (token ∷ rest) (between s m)
        ≡ continue (complete m (current (consume new token)) s) rest
  unfolding consumed
  scalar_whole s m collects token rest h k p d =
      continue_step token rest (between s m) (complete m (current (consume new token)) s)
        (process_first s m collects token h k p ∙ rw d refl)

  bracket_whole :
      (s : Transform lib) (m : Mode) (collects : Collects m) (token : Token) (rest : List Token)
      → starts_value token ≡ true
      → is_end_array token ≡ false
      → IsPlain m s.pending_key token
      → depth_after token 0 ≡ 1
      → run (token ∷ rest) (between s m)
        ≡ run rest (inside lib array_field map_item s m (consume new token) 1)
  unfolding consumed
  bracket_whole s m collects token rest h k p d =
      run_step lib array_field map_item token rest (between s m)
        (inside lib array_field map_item s m (consume new token) 1)
        (process_first s m collects token h k p ∙ rw d refl)

  abbrev pub first_token : Json → Token
  first_token null = null_value
  first_token (bool b) = if b then true_value else false_value
  first_token (num n) = number_value n
  first_token (str t) = string_value t
  first_token (arr vs) = start_array
  first_token (obj fs) = start_object

  -- The tokens of a value hand it over as a whole.
  pub value_whole :
      (assembles : Assembles lib) (v : Json) (s : Transform lib) (m : Mode) (collects : Collects m)
      (rest : List Token)
      → IsPlain m s.pending_key (first_token v)
      → run (tokens v rest) (between s m) ≡ continue (complete m v s) rest
  unfolding tokens assemble
  value_whole assembles null s m c rest p =
      scalar_whole s m c null_value rest refl refl p refl
      ∙ ap (λ v. continue (complete m v s) rest) (assembles null)
  value_whole assembles (bool true) s m c rest p =
      scalar_whole s m c true_value rest refl refl p refl
      ∙ ap (λ v. continue (complete m v s) rest) (assembles (bool true))
  value_whole assembles (bool false) s m c rest p =
      scalar_whole s m c false_value rest refl refl p refl
      ∙ ap (λ v. continue (complete m v s) rest) (assembles (bool false))
  value_whole assembles (num n) s m c rest p =
      scalar_whole s m c (number_value n) rest refl refl p refl
      ∙ ap (λ v. continue (complete m v s) rest) (assembles (num n))
  value_whole assembles (str t) s m c rest p =
      scalar_whole s m c (string_value t) rest refl refl p refl
      ∙ ap (λ v. continue (complete m v s) rest) (assembles (str t))
  value_whole assembles (arr vs) s m c rest p =
      bracket_whole s m c start_array (item_tokens vs rest) refl refl p (omega arith)
      ∙ items_outer vs s m c (consume new start_array) rest
      ∙ ap (λ v. continue (complete m v s) rest) (assembles (arr vs))
  value_whole assembles (obj fs) s m c rest p =
      bracket_whole s m c start_object (field_tokens fs rest) refl refl p (omega arith)
      ∙ fields_outer fs s m c (consume new start_object) rest
      ∙ ap (λ v. continue (complete m v s) rest) (assembles (obj fs))
