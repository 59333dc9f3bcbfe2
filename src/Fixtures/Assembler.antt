-- ===== src/Fixtures/Assembler.antt =====
-- An assembler over a stack of open arrays and objects, and texts in quotes, for the tests.
use replication_backend.Prelude.{String, true, false, List, [], ◌∷◌, ◌&◌, ◌≡◌, refl, ◌∙◌, ap}
use replication_backend.Json.{
  Json, null, bool, num, str, arr, obj, Items, nil, cons, Fields, end, field,
}
use replication_backend.JsonFilter.{
  Token, start_object, end_object, start_array, end_array, key_value, string_value, number_value,
  true_value, false_value, null_value, other, StreamJson,
}
use replication_backend.JsonFilter.Tokens.{assemble, assemble_items, assemble_fields}

-- An open bracket: what is in it so far, as a function of the rest.
pub data Open : Type 0 where
  in_array : (Items → Items) → Open
  in_object : (Fields → Fields) → String → Open

-- The open brackets, the innermost first, and the value finished last.
abbrev pub Stack : Type 0
Stack = List Open × Json

abbrev pub put_value : Json → Stack → Stack
put_value v ([], finished) = ([], v)
put_value v (in_array before ∷ opened, finished) =
    (in_array (λ rest. before (cons v rest)) ∷ opened, finished)
put_value v (in_object before k ∷ opened, finished) =
    (in_object (λ rest. before (field k v rest)) "" ∷ opened, finished)

abbrev pub set_key : String → Stack → Stack
set_key k (in_object before old ∷ opened, finished) = (in_object before k ∷ opened, finished)
set_key k s = s

abbrev pub close : Stack → Stack
close (in_array before ∷ opened, finished) = put_value (arr (before nil)) (opened, finished)
close (in_object before k ∷ opened, finished) = put_value (obj (before end)) (opened, finished)
close s = s

abbrev pub consume_token : Stack → Token → Stack
consume_token (opened, finished) start_object = (in_object (λ rest. rest) "" ∷ opened, finished)
consume_token (opened, finished) start_array = (in_array (λ rest. rest) ∷ opened, finished)
consume_token s end_object = close s
consume_token s end_array = close s
consume_token s (key_value k) = set_key k s
consume_token s (string_value t) = put_value (str t) s
consume_token s (number_value n) = put_value (num n) s
consume_token s true_value = put_value (bool true) s
consume_token s false_value = put_value (bool false) s
consume_token s null_value = put_value null s
consume_token s (other name) = s

abbrev pub stack_assembler : StreamJson
stack_assembler = record {
  Assembler = Stack;
  new = ([], null);
  consume = consume_token;
  current = λ s. s.1;
  quote = λ text. "'" & text & "'";
  digits = λ n. "0";
}

mutual
  unfolding assemble

  assembled : (v : Json) (s : Stack) → assemble stack_assembler s v ≡ put_value v s
  assembled null s = refl
  assembled (bool true) s = refl
  assembled (bool false) s = refl
  assembled (num n) s = refl
  assembled (str t) s = refl
  assembled (arr vs) (opened, finished) = items_assembled vs (λ rest. rest) opened finished
  assembled (obj fs) (opened, finished) = fields_assembled fs (λ rest. rest) "" opened finished

  items_assembled :
      (vs : Items) (before : Items → Items) (opened : List Open) (finished : Json)
      → assemble_items stack_assembler (in_array before ∷ opened, finished) vs
        ≡ put_value (arr (before vs)) (opened, finished)
  items_assembled nil before opened finished = refl
  items_assembled (cons v vs) before opened finished =
      ap (λ s. assemble_items stack_assembler s vs)
        (assembled v (in_array before ∷ opened, finished))
      ∙ items_assembled vs (λ rest. before (cons v rest)) opened finished

  fields_assembled :
      (fs : Fields) (before : Fields → Fields) (k : String) (opened : List Open) (finished : Json)
      → assemble_fields stack_assembler (in_object before k ∷ opened, finished) fs
        ≡ put_value (obj (before fs)) (opened, finished)
  fields_assembled end before k opened finished = refl
  fields_assembled (field j v fs) before k opened finished =
      ap (λ s. assemble_fields stack_assembler s fs)
        (assembled v (in_object before j ∷ opened, finished))
      ∙ fields_assembled fs (λ rest. before (field j v rest)) "" opened finished

pub stack_assembler_lem :
    (v : Json) → stack_assembler.current (assemble stack_assembler stack_assembler.new v) ≡ v
stack_assembler_lem v = ap (λ s. s.1) (assembled v stack_assembler.new)
