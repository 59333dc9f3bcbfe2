-- ===== src/JsonFilter/Tests.antt =====
-- Tests of the filter of JSON streams.
use replication_backend.Prelude.{true, Option, none, some, List, [], ◌∷◌, ◌++◌, ◌≡◌, ◌≢◌, refl}
use replication_backend.Json.{Json, null, bool, num, arr, obj, nil, cons, Fields, end, field}
use replication_backend.Json.Text.{stringify}
use replication_backend.Effects.{Result, ok}
use replication_backend.JsonFilter.{
  Token, start_object, end_object, start_array, end_array, key_value, number_value, true_value,
  null_value, root_token, member_token, value_token, item_token, consume_value_token, consumed,
  on_complete, process_tokens, process_token, flush, transform,
}
use replication_backend.JsonFilter.Tokens.{tokens, filter_items, filter_fields}
use replication_backend.JsonFilter.Document.{Streams, transform-tokens}
use replication_backend.JsonFilter.Truncated.{truncated_fails}
use replication_backend.Fixtures.Assembler.{stack_assembler, stack_assembler_lem}

-- Numbers are kept.
abbrev numbers_only : Json → Result (Option Json)
numbers_only (num n) = ok (some (num n))
numbers_only v = ok none

abbrev two_members : Fields
two_members =
    field "docs" (arr (cons (num 1) (cons null (cons (num 2) nil)))) (field "more" (bool true) end)

abbrev kept_members : Fields
kept_members = field "docs" (arr (cons (num 1) (cons (num 2) nil))) (field "more" (bool true) end)

abbrev received : List Token
received = start_object ∷ key_value "docs" ∷ start_array ∷ number_value 1 ∷ []

abbrev missing : List Token
missing = null_value ∷ number_value 2 ∷ end_array ∷ key_value "more" ∷ true_value ∷ end_object ∷ []

transform-tokens_example :
    Streams stack_assembler "docs" numbers_only stack_assembler_lem
      (transform stack_assembler "docs" numbers_only (tokens (obj two_members) []))
      (filter_fields "docs" numbers_only two_members)
transform-tokens_example =
    transform-tokens stack_assembler "docs" numbers_only stack_assembler_lem two_members

kept : filter_fields "docs" numbers_only two_members ≡ ok kept_members
unfolding filter_fields filter_items
kept = refl

cut : received ++ missing ≡ tokens (obj two_members) []
unfolding tokens
cut = refl

truncated_fails_example : (transform stack_assembler "docs" numbers_only received).0 ≢ ok tt
truncated_fails_example =
    truncated_fails stack_assembler "docs" numbers_only stack_assembler_lem two_members kept_members
      received missing kept cut (λ p. cc)

-- The text, where a key is written in single quotes and each number as 0.
written :
    (transform stack_assembler "docs" numbers_only (tokens (obj two_members) [])).1.pushed
    ≡ "{'docs':[0,0],'more':true}"
unfolding transform process_tokens process_token flush tokens stringify root_token member_token
    value_token item_token consume_value_token consumed on_complete
written = refl
