-- ===== src/JsonFilter.antt =====
-- src/common/json-array-filter.ts: the filter of one array of a JSON document that arrives as a
-- stream of tokens. The parser and the assembler of stream-json are outside the program.
pub mod Tokens
pub mod Inside
pub mod Whole
pub mod Array
pub mod Members
pub mod Document
pub mod Truncated
mod Tests
use replication_backend.Prelude.{
  ℕ, ◌+◌, ◌-◌, String, Bool, true, false, not, ◌&&◌, Option, none, some, List, [], ◌∷◌, ◌==◌, eqb,
  ◌&◌, or_else, is_some, if◌then◌else◌,
}
use replication_backend.Json.{Json, str}
use replication_backend.Json.Text.{stringify}
use replication_backend.Effects.{
  Result, ok, throw, Error, other_error, Io, pure, raise, ◌>>=◌, ◌>>◌,
}

-- `interface JsonToken`: the tokens of a parser that packs keys and values. The text of a number
-- stands here as the number; `other` is a token by any other name.
pub data Token : Type 0 where
  start_object end_object start_array end_array : Token
  key_value : String → Token
  string_value : String → Token
  number_value : ℕ → Token
  true_value false_value null_value : Token
  other : String → Token

-- `VALUE_START_TOKENS.has(token.name)`
abbrev pub starts_value : Token → Bool
starts_value start_object = true
starts_value start_array = true
starts_value (string_value s) = true
starts_value (number_value n) = true
starts_value true_value = true
starts_value false_value = true
starts_value null_value = true
starts_value _ = false

abbrev pub is_start_array : Token → Bool
is_start_array start_array = true
is_start_array _ = false

abbrev pub is_end_array : Token → Bool
is_end_array end_array = true
is_end_array _ = false

-- `valueDepth` after a token
abbrev pub depth_after : Token → ℕ → ℕ
depth_after start_object depth = depth + 1
depth_after start_array depth = depth + 1
depth_after end_object depth = depth - 1
depth_after end_array depth = depth - 1
depth_after _ depth = depth

-- `Assembler` of stream-json, and how JSON.stringify writes a text and a number.
pub record StreamJson : Type 1 where
  pub Assembler : Type 0
  pub new : Assembler
  pub consume : Assembler → Token → Assembler
  pub current : Assembler → Json
  pub quote : String → String
  pub digits : ℕ → String

pub data Mode : Type 0 where
  init members value items done : Mode

-- `token.name`
abbrev pub token_name : Token → String
token_name start_object = "startObject"
token_name end_object = "endObject"
token_name start_array = "startArray"
token_name end_array = "endArray"
token_name (key_value k) = "keyValue"
token_name (string_value s) = "stringValue"
token_name (number_value n) = "numberValue"
token_name true_value = "trueValue"
token_name false_value = "falseValue"
token_name null_value = "nullValue"
token_name (other name) = name

abbrev pub unexpected : Token → String → Error
unexpected token where_found =
    other_error ("Unexpected token \"" & token_name token & "\"" & where_found)

abbrev pub not_an_object : Token → Error
not_an_object token =
    other_error ("Expected a JSON object as response root, got token \"" & token_name token & "\"")

abbrev pub truncated : Error
truncated = other_error "Unexpected end of JSON stream (truncated upstream body)"

module _ (lib : StreamJson) where
  open lib use {Assembler, new, consume, current, quote, digits}

  -- `class JsonArrayFilterTransform`, with the text that it has pushed
  pub record Transform : Type 0 where
    pub mode : Mode
    pub pending_key : String
    pub first_member : Bool
    pub first_item : Bool
    pub assembler : Option Assembler
    pub value_depth : ℕ
    pub pushed : String

  abbrev pub new_transform : Transform
  new_transform = record {
    mode = init;
    pending_key = "";
    first_member = true;
    first_item = true;
    assembler = none;
    value_depth = 0;
    pushed = "";
  }

  abbrev pub text_of_value : Json → String
  text_of_value = stringify quote digits

  abbrev pub push : String → Transform → Transform
  push text s = record s { pushed = s.pushed & text }

  abbrev pub push_member_prefix : Transform → Transform
  push_member_prefix s =
      let separated = if s.first_member then s else push "," s in
      record separated { first_member = false }

  -- A whole member: the value of a key other than the target array.
  abbrev pub member_done : Json → Transform → Transform
  member_done v s =
      let keyed = push (text_of_value (str s.pending_key) & ":") (push_member_prefix s) in
      record (push (text_of_value v) keyed) { mode = members }

  abbrev pub item_done : Option Json → Transform → Transform
  item_done none s = record s { mode = items }
  item_done (some mapped) s =
      let separated = if s.first_item then s else push "," s in
      record (push (text_of_value mapped) separated) { first_item = false; mode = items }

  module _ (array_field : String) (map_item : Json → Result (Option Json)) where
    -- `onComplete`, by the mode that it was given in
    unfoldable pub on_complete : Mode → Json → Io Transform (Unit {0})
    on_complete items item s = elim (map_item item) [
      | ok mapped ↦ (ok tt, item_done mapped s)
      | throw e ↦ (throw e, s)
    ]
    on_complete _ v s = (ok tt, member_done v s)

    -- The token has gone to the assembler.
    unfoldable pub consumed : Assembler → ℕ → Io Transform (Unit {0})
    consumed assembler depth s =
        if eqb depth 0
        then on_complete s.mode (current assembler) (record s { assembler = none; value_depth = 0 })
        else (ok tt, record s { assembler = some assembler; value_depth = depth })

    unfoldable pub consume_value_token : Token → Io Transform (Unit {0})
    consume_value_token token s = elim s.assembler [
      | none ↦
          if starts_value token
          then consumed (consume new token) (depth_after token 0) s
          else (throw (unexpected token ", expected a value"), s)
      | some assembler ↦ consumed (consume assembler token) (depth_after token s.value_depth) s
    ]

    -- `case 'members'`
    unfoldable pub member_token : Token → Io Transform (Unit {0})
    member_token (key_value key) s =
        (ok tt, record s { pending_key = key; mode = value; assembler = none })
    member_token end_object s = (ok tt, record (push "}" s) { mode = done })
    member_token token s = (throw (unexpected token " in object"), s)

    -- `case 'value'`
    unfoldable pub value_token : Token → Io Transform (Unit {0})
    value_token token s =
        if not (is_some s.assembler) && s.pending_key == array_field && is_start_array token
        then (
          ok tt,
          record (push (text_of_value (str s.pending_key) & ":[") (push_member_prefix s)) {
            mode = items;
            first_item = true;
          },
        )
        else consume_value_token token s

    -- `case 'items'`
    unfoldable pub item_token : Token → Io Transform (Unit {0})
    item_token token s =
        if not (is_some s.assembler) && is_end_array token
        then (ok tt, record (push "]" s) { mode = members })
        else consume_value_token token s

    -- `case 'init'`
    unfoldable pub root_token : Token → Io Transform (Unit {0})
    root_token start_object s = (ok tt, record (push "{" s) { mode = members })
    root_token token s = (throw (not_an_object token), s)

    abbrev pub token_in : Mode → Token → Io Transform (Unit {0})
    token_in init token s = root_token token s
    token_in members token s = member_token token s
    token_in value token s = value_token token s
    token_in items token s = item_token token s
    token_in done token s = (throw (unexpected token " after JSON root"), s)

    unfoldable pub process_token : Token → Io Transform (Unit {0})
    process_token token s = token_in s.mode token s

    -- The tokens that arrive, until one is refused.
    unfoldable pub process_tokens : List Token → Io Transform (Unit {0})
    process_tokens [] s = (ok tt, s)
    process_tokens (token ∷ tokens) s =
        let (r, s') = process_token token s in
        elim r [ throw e ↦ (throw e, s') | ok _ ↦ process_tokens tokens s' ]

    abbrev pub is_done : Mode → Bool
    is_done done = true
    is_done _ = false

    -- `_flush`
    unfoldable pub flush : Io Transform (Unit {0})
    flush s = if is_done s.mode then (ok tt, s) else (throw truncated, s)

    -- A whole stream, from the first token to the flush at its end.
    unfoldable pub transform : List Token → Result (Unit {0}) × Transform
    transform tokens = (process_tokens tokens >> flush) new_transform
