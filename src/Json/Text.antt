-- ===== src/Json/Text.antt =====
-- `JSON.stringify` on JSON values, given how it writes a text and a number.
use replication_backend.Prelude.{ℕ, String, Bool, true, false, ◌&◌, if◌then◌else◌}
use replication_backend.Json.{
  Json, null, bool, num, str, arr, obj, Items, nil, cons, Fields, end, field,
}

abbrev pub separator : Bool → String
separator first = if first then "" else ","

module _ (quote : String → String) (digits : ℕ → String) where
  unfoldable mutual
    pub stringify : Json → String
    stringify null = "null"
    stringify (bool b) = if b then "true" else "false"
    stringify (num n) = digits n
    stringify (str s) = quote s
    stringify (arr vs) = "[" & stringify_items true vs
    stringify (obj fs) = "{" & stringify_fields true fs

    -- The rest of an array or object, from its first item or from a later one.
    pub stringify_items : Bool → Items → String
    stringify_items first nil = "]"
    stringify_items first (cons v vs) = separator first & (stringify v & stringify_items false vs)

    pub stringify_fields : Bool → Fields → String
    stringify_fields first end = "}"
    stringify_fields first (field k v fs) =
        separator first & ((quote k & ":") & (stringify v & stringify_fields false fs))
