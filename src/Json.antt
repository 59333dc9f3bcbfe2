-- ===== src/Json.antt =====
-- JSON values, and documents as the code reads them
-- (src/restricted-endpoints/replication/bulk-document/couchdb-dtos/bulk-docs.dto.ts).
-- A number is a natural number: the code computes with revision numbers alone.
pub mod Text
use replication_backend.Prelude.{
  ℕ, String, Bool, true, false, not, Option, none, some, List, [], ◌∷◌, Dict, lookup, ◌==◌, eqb,
  if◌then◌else◌,
}

mutual
  pub data Json : Type 0 where
    null : Json
    bool : Bool → Json
    num : ℕ → Json
    str : String → Json
    arr : Items → Json
    obj : Fields → Json

  pub data Items : Type 0 where
    nil : Items
    cons : Json → Items → Items

  pub data Fields : Type 0 where
    end : Fields
    field : String → Json → Fields → Fields

abbrev pub elems : Items → List Json
elems nil = []
elems (cons v vs) = v ∷ elems vs

abbrev pub of_list : List Json → Items
of_list [] = nil
of_list (v ∷ vs) = cons v (of_list vs)

abbrev pub entries : Fields → Dict Json
entries end = []
entries (field k v fs) = (k, v) ∷ entries fs

abbrev pub of_entries : Dict Json → Fields
of_entries [] = end
of_entries ((k, v) ∷ m) = field k v (of_entries m)

-- `!!v`, where `undefined` is `none`
abbrev pub truthy : Option Json → Bool
truthy none = false
truthy (some null) = false
truthy (some (bool b)) = b
truthy (some (num n)) = not (eqb n 0)
truthy (some (str s)) = not (s == "")
truthy (some (arr xs)) = true
truthy (some (obj fs)) = true

-- `typeof v === 'string'`, with the text
abbrev pub text_of : Option Json → Option String
text_of (some (str s)) = some s
text_of _ = none

-- `v ?? undefined`
abbrev pub non_null : Option Json → Option Json
non_null (some null) = none
non_null v = v

-- A text that is set and not empty, as `if (id)` tests it.
abbrev pub non_empty : Option String → Option String
non_empty none = none
non_empty (some s) = if s == "" then none else some s

-- `class DatabaseDocument`: an object with its keys in order.
abbrev pub DatabaseDocument : Type 0
DatabaseDocument = Dict Json

-- `doc._id`, `doc._rev`, `doc._deleted`
abbrev pub id_of : DatabaseDocument → Option String
id_of doc = text_of (lookup "_id" doc)

abbrev pub rev_of : DatabaseDocument → Option String
rev_of doc = text_of (lookup "_rev" doc)

abbrev pub is_deleted : DatabaseDocument → Bool
is_deleted doc = truthy (lookup "_deleted" doc)
