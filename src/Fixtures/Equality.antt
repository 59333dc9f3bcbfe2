-- ===== src/Fixtures/Equality.antt =====
-- A structural `isEqual` for the tests, by which each value equals itself.
use replication_backend.Prelude.{
  ℕ, Bool, true, false, not, ◌&&◌, ◌==◌, eqb, eq_refl, ◌≡◌, refl, arith,
}
use replication_backend.Json.{
  Json, Items, Fields, null, bool, num, str, arr, obj, cons, nil, field, end,
}
use replication_backend.Casl.{Lodash}
use replication_backend.Fixtures.{by_name}

abbrev same_bool : Bool → Bool → Bool
same_bool true b = b
same_bool false b = not b

-- Equality of JSON values.
abbrev mutual
  pub equal_json : Json → Json → Bool
  equal_json null null = true
  equal_json (bool a) (bool b) = same_bool a b
  equal_json (num m) (num n) = eqb m n
  equal_json (str s) (str t) = s == t
  equal_json (arr xs) (arr ys) = equal_items xs ys
  equal_json (obj fs) (obj gs) = equal_fields fs gs
  equal_json _ _ = false

  equal_items : Items → Items → Bool
  equal_items nil nil = true
  equal_items (cons v vs) (cons w ws) = equal_json v w && equal_items vs ws
  equal_items _ _ = false

  equal_fields : Fields → Fields → Bool
  equal_fields end end = true
  equal_fields (field k v fs) (field j w gs) = k == j && equal_json v w && equal_fields fs gs
  equal_fields _ _ = false

same_bool_self : (b : Bool) → same_bool b b ≡ true
same_bool_self true = refl
same_bool_self false = refl

eqb_self : (n : ℕ) → eqb n n ≡ true
eqb_self n = ground arith

mutual
  pub equal_self : (v : Json) → equal_json v v ≡ true
  equal_self null = refl
  equal_self (bool b) = same_bool_self b
  equal_self (num n) = eqb_self n
  equal_self (str s) = eq_refl s
  equal_self (arr vs) = items_self vs
  equal_self (obj fs) = fields_self fs

  items_self : (vs : Items) → equal_items vs vs ≡ true
  items_self nil = refl
  items_self (cons v vs) = rw (equal_self v) (items_self vs)

  fields_self : (fs : Fields) → equal_fields fs fs ≡ true
  fields_self end = refl
  fields_self (field k v fs) = rw eq_refl (rw (equal_self v) (fields_self fs))

abbrev pub structural : Lodash
structural = record by_name { is_equal = equal_json }
