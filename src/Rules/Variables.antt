-- ===== src/Rules/Variables.antt =====
-- What the injection of user variables changes.
use replication_backend.Prelude.{false, starts_with, ◌≡◌, refl, ap, ap₂}
use replication_backend.Json.{
  Json, null, bool, num, str, arr, obj, Items, nil, cons, Fields, end, field,
}
use replication_backend.Casl.{UserInfo, Lodash}
use replication_backend.Rules.{inject_user_variables, inject_items, inject_fields}

-- No text in the value begins with `$`; keys do not count.
abbrev mutual
  pub IsPlain : Json → Type 0
  IsPlain (str s) = starts_with s "$" ≡ false
  IsPlain (arr items) = IsPlainItems items
  IsPlain (obj fields) = IsPlainFields fields
  IsPlain null = Unit
  IsPlain (bool b) = Unit
  IsPlain (num n) = Unit

  pub IsPlainItems : Items → Type 0
  IsPlainItems nil = Unit
  IsPlainItems (cons v items) = IsPlain v × IsPlainItems items

  pub IsPlainFields : Fields → Type 0
  IsPlainFields end = Unit
  IsPlainFields (field k v fields) = IsPlain v × IsPlainFields fields

module _ (lodash : Lodash) (user : UserInfo) where
  mutual
    unfolding inject_user_variables

    inject-plain : (v : Json) → IsPlain v → inject_user_variables lodash user v ≡ v
    inject-plain null h = refl
    inject-plain (bool b) h = refl
    inject-plain (num n) h = refl
    inject-plain (str s) h = rw h refl
    inject-plain (arr items) h = ap arr (inject_items-plain items h)
    inject-plain (obj fields) h = ap obj (inject_fields-plain fields h)

    inject_items-plain :
        (items : Items) → IsPlainItems items → inject_items lodash user items ≡ items
    inject_items-plain nil h = refl
    inject_items-plain (cons v items) h =
        ap₂ cons (inject-plain v h.0) (inject_items-plain items h.1)

    inject_fields-plain :
        (fields : Fields) → IsPlainFields fields → inject_fields lodash user fields ≡ fields
    inject_fields-plain end h = refl
    inject_fields-plain (field k v fields) h =
        ap₂ (field k) (inject-plain v h.0) (inject_fields-plain fields h.1)

  -- Rules in which no text begins with `$` come to every user as they are.
  pub inject_user_variables-IsPlain :
      (v : Json) → IsPlain v → inject_user_variables lodash user v ≡ v
  inject_user_variables-IsPlain v h = inject-plain v h
