-- ===== src/Prelude/Assoc.antt =====
-- JavaScript objects and `Map`s with text keys: association lists in the order of insertion.
use Prim.Native.String.{String}
use mathlib.Core.Path.{◌≡◌, refl}
use mathlib.Core.List.{List, [], ◌∷◌}
use mathlib.Core.Option.{Option, none, some}
use native.Mathlib.Omega.{arith}
use text.Mathlib.Text.{◌==◌}
use text.Mathlib.TextEquality.{eq_iff}
use replication_backend.Prelude.Tests.{if◌then◌else◌}

abbrev pub Dict {ℓ} : Type ℓ → Type ℓ
Dict V = List (String × V)

module _ {ℓ} {V : Type ℓ} where
  -- `delete o[key]`, `m.delete(key)`
  unfoldable pub remove : (key : String) → Dict V → Dict V
  remove key [] = []
  remove key (entry ∷ others) =
      let rest = remove key others in if entry.0 == key then rest else entry ∷ rest

  -- `o[key]`, `m.get(key)`; `undefined` is `none`
  unfoldable pub lookup : (key : String) → Dict V → Option V
  lookup key [] = none
  lookup key (entry ∷ others) =
      let later = lookup key others in if entry.0 == key then some entry.1 else later

  pub lookup-remove :
      (key wanted : String) (dict : Dict V)
      → lookup wanted (remove key dict) ≡ (if key == wanted then none else lookup wanted dict)
  unfolding lookup remove
  lookup-remove key wanted [] = ground arith
  lookup-remove key wanted (entry ∷ others) = ground (
    arith,
    lookup-remove key wanted others,
    eq_iff entry.0 key,
    eq_iff entry.0 wanted,
    eq_iff key wanted,
  )

  -- `o[key] = value`, `m.set(key, value)`: a key that is there keeps its place
  unfoldable pub insert : (key : String) (value : V) → Dict V → Dict V
  insert key value [] = (key, value) ∷ []
  insert key value (entry ∷ others) =
      let set_later = entry ∷ insert key value others in
      if entry.0 == key then (entry.0, value) ∷ others else set_later

  pub lookup-insert :
      (key wanted : String) (value : V) (dict : Dict V)
      → lookup wanted (insert key value dict)
        ≡ (if key == wanted then some value else lookup wanted dict)
  unfolding lookup insert
  lookup-insert key wanted value [] = refl
  lookup-insert key wanted value (entry ∷ others) = ground (
    arith,
    lookup-insert key wanted value others,
    eq_iff entry.0 key,
    eq_iff entry.0 wanted,
    eq_iff key wanted,
  )

  -- Removing a key that is not there changes nothing.
  pub remove_absent : (k : String) (m : Dict V) → lookup k m ≡ none → remove k m ≡ m
  unfolding lookup remove
  remove_absent k [] h = refl
  remove_absent k ((i, w) ∷ m) h = ground (arith, remove_absent k m)

pub ruleset dict_laws = (lookup-insert, lookup-remove)
