-- ===== src/AbilityCache/Entries.antt =====
-- Properties of all entries of a dictionary, and its size.
use replication_backend.Prelude.{
  ◌+◌, ◌≤◌, String, some, [], ◌∷◌, Dict, lookup, insert, length, All, ◌==◌, eq_iff, subst, ◌≡◌,
  refl, arith, inl, inr, Bool-cases,
}

module _ {V : Type 0} where
  pub All-insert {κ} :
      (P : String × V → Type κ) (key : String) (value : V) (dict : Dict V)
      → ((k : String) → k ≡ key → P (k, value))
      → All P dict
      → All P (insert key value dict)
  unfolding insert
  All-insert P key value [] new h = (new key refl, tt)
  All-insert P key value (entry ∷ dict) new h = elim (Bool-cases (entry.0 == key)) [
    | inl e ↦ rw e (new entry.0 (ground (arith, e, eq_iff entry.0 key)), h.1)
    | inr e ↦ rw e (h.0, All-insert P key value dict new h.1)
  ]

  -- What is found is a value of an entry under the key.
  pub lookup-All {κ} :
      (P : String × V → Type κ) (key : String) (value : V) (dict : Dict V)
      → All P dict
      → lookup key dict ≡ some value
      → (k : String) × (k ≡ key) × P (k, value)
  unfolding lookup
  lookup-All P key value [] h e = cc
  lookup-All P key value (entry ∷ dict) h e = elim (Bool-cases (entry.0 == key)) [
    | inl b ↦
        let same : entry.1 ≡ value = ground (arith, b, e) in
        (entry.0, ground (arith, b, eq_iff entry.0 key), subst (λ v. P (entry.0, v)) same h.0)
    | inr b ↦ lookup-All P key value dict h.1 (ground (arith, b, e))
  ]

  pub length-insert :
      (key : String) (value : V) (dict : Dict V) → length (insert key value dict) ≤ length dict + 1
  unfolding insert
  length-insert key value [] = omega arith
  length-insert key value (entry ∷ dict) = elim (Bool-cases (entry.0 == key)) [
    | inl e ↦ rw e (omega arith)
    | inr e ↦ rw e (omega (arith, length-insert key value dict))
  ]
