-- ===== src/Prelude/Lists.antt =====
-- Lists: Boolean filters and searches, predicates by recursion, sublists.
use Prim.Native.Nat.{ℕ, suc, ◌+◌, ◌≤◌}
use mathlib.Core.Path.{◌≡◌, refl, ap}
use mathlib.Core.Bool.{Bool, true, false, ◌&&◌, ◌||◌}
use mathlib.Core.Logic.{inl, inr}
use mathlib.Core.List.{List, [], ◌∷◌, ◌++◌}
use mathlib.Core.Logic.{◌↔◌}
use mathlib.Core.List.{Memᴰ}
use mathlib.Core.List.Memᴰ
use mathlib.Core.List.Memᴰ.{head, tail}
use mathlib.Core.Option.{Option, none, some}
use native.Mathlib.Omega.{arith}
use replication_backend.Prelude.Tests.{if◌then◌else◌, Bool-cases}

module _ {ℓ} {A : Type ℓ} where
  abbrev pub length : List A → ℕ
  length [] = 0
  length (x ∷ xs) = suc (length xs)

  -- `xs.filter(p)`
  abbrev pub filter : (A → Bool) → List A → List A
  filter p [] = []
  filter p (x ∷ xs) = let rest = filter p xs in if p x then x ∷ rest else rest

  -- `xs.some(p)`
  abbrev pub any : (A → Bool) → List A → Bool
  any p [] = false
  any p (x ∷ xs) = p x || any p xs

  abbrev pub all : (A → Bool) → List A → Bool
  all p [] = true
  all p (x ∷ xs) = p x && all p xs

  abbrev pub All {κ} : (A → Type κ) → List A → Type κ
  All P [] = Unit
  All P (x ∷ xs) = P x × All P xs

  pub All-filter {κ} :
      (P : A → Type κ) (p : A → Bool) (xs : List A)
      → ((x : A) → p x ≡ true → P x)
      → All P (filter p xs)
  All-filter P p [] h = tt
  All-filter P p (x ∷ xs) h = elim (Bool-cases (p x)) [
    | inl e ↦ rw e (h x e, All-filter P p xs h)
    | inr e ↦ rw e (All-filter P p xs h)
  ]

  pub All-map {κ κ'} :
      (P : A → Type κ) (Q : A → Type κ') (xs : List A) → ((x : A) → P x → Q x) → All P xs → All Q xs
  All-map P Q [] f h = tt
  All-map P Q (x ∷ xs) f h = (f x h.0, All-map P Q xs f h.1)

  pub All-append {κ} : (P : A → Type κ) (xs ys : List A) → All P xs → All P ys → All P (xs ++ ys)
  All-append P [] ys h k = k
  All-append P (x ∷ xs) ys h k = (h.0, All-append P xs ys h.1 k)

  pub length-append : (xs ys : List A) → length (xs ++ ys) ≡ length xs + length ys
  length-append [] ys = omega arith
  length-append (x ∷ xs) ys = omega (arith, length-append xs ys)

  pub filter-append :
      (p : A → Bool) (xs ys : List A) → filter p (xs ++ ys) ≡ filter p xs ++ filter p ys
  filter-append p [] ys = refl
  filter-append p (x ∷ xs) ys = elim (Bool-cases (p x)) [
    | inl e ↦ rw (e, filter-append p xs ys)
    | inr e ↦ rw (e, filter-append p xs ys)
  ]

  pub length-filter-le : (p : A → Bool) (xs : List A) → length (filter p xs) ≤ length xs
  length-filter-le p [] = omega arith
  length-filter-le p (x ∷ xs) = elim (Bool-cases (p x)) [
    | inl e ↦ rw e (omega (arith, length-filter-le p xs))
    | inr e ↦ rw e (omega (arith, length-filter-le p xs))
  ]

  pub filter_idem : (p : A → Bool) (xs : List A) → filter p (filter p xs) ≡ filter p xs
  filter_idem p [] = refl
  filter_idem p (x ∷ xs) = elim (Bool-cases (p x)) [
    | inl e ↦ rw e (rw e (rw (filter_idem p xs)))
    | inr e ↦ rw e (filter_idem p xs)
  ]

  -- A filter that keeps everything returns its list.
  pub filter-All : (p : A → Bool) (xs : List A) → All (λ x. p x ≡ true) xs → filter p xs ≡ xs
  filter-All p [] h = refl
  filter-All p (x ∷ xs) h = rw h.0 (ap (λ r. x ∷ r) (filter-All p xs h.1))

  -- `xs.map(f).filter(y => y !== undefined)`
  abbrev pub filter_map {κ} : {B : Type κ} → (A → Option B) → List A → List B
  filter_map f [] = []
  filter_map f (x ∷ xs) =
      let rest = filter_map f xs in elim (f x) [ none ↦ rest | some y ↦ y ∷ rest ]

  -- `xs.flat()`, after a `map`
  abbrev pub flat_map {κ} : {B : Type κ} → (A → List B) → List A → List B
  flat_map f [] = []
  flat_map f (x ∷ xs) = f x ++ flat_map f xs

  -- `xs[xs.length - 1]`, with a default
  abbrev pub last_or : A → List A → A
  last_or d [] = d
  last_or d (x ∷ xs) = last_or x xs

  -- Some element passes the test, and which.
  pub any-mem : (p : A → Bool) (xs : List A) (x : A) → Memᴰ x xs → p x ≡ true → any p xs ≡ true
  any-mem p [] x m h = elim m [ ]
  any-mem p (y ∷ xs) x (head e) h = rw (← e) (rw h)
  any-mem p (y ∷ xs) x (tail m) h = ground (arith, any-mem p xs x m h)

  pub mem-any : (p : A → Bool) (xs : List A) → any p xs ≡ true → (x : A) × Memᴰ x xs × (p x ≡ true)
  mem-any p [] h = cc
  mem-any p (x ∷ xs) h = elim (Bool-cases (p x)) [
    | inl e ↦ (x, head refl, e)
    | inr e ↦ let found = mem-any p xs (rw e at h) in (found.0, tail found.1, found.2)
  ]

  pub mem-filter :
      (p : A → Bool) (xs : List A) (x : A) → Memᴰ x (filter p xs) ↔ (Memᴰ x xs × (p x ≡ true))
  mem-filter p [] x = (λ m. elim m [ ], λ m. elim m.0 [ ])
  mem-filter p (y ∷ xs) x = elim (Bool-cases (p y)) [
    | inl e ↦ rw e (
      λ m. elim (Memᴰ.cases_cons m) [
        | inl q ↦ (head q, rw q e)
        | inr r ↦ let old = (mem-filter p xs x).0 r in (tail old.0, old.1)
      ],
      λ m. elim (Memᴰ.cases_cons m.0) [
        | inl q ↦ head q
        | inr r ↦ tail ((mem-filter p xs x).1 (r, m.1))
      ],
    )
    | inr e ↦ rw e (
      λ m. let old = (mem-filter p xs x).0 m in (tail old.0, old.1),
      λ m. elim (Memᴰ.cases_cons m.0) [ inl q ↦ cc | inr r ↦ (mem-filter p xs x).1 (r, m.1) ],
    )
  ]

  pub mem-All {κ} : (P : A → Type κ) (xs : List A) (x : A) → All P xs → Memᴰ x xs → P x
  mem-All P [] x h m = elim m [ ]
  mem-All P (y ∷ xs) x h (head e) = rw e h.0
  mem-All P (y ∷ xs) x h (tail m) = mem-All P xs x h.1 m
