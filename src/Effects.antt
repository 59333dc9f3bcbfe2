-- ===== src/Effects.antt =====
-- Exceptions, and asynchronous code that talks to CouchDB: an action takes a state and returns a
-- result, or the exception that it throws, with the state that it leaves.
pub mod Preserve
use replication_backend.Prelude.{ℕ, String, Option, ◌≡◌, refl, ◌⊎◌, inl, inr}

-- What a `catch` sees: Nest's `HttpException` with its status and text, an `AxiosError` with the
-- status of its response, or any other error.
pub data Error : Type 0 where
  http_exception : ℕ → String → Error
  axios_error : Option ℕ → Error
  other_error : String → Error

pub data Result {ℓ} (A : Type ℓ) : Type ℓ where
  ok : A → Result A
  throw : Error → Result A

abbrev pub Io : Type 0 → Type 0 → Type 0
Io S A = S → Result A × S

module _ {S A : Type 0} where
  abbrev pub pure : A → Io S A
  pure a s = (ok a, s)

  abbrev pub raise : Error → Io S A
  raise e s = (throw e, s)

  -- `try { … } catch (e) { … }`, `promise.catch(…)`
  abbrev pub catch : Io S A → (Error → Io S A) → Io S A
  catch m handler s = let (r, s') = m s in elim r [ ok a ↦ (ok a, s') | throw e ↦ handler e s' ]

-- A result as an action that leaves the state as it is.
abbrev pub lift : {S A : Type 0} → Result A → Io S A
lift r s = (r, s)

infixl 5 ◌>>=◌ ◌>>◌
abbrev pub ◌>>=◌ : {S A B : Type 0} → Io S A → (A → Io S B) → Io S B
◌>>=◌ m f s = let (r, s') = m s in elim r [ ok a ↦ f a s' | throw e ↦ (throw e, s') ]

abbrev pub ◌>>◌ : {S A B : Type 0} → Io S A → Io S B → Io S B
m >> k = m >>= λ _. k

-- What follows where no exception was thrown.
abbrev pub result_then : {A B : Type 0} → Result A → (A → Result B) → Result B
result_then (throw e) f = throw e
result_then (ok a) f = f a

pub Result-cases {ℓ} :
    {A : Type ℓ} (r : Result A) → ((a : A) × (r ≡ ok a)) ⊎ ((e : Error) × (r ≡ throw e))
Result-cases (ok a) = inl (a, refl)
Result-cases (throw e) = inr (e, refl)
