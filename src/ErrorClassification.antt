-- ===== src/ErrorClassification.antt =====
-- src/common/http-error-classification.ts. The texts that a runtime gives are parameters: the body of
-- an HttpException or the stack of another error, a number in decimal, and a text in lower case.
use replication_backend.Prelude.{
  ℕ, String, Bool, false, ◌||◌, List, [], ◌∷◌, ◌&◌, any, eqb, includes,
}
use replication_backend.Effects.{Error, http_exception}

pub record ErrorTexts : Type 0 where
  pub describe : Error → String
  pub show_number : ℕ → String
  pub to_lower_case : String → String

abbrev pub includes_number : List ℕ → ℕ → Bool
includes_number statuses status = any (λ s. eqb s status) statuses

abbrev pub auth_http_statuses : List ℕ
auth_http_statuses = 401 ∷ 403 ∷ []

abbrev pub likely_transient_http_statuses : List ℕ
likely_transient_http_statuses = 408 ∷ 425 ∷ 429 ∷ 500 ∷ 502 ∷ 503 ∷ 504 ∷ []

abbrev pub likely_transient_error_markers : List String
likely_transient_error_markers =
    "econnrefused" ∷ "econnreset" ∷ "etimedout" ∷ "socket hang up" ∷ "connection reset"
    ∷ "service unavailable" ∷ "bad gateway" ∷ "gateway timeout" ∷ "temporarily unavailable"
    ∷ "enotfound" ∷ "eai_again" ∷ []

unfoldable pub is_auth_http_error : Error → Bool
is_auth_http_error (http_exception status message) = includes_number auth_http_statuses status
is_auth_http_error _ = false

abbrev pub has_transient_status : Error → Bool
has_transient_status (http_exception status message) =
    includes_number likely_transient_http_statuses status
has_transient_status _ = false

module _ (texts : ErrorTexts) where
  open texts use {describe, show_number, to_lower_case}

  abbrev pub normalize_error_text : Error → String
  normalize_error_text (http_exception status message) =
      to_lower_case
        ("HttpException " & show_number status & ": " & describe (http_exception status message))
  normalize_error_text e = to_lower_case (describe e)

  unfoldable pub is_likely_transient_error : Error → Bool
  is_likely_transient_error e =
      has_transient_status e
      || any (λ marker. includes (normalize_error_text e) marker) likely_transient_error_markers
