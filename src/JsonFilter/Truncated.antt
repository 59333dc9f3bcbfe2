-- ===== src/JsonFilter/Truncated.antt =====
-- A stream that ends early.
use replication_backend.Prelude.{
  String, true, Option, List, [], ◌∷◌, ◌++◌, ◌≡◌, ◌≢◌, refl, ◌∙◌, ap, sym, arith, inl, inr,
  Bool-cases,
}
use replication_backend.Json.{Json, obj, Fields}
use replication_backend.Effects.{Result, ok, throw, Result-cases}
use replication_backend.JsonFilter.{
  Token, StreamJson, Transform, Mode, init, members, value, items, done, new_transform, is_done,
  process_token, process_tokens, flush, transform,
}
use replication_backend.JsonFilter.Tokens.{tokens, Assembles, filter_fields}
use replication_backend.JsonFilter.Whole.{run, continue}
use replication_backend.JsonFilter.Document.{transform-tokens}

module _ (lib : StreamJson) (array_field : String) (map_item : Json → Result (Option Json)) where
  abbrev go : List Token → Transform lib → Result (Unit {0}) × Transform lib
  go = run lib array_field map_item

  run-append :
      (a b : List Token) (s : Transform lib)
      → go (a ++ b) s ≡ continue lib array_field map_item (go a s) b
  unfolding process_tokens
  run-append [] b s = refl
  run-append (token ∷ a) b s =
      elim (Result-cases (process_token lib array_field map_item token s).0) [
        | inl (u, e) ↦
            ground (arith, e, run-append a b (process_token lib array_field map_item token s).1)
        | inr (error, e) ↦ ground (arith, e)
      ]

  -- Nothing is accepted behind the end of the document.
  done_refuses :
      (token : Token) (b : List Token) (p : Result (Unit {0}) × Transform lib)
      → p.0 ≡ ok tt
      → p.1.mode ≡ done
      → (continue lib array_field map_item p (token ∷ b)).0 ≢ ok tt
  unfolding process_tokens process_token
  done_refuses token b (throw e, s) h k = cc
  done_refuses token b (ok u, s) h k = ground (arith, h, k)

  done_mode : (m : Mode) → is_done lib array_field map_item m ≡ true → m ≡ done
  done_mode done h = refl
  done_mode init h = cc
  done_mode members h = cc
  done_mode value h = cc
  done_mode items h = cc

  flush_done :
      (ts : List Token)
      → (transform lib array_field map_item ts).0 ≡ ok tt
      → ((go ts (new_transform lib)).0 ≡ ok tt) × ((go ts (new_transform lib)).1.mode ≡ done)
  unfolding transform flush
  flush_done ts h = elim (Result-cases (go ts (new_transform lib)).0) [
    | inr (e, k) ↦ absurd (ground (arith, k))
    | inl (u, k) ↦ (
      k,
      done_mode (go ts (new_transform lib)).1.mode
          (elim (Bool-cases (is_done lib array_field map_item (go ts (new_transform lib)).1.mode)) [
            | inl d ↦ d
            | inr n ↦ absurd (ground (arith, k, n))
          ]),
    )
  ]

  whole_runs :
      (ts : List Token)
      → (transform lib array_field map_item ts).0 ≡ ok tt
      → (go ts (new_transform lib)).0 ≡ ok tt
  whole_runs ts h = (flush_done ts h).0

  -- A document that is cut off anywhere before its last token makes the stream fail, where the whole
  -- document would not.
  pub truncated_fails :
      (assembles : Assembles lib) (fs gs : Fields) (received missing : List Token)
      → filter_fields array_field map_item fs ≡ ok gs
      → received ++ missing ≡ tokens (obj fs) []
      → missing ≢ []
      → (transform lib array_field map_item received).0 ≢ ok tt
  truncated_fails assembles fs gs received [] h e cut ended = cut refl
  truncated_fails assembles fs gs received (token ∷ missing) h e cut ended =
      let first = flush_done received ended in
      let whole = rw h at (transform-tokens lib array_field map_item assembles fs) in
      done_refuses token missing (go received (new_transform lib)) first.0 first.1 (
        ap (λ p. p.0) (sym (run-append received (token ∷ missing) (new_transform lib)))
        ∙ ap (λ ts. (go ts (new_transform lib)).0) e
        ∙ whole_runs (tokens (obj fs) []) whole.0)
