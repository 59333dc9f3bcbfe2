-- ===== src/Changes/Progress.antt =====
-- The loop over batches of changes.controller.ts: the client's limit holds for the results in the
-- text of the response, over all batches.
use replication_backend.Prelude.{
  ℕ, zero, suc, ◌+◌, ◌-◌, ◌≤◌, String, Bool, Option, none, some, ◌∷◌, length, ◌≡◌, sym, subst, inl,
  inr, arith, Bool-cases,
}
use replication_backend.Effects.{Error, Result, ok, throw, Io, ◌>>=◌, Result-cases}
use replication_backend.Couch.{ChangesResponse, get}
use replication_backend.Casl.{Permissions, UserInfo}
use replication_backend.DocumentFilter.{DocumentFilter}
use replication_backend.Changes.{filter_changes, max_processing_time_ms}
use replication_backend.Changes.Limit.{filter_changes_bound}
use replication_backend.Changes.Stream.{
  ChangesParams, Response, Progress, Surroundings, remaining, write_results, finish, finish_summary,
  get_permitted_changes, round, iterate, stream_permitted_changes, abort_stream_or_rethrow, changes,
  query, include_docs, no_progress, is_iteration_complete, advance,
}
use replication_backend.Changes.Written.{
  HoldsAtMost, IsUnopened, IsGoing, After, bind, counted, held, write_results-After, finish-After,
}

module _ (env : Surroundings) (permissions : Permissions) (filter_of : DocumentFilter) (db : String)
    (params : ChangesParams) (n : ℕ) (limited : params.limit ≡ some n) where
  -- The batch fits in what is left of the limit.
  abbrev Fits : ChangesResponse × ℕ → Response → Type 0
  Fits batch t = IsGoing env n t × (t.written + length (batch.0).results ≤ n)

  abbrev fetch :
      permissions.Ability
      → Option String
      → Option ℕ
      → Response
      → Result (ChangesResponse × ℕ) × Response
  fetch = get_permitted_changes env permissions filter_of db params

  fetch_bound :
      (ability : permissions.Ability) (since : Option String) (s : Response)
      → IsGoing env n s
      → After env n Fits
          (fetch ability since (some (n - s.written)) s).0
          (fetch ability since (some (n - s.written)) s).1
  unfolding get_permitted_changes
  fetch_bound ability since s going =
      let few = counted env n s going in
      let limit : Option ℕ = some (n - s.written) in
      let sent =
        get db "_changes" (query env permissions filter_of db params since limit) ∷ s.sent in
      elim (Result-cases (env.couch.changes sent)) [
        | inl (res, e) ↦
            let batch = filter_changes permissions filter_of res ability limit in
            let same : fetch ability since limit s
                ≡ (ok (batch, length res.results), record s { sent = sent }) =
              ground (arith, e) in
            subst (λ p. After env n Fits p.0 p.1) (sym same)
              (
                going,
                omega (
                  arith,
                  few,
                  filter_changes_bound permissions filter_of ability res (n - s.written),
                ),
              )
        | inr (x, e) ↦
            let same : fetch ability since limit s ≡ (throw x, record s { sent = sent }) =
              ground (arith, e) in
            subst (λ p. After env n Fits p.0 p.1) (sym same) (held env n s going)
      ]

  round-After :
      (ability : permissions.Ability) (p : Progress) (since : Option String) (s : Response)
      → IsGoing env n s
      → After env n
          (λ q t. IsGoing env n t)
          (round env permissions filter_of db params ability p since s).0
          (round env permissions filter_of db params ability p since s).1
  unfolding round
  round-After ability p since s going =
      let docs : Bool = include_docs env permissions filter_of db params in
      let known : remaining params.limit s.written ≡ some (n - s.written) = rw limited in
      bind env n Fits (λ q t. IsGoing env n t)
        (get_permitted_changes env permissions filter_of db params ability since
          (remaining params.limit s.written))
        (λ batch. write_results env docs (batch.0).results >>= λ done t.
          (ok (advance env permissions filter_of db params p batch), t))
        s
        (subst (λ l. After env n Fits (fetch ability since l s).0 (fetch ability since l s).1)
          (sym known) (fetch_bound ability since s going))
        (λ batch t (kept, room).
          bind env n (λ done u. IsGoing env n u) (λ q u. IsGoing env n u)
            (write_results env docs (batch.0).results)
            (λ done u. (ok (advance env permissions filter_of db params p batch), u)) t
            (write_results-After env n docs (batch.0).results t kept room) (λ done u h. h))

  iterate-After :
      (fuel : ℕ) (ability : permissions.Ability) (deadline : ℕ) (p : Progress)
      (since : Option String) (s : Response)
      → IsGoing env n s
      → After env n
          (λ q t. IsGoing env n t)
          (iterate env permissions filter_of db params fuel ability deadline p since s).0
          (iterate env permissions filter_of db params fuel ability deadline p since s).1
  unfolding iterate
  iterate-After zero ability deadline p since s going = going
  iterate-After (suc fuel) ability deadline p since s going =
      let step = round env permissions filter_of db params ability p since s in
      let kept = round-After ability p since s going in
      let Q : Result (Option Progress) × Response → Type 0 =
        λ r. After env n (λ q t. IsGoing env n t) r.0 r.1 in
      let whole =
        iterate env permissions filter_of db params (suc fuel) ability deadline p since s in
      elim (Result-cases step.0) [
        | inr (x, e) ↦
            let same : whole ≡ (throw x, step.1) = ground (arith, e) in
            subst Q (sym same) (rw e at kept)
        | inl (p', e) ↦
            let going' : IsGoing env n step.1 = rw e at kept in
            elim (Bool-cases (
              is_iteration_complete env permissions filter_of db params p'.pending deadline
                step.1)) [
                  | inl done ↦
                      let same : whole ≡ (ok (some p'), step.1) = ground (arith, e, done) in
                      subst Q (sym same) going'
                  | inr more ↦
                      let rest =
                        iterate env permissions filter_of db params fuel ability deadline p'
                          (some p'.last_seq) step.1 in
                      let same : whole ≡ rest = ground (arith, e, more) in
                      subst Q (sym same)
                        (iterate-After fuel ability deadline p' (some p'.last_seq) step.1 going')
                ]
      ]

  text-abort :
      (e : Error) (s : Response)
      → (abort_stream_or_rethrow env permissions filter_of db params e s).1.text ≡ s.text
  unfolding abort_stream_or_rethrow
  text-abort e s = ground arith

  built :
      {A : Type 0} (r : Result A) (s : Response)
      → IsGoing env n s
      → After env n (λ a t. IsGoing env n t) r s
  built (throw e) s going = held env n s going
  built (ok a) s going = going

  run : ℕ → Option UserInfo → ℕ → Io Response (Option (Unit {0}))
  run fuel user deadline =
      stream_permitted_changes env permissions filter_of db params fuel user deadline >>= λ summary.
      finish_summary env permissions filter_of db params summary

  finish_summary-After :
      (summary : Option Progress) (s : Response)
      → IsGoing env n s
      → After env n
          (λ done t. HoldsAtMost env n t.text)
          (finish_summary env permissions filter_of db params summary s).0
          (finish_summary env permissions filter_of db params summary s).1
  finish_summary-After none s going = held env n s going
  finish_summary-After (some p) s going =
      bind env n (λ done t. HoldsAtMost env n t.text) (λ done t. HoldsAtMost env n t.text)
        (finish env p.last_seq p.pending p.lost_permissions) (λ done t. (ok (some tt), t)) s
        (finish-After env n p.last_seq p.pending p.lost_permissions s going) (λ done t h. h)

  run-After :
      (fuel : ℕ) (user : Option UserInfo) (deadline : ℕ) (s : Response)
      → IsGoing env n s
      → After env n
          (λ done t. HoldsAtMost env n t.text)
          (run fuel user deadline s).0
          (run fuel user deadline s).1
  unfolding run stream_permitted_changes
  run-After fuel user deadline s going =
      bind env n (λ q t. IsGoing env n t) (λ done t. HoldsAtMost env n t.text)
        (stream_permitted_changes env permissions filter_of db params fuel user deadline)
        (finish_summary env permissions filter_of db params) s
        (bind env n (λ ability t. IsGoing env n t) (λ q t. IsGoing env n t)
          (λ t. (permissions.ability_for user, t))
          (λ ability.
            iterate env permissions filter_of db params fuel ability deadline
              (no_progress env permissions filter_of db params) params.since)
          s (built (permissions.ability_for user) s going)
          (λ ability t h.
            iterate-After fuel ability deadline (no_progress env permissions filter_of db params)
              params.since t h))
        (λ summary t h. finish_summary-After summary t h)

  -- With a limit, the text that the client gets from a response that was not opened before holds no
  -- more results than it asks for, over all batches, whether the request succeeds, fails or is cut
  -- off: it is empty, or opens the response and goes on with these results and, possibly, the end.
  pub changes-limit :
      (fuel : ℕ) (user : Option UserInfo) (s : Response)
      → IsUnopened env s
      → HoldsAtMost env n (changes env permissions filter_of db params fuel user s).1.text
  unfolding changes run stream_permitted_changes
  changes-limit fuel user s unopened =
      let deadline : ℕ = env.now s + max_processing_time_ms in
      let kept = run-After fuel user deadline s (inl unopened) in
      elim (Result-cases (run fuel user deadline s).0) [
        | inl (done, e) ↦ rw e (rw e at kept)
        | inr (x, e) ↦ rw e (rw (text-abort x (run fuel user deadline s).1) (rw e at kept))
      ]
