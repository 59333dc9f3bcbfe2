-- ===== src/Changes/Written.antt =====
-- The text of a response of changes.controller.ts, as `ChangesResponseStream` writes it: it holds no
-- more results than were counted.
use replication_backend.Prelude.{
  ℕ, suc, ◌+◌, ◌≤◌, String, Bool, true, false, List, [], ◌∷◌, length, ◌≡◌, refl, sym, subst, ◌⊎◌,
  inl, inr, arith, ◌&◌, Bool-cases,
}
use replication_backend.Effects.{Result, ok, throw, Io, ◌>>=◌}
use replication_backend.Couch.{ChangeResult}
use replication_backend.Changes.Stream.{
  Response, Surroundings, write_chunk, count_result, open_envelope, write_item, write_items,
  write_results, finish, open_text, separator, shown_item, close_text, end_response,
}

module _ (env : Surroundings) where
  -- The text of an open response that holds the given results, the last one first.
  abbrev pub with_results : List ChangeResult → String
  with_results [] = "" & open_text
  with_results (x ∷ xs) = with_results xs & (separator env (length xs) & env.stringify_change x)

  abbrev pub IsUnopened : Response → Type 0
  IsUnopened s = (s.opened ≡ false) × (s.text ≡ "") × (s.written ≡ 0)

  abbrev IsOpen : List ChangeResult → Response → Type 0
  IsOpen items s = (s.opened ≡ true) × (s.text ≡ with_results items) × (s.written ≡ length items)

  module _ (n : ℕ) where
    -- A text that is empty, or opens the response and holds `n` results at most, with or without the
    -- end of the response.
    abbrev pub HoldsAtMost : String → Type 0
    HoldsAtMost text =
        (items : List ChangeResult) × (length items ≤ n)
        × ((text ≡ "")
            ⊎ (text ≡ with_results items)
            ⊎ ((last_seq : String) × (pending : ℕ) × (lost : List String) × (text
                  ≡ with_results items & close_text env last_seq pending lost)))

    abbrev pub IsGoing : Response → Type 0
    IsGoing s = IsUnopened s ⊎ ((items : List ChangeResult) × IsOpen items s × (length items ≤ n))

    -- After an action: what is asked of its result, or after an exception the bound on the text.
    abbrev pub After : {A : Type 0} → (A → Response → Type 0) → Result A → Response → Type 0
    After Q (ok a) s = Q a s
    After Q (throw e) s = HoldsAtMost s.text

    continue :
        {A B : Type 0} (P : A → Response → Type 0) (Q : B → Response → Type 0) (r : Result A)
        (f : A → Io Response B) (s : Response)
        → After P r s
        → ((a : A) (t : Response) → P a t → After Q (f a t).0 (f a t).1)
        → After Q (◌>>=◌ (λ (t : Response). (r, t)) f s).0 (◌>>=◌ (λ (t : Response). (r, t)) f s).1
    continue P Q (throw e) f s h k = h
    continue P Q (ok a) f s h k = k a s h

    pub bind :
        {A B : Type 0} (P : A → Response → Type 0) (Q : B → Response → Type 0) (m : Io Response A)
        (f : A → Io Response B) (s : Response)
        → After P (m s).0 (m s).1
        → ((a : A) (t : Response) → P a t → After Q (f a t).0 (f a t).1)
        → After Q ((m >>= f) s).0 ((m >>= f) s).1
    bind P Q m f s h k = let (r, s') = m s in continue P Q r f s' h k

    open_text_kept :
        (items : List ChangeResult) (s : Response)
        → IsOpen items s
        → length items ≤ n
        → HoldsAtMost s.text
    open_text_kept items s is_open bound = (items, bound, inr (inl is_open.1))

    write_chunk-After :
        (Q : Unit {0} → Response → Type 0) (chunk : String) (s : Response)
        → HoldsAtMost s.text
        → HoldsAtMost (s.text & chunk)
        → Q tt (record s { text = s.text & chunk })
        → After Q (write_chunk env chunk s).0 (write_chunk env chunk s).1
    unfolding write_chunk
    write_chunk-After Q chunk s before after done = elim (Bool-cases (env.destroyed s)) [
      | inl gone ↦ rw gone before
      | inr here ↦ elim (Bool-cases (env.drains (record s { text = s.text & chunk }))) [
        | inl drained ↦ rw (here, drained) done
        | inr stuck ↦ rw (here, stuck) after
      ]
    ]

    write_item-After :
        (b : Bool) (result : ChangeResult) (items : List ChangeResult) (s : Response)
        → IsOpen items s
        → suc (length items) ≤ n
        → After
            (λ done t. IsOpen (shown_item env b result ∷ items) t)
            (write_item env b result s).0
            (write_item env b result s).1
    unfolding write_item
    write_item-After b result items s is_open bound =
        let shown = shown_item env b result in
        let chunk = separator env s.written & env.stringify_change shown in
        let text : s.text & chunk ≡ with_results (shown ∷ items) = rw (is_open.1, is_open.2) refl in
        bind
          (λ done t.
            (t.opened ≡ true)
            × (t.text ≡ with_results (shown ∷ items))
            × (t.written ≡ length items))
          (λ done t. IsOpen (shown ∷ items) t) (write_chunk env chunk) (λ done. count_result env) s
          (write_chunk-After
            (λ done t.
              (t.opened ≡ true)
              × (t.text ≡ with_results (shown ∷ items))
              × (t.written ≡ length items))
            chunk s (open_text_kept items s is_open (omega (arith, bound)))
            (shown ∷ items, bound, inr (inl text)) (is_open.0, text, is_open.2))
          (λ done t given. (given.0, given.1, omega (arith, given.2)))

    write_items-After :
        (b : Bool) (results items : List ChangeResult) (s : Response)
        → IsOpen items s
        → length items + length results ≤ n
        → After
            (λ done t. IsGoing t)
            (write_items env b results s).0
            (write_items env b results s).1
    unfolding write_items
    write_items-After b [] items s is_open bound = inr (items, is_open, omega (arith, bound))
    write_items-After b (result ∷ rest) items s is_open bound =
        let shown = shown_item env b result in
        bind (λ done t. IsOpen (shown ∷ items) t) (λ done t. IsGoing t) (write_item env b result)
          (λ done. write_items env b rest) s
          (write_item-After b result items s is_open (omega (arith, bound)))
          (λ done t open_more.
            write_items-After b rest (shown ∷ items) t open_more (omega (arith, bound)))

    -- Opening leaves as many results as were counted.
    open_envelope-After :
        (k : ℕ) (s : Response)
        → IsGoing s
        → s.written + k ≤ n
        → After
            (λ done t. (items : List ChangeResult) × IsOpen items t × (length items + k ≤ n))
            (open_envelope env s).0
            (open_envelope env s).1
    unfolding open_envelope
    open_envelope-After k s (inr (items, is_open, bound)) room =
        let same : open_envelope env s ≡ (ok tt, s) = ground (arith, is_open.0) in
        subst
          (λ p.
            After (λ done t. (items : List ChangeResult) × IsOpen items t × (length items + k ≤ n))
              p.0 p.1)
          (sym same) (items, is_open, omega (arith, room, is_open.2))
    open_envelope-After k s (inl unopened) room =
        let text : s.text & open_text ≡ with_results [] = rw unopened.1 refl in
        rw unopened.0 (
          write_chunk-After
            (λ done t. (items : List ChangeResult) × IsOpen items t × (length items + k ≤ n))
            open_text (record s { opened = true }) ([], omega arith, inl unopened.1)
            ([], omega arith, inr (inl text))
            ([], (refl, text, unopened.2), omega (arith, room, unopened.2)))

    pub write_results-After :
        (b : Bool) (results : List ChangeResult) (s : Response)
        → IsGoing s
        → s.written + length results ≤ n
        → After
            (λ done t. IsGoing t)
            (write_results env b results s).0
            (write_results env b results s).1
    unfolding write_results
    write_results-After b results s going room =
        bind
          (λ done t.
            (items : List ChangeResult) × IsOpen items t × (length items + length results ≤ n))
          (λ done t. IsGoing t) (open_envelope env) (λ done. write_items env b results) s
          (open_envelope-After (length results) s going room)
          (λ done t (items, is_open, bound). write_items-After b results items t is_open bound)

    pub counted : (s : Response) → IsGoing s → s.written ≤ n
    counted s (inl unopened) = omega (arith, unopened.2)
    counted s (inr (items, is_open, bound)) = omega (arith, is_open.2, bound)

    pub held : (s : Response) → IsGoing s → HoldsAtMost s.text
    held s (inl unopened) = ([], omega arith, inl unopened.1)
    held s (inr (items, is_open, bound)) = open_text_kept items s is_open bound

    pub finish-After :
        (last_seq : String) (pending : ℕ) (lost : List String) (s : Response)
        → IsGoing s
        → After
            (λ done t. HoldsAtMost t.text)
            (finish env last_seq pending lost s).0
            (finish env last_seq pending lost s).1
    unfolding finish
    finish-After last_seq pending lost s going =
        let close = close_text env last_seq pending lost in
        bind (λ done t. (items : List ChangeResult) × IsOpen items t × (length items + 0 ≤ n))
          (λ done t. HoldsAtMost t.text) (open_envelope env)
          (λ done. write_chunk env close >>= λ written. end_response env) s
          (open_envelope-After 0 s going (omega (arith, counted s going)))
          (λ done t (items, is_open, bound).
            let closed : t.text & close ≡ with_results items & close = rw is_open.1 refl in
            let few : length items ≤ n = omega (arith, bound) in
            let all : HoldsAtMost (t.text & close) =
              (items, few, inr (inr (last_seq, pending, lost, closed))) in
            bind (λ written u. HoldsAtMost u.text) (λ ended u. HoldsAtMost u.text)
              (write_chunk env close) (λ written. end_response env) t
              (write_chunk-After (λ written u. HoldsAtMost u.text) close t
                (open_text_kept items t is_open few) all all)
              (λ written u h. h))
