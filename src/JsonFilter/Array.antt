-- ===== src/JsonFilter/Array.antt =====
-- The transform inside its target array, against the filter of the items in memory.
use text.Mathlib.TextLemmas.{append_assoc, nil-append}
use replication_backend.Prelude.{
  String, Bool, true, false, Option, none, some, List, ◌∷◌, ◌≡◌, refl, ◌∙◌, ap, sym, subst, arith,
  ◌&◌, inl,
}
use replication_backend.Json.{Json, Items, nil, cons}
use replication_backend.Json.Text.{stringify, stringify_items, separator}
use replication_backend.Effects.{Result, ok, throw, Error}
use replication_backend.JsonFilter.{
  Token, end_array, StreamJson, Transform, Mode, items, members, process_token, on_complete,
  item_token,
}
use replication_backend.JsonFilter.Tokens.{tokens, item_tokens, Assembles, keep_item, filter_items}
use replication_backend.JsonFilter.Inside.{an_item, run_step}
use replication_backend.JsonFilter.Whole.{run, continue, value_whole}

module _ (lib : StreamJson) (array_field : String) (map_item : Json → Result (Option Json))
    (assembles : Assembles lib) where
  open lib use {quote, digits}

  -- The transform between two items, or two members.
  abbrev pub state : Mode → String → Bool → Bool → String → Transform lib
  state m key first_member first_item out = record {
    mode = m;
    pending_key = key;
    first_member = first_member;
    first_item = first_item;
    assembler = none;
    value_depth = 0;
    pushed = out;
  }

  abbrev pub ItemsOutcome :
      Result (Unit {0}) × Transform lib
      → String
      → String
      → List Token
      → Bool
      → Result Items
      → Type 0
  ItemsOutcome r key out rest first (throw e) = r.0 ≡ throw e
  ItemsOutcome r key out rest first (ok ws) =
      (first' : Bool) × (r
        ≡ run lib array_field map_item rest
            (state members key false first' (out & stringify_items quote digits first ws)))

  one_item :
      (v : Json) (vs : Items) (key : String) (first : Bool) (out : String) (rest : List Token)
      → run lib array_field map_item
          (item_tokens (cons v vs) rest)
          (state items key false first out)
        ≡ continue lib array_field map_item
            (on_complete lib array_field map_item items v (state items key false first out))
            (item_tokens vs rest)
  unfolding tokens
  one_item v vs key first out rest =
      value_whole lib array_field map_item assembles v (state items key false first out) items
        an_item (item_tokens vs rest) (inl refl)

  item_kept :
      (v w : Json) (key : String) (first : Bool) (out : String)
      → map_item v ≡ ok (some w)
      → on_complete lib array_field map_item items v (state items key false first out)
        ≡ (ok tt, state items key false false (out & (separator first & stringify quote digits w)))
  unfolding on_complete
  item_kept v w key true out h = ground (arith, h, nil-append (stringify quote digits w))
  item_kept v w key false out h = ground (arith, h, append_assoc out "," (stringify quote digits w))

  item_dropped :
      (v : Json) (key : String) (first : Bool) (out : String)
      → map_item v ≡ ok none
      → on_complete lib array_field map_item items v (state items key false first out)
        ≡ (ok tt, state items key false first out)
  unfolding on_complete
  item_dropped v key first out h = ground (arith, h)

  item_thrown :
      (v : Json) (e : Error) (key : String) (first : Bool) (out : String)
      → map_item v ≡ throw e
      → on_complete lib array_field map_item items v (state items key false first out)
        ≡ (throw e, state items key false first out)
  unfolding on_complete
  item_thrown v e key first out h = ground (arith, h)

  text_kept :
      (out : String) (first : Bool) (w : Json) (ws : Items)
      → (out & (separator first & stringify quote digits w)) & stringify_items quote digits false ws
        ≡ out & stringify_items quote digits first (cons w ws)
  unfolding stringify
  text_kept out first w ws = simp append_assoc

  -- The items of the target array: what comes after them runs from the text of the kept ones.
  abbrev pub ItemsLemma : Items → Result Items → String → List Token → Type 0
  ItemsLemma vs expected key rest =
      (first : Bool) (out : String)
      → ItemsOutcome
          (run lib array_field map_item (item_tokens vs rest) (state items key false first out)) key
          out rest first expected

  items_step :
      (v : Json) (vs : Items) (key : String) (rest : List Token) (mapped : Result (Option Json))
      (tail : Result Items) (first : Bool) (out : String)
      → map_item v ≡ mapped
      → ItemsLemma vs tail key rest
      → ItemsOutcome
          (continue lib array_field map_item
            (on_complete lib array_field map_item items v (state items key false first out))
            (item_tokens vs rest))
          key
          out
          rest
          first
          (keep_item mapped tail)
  items_step v vs key rest (throw e) tail first out h ih =
      ap (λ p. (continue lib array_field map_item p (item_tokens vs rest)).0)
        (item_thrown v e key first out h)
  items_step v vs key rest (ok none) tail first out h ih =
      subst
        (λ p.
          ItemsOutcome (continue lib array_field map_item p (item_tokens vs rest)) key out rest
            first tail)
        (sym (item_dropped v key first out h)) (ih first out)
  items_step v vs key rest (ok (some w)) (throw e) first out h ih =
      ap (λ p. (continue lib array_field map_item p (item_tokens vs rest)).0)
        (item_kept v w key first out h)
      ∙ ih false (out & (separator first & stringify quote digits w))
  items_step v vs key rest (ok (some w)) (ok ws) first out h ih =
      let later = ih false (out & (separator first & stringify quote digits w)) in
      (
        later.0,
        ap (λ p. continue lib array_field map_item p (item_tokens vs rest))
              (item_kept v w key first out h)
            ∙ later.1
            ∙ ap (λ text. run lib array_field map_item rest (state members key false later.0 text))
                (text_kept out first w ws),
      )

  array_end :
      (key : String) (first : Bool) (out : String) (rest : List Token)
      → run lib array_field map_item (end_array ∷ rest) (state items key false first out)
        ≡ run lib array_field map_item rest (state members key false first (out & "]"))
  unfolding process_token item_token
  array_end key first out rest =
      run_step lib array_field map_item end_array rest (state items key false first out)
        (state members key false first (out & "]")) refl

  pub items_lem :
      (vs : Items) (key : String) (rest : List Token)
      → ItemsLemma vs (filter_items array_field map_item vs) key rest
  unfolding filter_items tokens stringify
  items_lem nil key rest first out = (first, array_end key first out rest)
  items_lem (cons v vs) key rest first out =
      subst
        (λ r.
          ItemsOutcome r key out rest first
            (keep_item (map_item v) (filter_items array_field map_item vs)))
        (sym (one_item v vs key first out rest))
        (items_step v vs key rest (map_item v) (filter_items array_field map_item vs) first out refl
          (items_lem vs key rest))
