-- ===== src/RulesConfig/Managed.antt =====
-- `mergeManagedDefaults` of src/permissions/rules/default-permissions.ts.
use replication_backend.Prelude.{
  Bool, true, false, not, Option, some, List, [], ◌∷◌, ◌++◌, filter, filter-append, filter_idem,
  any, includes, lookup, ◌≡◌, refl, ap, ap₂, ◌∙◌, arith, append-nil, any-mem, Memᴰ, sym, Bool-cases,
  inl, inr,
}
use mathlib.Core.List.Memᴰ.{head, tail}
use replication_backend.Json.{Json, arr, elems, of_list}
use replication_backend.Effects.{ok}
use replication_backend.Casl.{Lodash}
use replication_backend.RulesConfig.{
  Merged, managed_default_rules, merge_managed_defaults, merge_rules, is_null, has_marker, rules_in,
}

abbrev pub is_admin_rule : Json → Bool
is_admin_rule rule = not (has_marker rule)

pub elems-of_list : (xs : List Json) → elems (of_list xs) ≡ xs
elems-of_list [] = refl
elems-of_list (x ∷ xs) = ap (λ r. x ∷ r) (elems-of_list xs)

-- All managed rules carry the marker.
managed_marked : filter has_marker managed_default_rules ≡ managed_default_rules
unfolding includes lookup
managed_marked = refl

managed_unmarked : filter is_admin_rule managed_default_rules ≡ []
unfolding includes lookup
managed_unmarked = refl

-- No rule passes both tests.
marked_admin : (rules : List Json) → filter has_marker (filter is_admin_rule rules) ≡ []
marked_admin [] = refl
marked_admin (rule ∷ rules) = ground (arith, marked_admin rules)

admin_marked :
    (keep : Json → Bool) (rules : List Json)
    → filter is_admin_rule (filter keep (filter has_marker rules)) ≡ []
admin_marked keep [] = refl
admin_marked keep (rule ∷ rules) = ground (arith, admin_marked keep rules)

module _ (lodash : Lodash) where
  abbrev is_known : Json → Bool
  is_known rule = any (λ managed. lodash.is_equal managed rule) managed_default_rules

  unknown_managed :
      (equal_self : (v : Json) → lodash.is_equal v v ≡ true) (rules : List Json)
      → ((rule : Json) → Memᴰ rule rules → Memᴰ rule managed_default_rules)
      → filter (λ rule. not (is_known rule)) rules ≡ []
  unknown_managed equal_self [] among = refl
  unknown_managed equal_self (rule ∷ rules) among =
      let known =
        any-mem (λ managed. lodash.is_equal managed rule) managed_default_rules rule
          (among rule (head refl)) (equal_self rule) in
      rw known (unknown_managed equal_self rules (λ r m. among r (tail m)))

  abbrev pub merge : Option Json → Merged
  merge = merge_rules lodash

  abbrev section : List Json → Option Json
  section rules = some (arr (of_list rules))

  abbrev admin_rules : Option Json → List Json
  admin_rules current = filter is_admin_rule (rules_in current)

  merged_lem :
      (current : Option Json)
      → (merge current).merged ≡ managed_default_rules ++ admin_rules current
  unfolding merge_rules
  merged_lem current = refl

  admin-merged :
      (current : Option Json) → filter is_admin_rule (merge current).merged ≡ admin_rules current
  admin-merged current =
      ap (filter is_admin_rule) (merged_lem current)
      ∙ filter-append is_admin_rule managed_default_rules (admin_rules current)
      ∙ ap₂ ◌++◌ managed_unmarked (filter_idem is_admin_rule (rules_in current))

  -- A section without a null among its rules is merged: the rules that an administrator wrote come
  -- through as they are, in order, behind the managed ones; the rules that the merge reports as
  -- dropped all carried the marker.
  pub merge_keeps_admin_rules :
      (current : Option Json)
      → any is_null (rules_in current) ≡ false
      → (m : Merged) × (merge_managed_defaults lodash current ≡ ok m)
        × (m.merged ≡ managed_default_rules ++ filter is_admin_rule (rules_in current))
        × (filter is_admin_rule m.merged ≡ filter is_admin_rule (rules_in current))
        × (filter is_admin_rule m.dropped ≡ [])
  unfolding merge_managed_defaults merge_rules
  merge_keeps_admin_rules current no_null = (
    merge current,
    rw no_null refl,
    merged_lem current,
    admin-merged current,
    admin_marked (λ rule. not (is_known rule)) (rules_in current),
  )

  marked-merged :
      (current : Option Json) → filter has_marker (merge current).merged ≡ managed_default_rules
  marked-merged current =
      ap (filter has_marker) (merged_lem current)
      ∙ filter-append has_marker managed_default_rules (admin_rules current)
      ∙ ap₂ ◌++◌ managed_marked (marked_admin (rules_in current))
      ∙ append-nil managed_default_rules

  again_merged :
      (current : Option Json)
      → (merge (section (merge current).merged)).merged ≡ (merge current).merged
  again_merged current =
      merged_lem (section (merge current).merged)
      ∙ ap (λ rules. managed_default_rules ++ filter is_admin_rule rules)
          (elems-of_list (merge current).merged)
      ∙ ap (λ rules. managed_default_rules ++ rules) (admin-merged current)
      ∙ sym (merged_lem current)

  again_changed :
      (equal_self : (v : Json) → lodash.is_equal v v ≡ true) (current : Option Json)
      → (merge (section (merge current).merged)).changed ≡ false
  unfolding merge_rules
  again_changed equal_self current =
      let m = (merge current).merged in
      let same : lodash.is_equal (arr (of_list (merge (section m)).merged)) (arr (of_list m))
          ≡ true =
        ap (λ rules. lodash.is_equal (arr (of_list rules)) (arr (of_list m))) (again_merged current)
        ∙ equal_self (arr (of_list m)) in
      ap not same

  null_in_filter :
      (rules : List Json)
      → any is_null rules ≡ false
      → any is_null (filter is_admin_rule rules) ≡ false
  null_in_filter [] h = refl
  null_in_filter (rule ∷ rules) h =
      let rest = null_in_filter rules (ground arith) in
      elim (Bool-cases (is_admin_rule rule)) [
        | inl e ↦ ground (arith, e, rest)
        | inr e ↦ ground (arith, e, rest)
      ]

  merge_rules_of :
      (current : Option Json) (m : Merged)
      → merge_managed_defaults lodash current ≡ ok m
      → (any is_null (rules_in current) ≡ false) × (m ≡ merge current)
  unfolding merge_managed_defaults
  merge_rules_of current m h = elim (Bool-cases (any is_null (rules_in current))) [
    | inl e ↦ absurd (ground (arith, e, h))
    | inr e ↦ (e, ground (arith, e, h))
  ]

  -- What a merge wrote has no null, so it can be merged again.
  again_merges :
      (current : Option Json)
      → any is_null (rules_in current) ≡ false
      → merge_managed_defaults lodash (section (merge current).merged)
        ≡ ok (merge (section (merge current).merged))
  unfolding merge_managed_defaults
  again_merges current no_null =
      let fine : any is_null (elems (of_list (merge current).merged)) ≡ false =
        rw (elems-of_list (merge current).merged)
          (rw (merged_lem current) (null_in_filter (rules_in current) no_null)) in
      rw fine refl

  -- A merge of what a merge wrote succeeds, changes nothing and drops nothing, so the write-back
  -- settles: with an `isEqual` by which each value equals itself.
  pub merge_idem :
      (equal_self : (v : Json) → lodash.is_equal v v ≡ true) (current : Option Json) (m : Merged)
      → merge_managed_defaults lodash current ≡ ok m
      → (again : Merged) × (merge_managed_defaults lodash (some (arr (of_list m.merged)))
          ≡ ok again)
        × (again.merged ≡ m.merged)
        × (again.changed ≡ false)
        × (again.dropped ≡ [])
  unfolding merge_rules
  merge_idem equal_self current m h =
      let merged = (merge current).merged in
      let (no_null, same) = merge_rules_of current m h in
      rw same (
        merge (section merged),
        again_merges current no_null,
        again_merged current,
        again_changed equal_self current,
        ap (λ rules. filter (λ rule. not (is_known rule)) (filter has_marker rules))
              (elems-of_list merged)
            ∙ ap (filter (λ rule. not (is_known rule))) (marked-merged current)
            ∙ unknown_managed equal_self managed_default_rules (λ rule m. m),
      )
