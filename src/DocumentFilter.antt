-- ===== src/DocumentFilter.antt =====
-- src/restricted-endpoints/replication/document-filter/document-filter.service.ts
pub mod Prefixes
use Prim.Native.Char.{code}
use Prim.Native.String
use replication_backend.Prelude.{
  ℕ, String, Bool, not, ◌&&◌, ◌||◌, Option, none, some, List, [], ◌∷◌, map, ◌==◌, eqb, filter, any,
  starts_with, ◌&◌, if◌then◌else◌, is_space,
}

-- `s.split(sep)`, for a separator of one character
abbrev split_from : ℕ → String → String → List String
split_from sep piece String.[] = piece ∷ []
split_from sep piece (String.◌∷◌ c s) =
    let closed = piece ∷ split_from sep "" s in
    let longer = split_from sep (piece & String.◌∷◌ c "") s in
    if eqb (code c) sep then closed else longer

abbrev pub split : ℕ → String → List String
split sep s = split_from sep "" s

-- `s.trimStart()`
unfoldable pub trim_start : String → String
trim_start String.[] = ""
trim_start (String.◌∷◌ c s) =
    let rest = trim_start s in if is_space (code c) then rest else String.◌∷◌ c s

-- `s.trimEnd()`
unfoldable pub trim_end : String → String
trim_end String.[] = ""
trim_end (String.◌∷◌ c s) =
    let rest = trim_end s in if rest == "" && is_space (code c) then "" else String.◌∷◌ c rest

abbrev pub trim : String → String
trim s = trim_end (trim_start s)

-- `DEFAULT_IGNORED_PREFIXES`
abbrev pub default_ignored_prefixes : List String
default_ignored_prefixes = "_design/" ∷ []

-- `class DocumentFilterService`, its state
pub record DocumentFilter : Type 0 where
  pub ignored_prefixes : List String

-- the constructor, from the value of `REPLICATION_IGNORED_PREFIXES`
unfoldable pub new_filter : Option String → DocumentFilter
unfolding trim_start trim_end
new_filter none = record { ignored_prefixes = default_ignored_prefixes }
new_filter (some env_value) = record {
  ignored_prefixes = filter (λ p. not (p == "")) (map trim (split b',' env_value));
}

unfoldable pub is_replicable : DocumentFilter → String → Bool
is_replicable f doc_id = not (any (λ prefix. starts_with doc_id prefix) f.ignored_prefixes)
