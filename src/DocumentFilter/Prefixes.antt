-- ===== src/DocumentFilter/Prefixes.antt =====
-- Which ids `isReplicable` of document-filter.service.ts lets through.
use mathlib.Core.List.{Memᴰ}
use text.Mathlib.TextPositions.{starts_with-append}
use replication_backend.Prelude.{
  String, true, false, none, some, ◌≡◌, refl, ◌↔◌, ◌&◌, arith, any-mem, mem-any, starts_with,
}
use replication_backend.DocumentFilter.{DocumentFilter, new_filter, is_replicable}

-- An id is kept back exactly when it begins with one of the configured prefixes.
pub is_replicable-false_iff :
    (f : DocumentFilter) (id : String)
    → (is_replicable f id ≡ false)
      ↔ ((prefix : String) × Memᴰ prefix f.ignored_prefixes × (starts_with id prefix ≡ true))
unfolding is_replicable
is_replicable-false_iff f id = (
  λ h. mem-any _ f.ignored_prefixes (ground arith),
  λ m. rw (any-mem (λ p. starts_with id p) f.ignored_prefixes m.0 m.1 m.2),
)

-- By default no design document is replicated, whatever its name.
pub is_replicable-design :
    (name : String) → is_replicable (new_filter none) ("_design/" & name) ≡ false
unfolding is_replicable new_filter
is_replicable-design name = rw starts_with-append

-- An empty setting switches the filter off: every id is replicated.
pub is_replicable-empty : (id : String) → is_replicable (new_filter (some "")) id ≡ true
unfolding is_replicable new_filter
is_replicable-empty id = refl
