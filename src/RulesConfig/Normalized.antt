-- ===== src/RulesConfig/Normalized.antt =====
-- What `normalizeSectionKeys` of src/permissions/rules/rules.service.ts does to a configuration.
use replication_backend.Prelude.{
  String, Option, none, some, ◌==◌, eq_iff, lookup, insert, lookup-insert, lookup-remove, ◌≡◌, ◌≢◌,
  ◌∙◌, arith, or_else, if◌then◌else◌, inl, inr, Option-cases,
}
use replication_backend.Json.{Json, non_null}
use replication_backend.RulesConfig.{
  RulesConfig, move_section, normalize_section_keys, legacy_default_key, legacy_public_key,
  default_section_key, public_section_key,
}

-- The value of a section, the current spelling first.
abbrev pub section_of : RulesConfig → String → String → Option Json
section_of config current legacy = elim (lookup legacy config) [
  | none ↦ lookup current config
  | some old ↦ some (or_else (non_null (lookup current config)) old)
]

lookup-move_section :
    (legacy current k : String) (config : RulesConfig)
    → legacy ≢ current
    → lookup k (move_section legacy current config) ≡ (
        if legacy == k
        then none
        else if current == k
        then section_of config current legacy
        else lookup k config)
unfolding move_section
lookup-move_section legacy current k config h = elim (Option-cases (lookup legacy config)) [
  | inl e ↦ ground (arith, e, eq_iff legacy k, eq_iff current k)
  | inr (old, e) ↦
      let v : Json = or_else (non_null (lookup current config)) old in
      ground (
        arith,
        e,
        lookup-remove legacy k (insert current v config),
        lookup-insert current k v config,
        eq_iff legacy k,
        eq_iff current k,
      )
]

-- A key that is not there has nothing to move.
move_section_absent :
    (legacy current : String) (config : RulesConfig)
    → lookup legacy config ≡ none
    → move_section legacy current config ≡ config
unfolding move_section
move_section_absent legacy current config e = ground (arith, e)

default≢_default : legacy_default_key ≢ default_section_key
default≢_default = ground (arith, eq_iff legacy_default_key default_section_key)

public≢_public : legacy_public_key ≢ public_section_key
public≢_public = ground (arith, eq_iff legacy_public_key public_section_key)

pub normalize_absent :
    (config : RulesConfig)
    → lookup legacy_default_key config ≡ none
    → lookup legacy_public_key config ≡ none
    → normalize_section_keys config ≡ config
unfolding normalize_section_keys
normalize_absent config d p =
    let e = move_section_absent legacy_default_key default_section_key config d in
    rw e (move_section_absent legacy_public_key public_section_key config p)

module _ (config : RulesConfig) where
  abbrev halfway : RulesConfig
  halfway = move_section legacy_default_key default_section_key config

  lookup-halfway :
      (k : String)
      → lookup k halfway ≡ (
          if legacy_default_key == k
          then none
          else if default_section_key == k
          then section_of config default_section_key legacy_default_key
          else lookup k config)
  lookup-halfway k =
      lookup-move_section legacy_default_key default_section_key k config default≢_default

  -- What a normalized configuration holds under a key: nothing under a legacy spelling, under a
  -- current one the section in either spelling, and all else as it was.
  abbrev pub normalized_value : String → Option Json
  normalized_value k =
      if legacy_public_key == k
      then none
      else if public_section_key == k
      then section_of config public_section_key legacy_public_key
      else if legacy_default_key == k
      then none
      else if default_section_key == k
      then section_of config default_section_key legacy_default_key
      else lookup k config

  -- Normalizing moves the two legacy sections to their current keys, where the current one wins if it
  -- is not null, and changes no other section.
  pub lookup-normalize_section_keys :
      (k : String) → lookup k (normalize_section_keys config) ≡ normalized_value k
  unfolding normalize_section_keys
  lookup-normalize_section_keys k =
      lookup-move_section legacy_public_key public_section_key k halfway public≢_public
      ∙ ground (
        arith,
        lookup-halfway k,
        lookup-halfway legacy_public_key,
        lookup-halfway public_section_key,
      )

  -- Normalizing again changes nothing.
  pub normalize_section_keys_idem :
      normalize_section_keys (normalize_section_keys config) ≡ normalize_section_keys config
  normalize_section_keys_idem =
      normalize_absent (normalize_section_keys config)
        (lookup-normalize_section_keys legacy_default_key)
        (lookup-normalize_section_keys legacy_public_key)
