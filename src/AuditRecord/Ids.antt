-- ===== src/AuditRecord/Ids.antt =====
-- Audit databases and audit ids tell themselves apart from all others.
use text.Mathlib.TextLemmas.{
  append_cancel_left, nil-append, cons-append, append_assoc, append-eq-nil_iff,
}
use replication_backend.Prelude.{
  String, true, Option, some, inl, inr, Bool-cases, ◌≡◌, refl, arith, ◌==◌, eq_iff, eq_refl, ◌&◌,
  ends_with, before,
}
use replication_backend.AuditRecord.{
  build_audit_id, audit_id_prefix, audit_db_for, is_audit_db, entity_type, audit_db_suffix,
}

ends_with_self : (t : String) → ends_with t t ≡ true
unfolding ends_with
ends_with_self String.[] = refl
ends_with_self (String.◌∷◌ c s) = rw eq_refl

ends_with-append : (s t : String) → ends_with (s & t) t ≡ true
unfolding ends_with
ends_with-append String.[] t = rw nil-append (ends_with_self t)
ends_with-append (String.◌∷◌ c s) t = rw cons-append (ground (arith, ends_with-append s t))

suffix_not_empty : audit_db_suffix ≡ "" → ⊥
suffix_not_empty h = ground (arith, eq_iff audit_db_suffix "")

-- The piece before a colon ends at the first one.
before-append_colon : (s t : String) → before b':' (s & ":" & t) ≡ before b':' s
unfolding before
before-append_colon String.[] t = rw nil-append (rw cons-append refl)
before-append_colon (String.◌∷◌ c s) t = rw cons-append (ground (arith, before-append_colon s t))

-- The audit database of any database counts as one, so its own writes are not audited again.
pub is_audit_db-audit_db_for : (db : String) → is_audit_db (audit_db_for db) ≡ true
unfolding is_audit_db audit_db_for
is_audit_db-audit_db_for db = elim (Bool-cases (db & audit_db_suffix == "")) [
  | inl e ↦ absurd (suffix_not_empty ((append-eq-nil_iff.0 ((eq_iff _ _).0 e)).1))
  | inr e ↦ rw e (ends_with-append db audit_db_suffix)
]

-- Whatever entity a record is about, the part of its id before the first colon is the subject of
-- audit records.
pub before-build_audit_id :
    (entity_id timestamp : String) (rev : Option String)
    → before b':' (build_audit_id entity_id timestamp rev) ≡ entity_type
unfolding build_audit_id before
before-build_audit_id entity_id timestamp rev =
    rw append_assoc (rw append_assoc (rw before-append_colon refl))

-- Records of one entity and one instant differ by their revisions.
pub build_audit_id-injective :
    (entity_id timestamp rev rev' : String)
    → build_audit_id entity_id timestamp (some rev) ≡ build_audit_id entity_id timestamp (some rev')
    → rev ≡ rev'
unfolding build_audit_id
build_audit_id-injective entity_id timestamp rev rev' h = append_cancel_left ":" rev rev' (
    append_cancel_left timestamp _ _
      (append_cancel_left ":" _ _ (append_cancel_left (audit_id_prefix entity_id) _ _ h)))
