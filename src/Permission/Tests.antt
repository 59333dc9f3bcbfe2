-- ===== src/Permission/Tests.antt =====
-- Tests of the permission check.
