-- ===== src/Fixtures/Accounts.antt =====
-- An identity provider with one account, for the tests.
use replication_backend.Prelude.{[], ◌∷◌, ◌==◌, ℕ, length, if◌then◌else◌}
use replication_backend.Effects.{ok, throw, http_exception}
use replication_backend.Couch.{World}
use replication_backend.UserIdentity.{UserAccount, UserAdmin, Identities}
use replication_backend.Fixtures.{start}

abbrev pub ada_account : UserAccount
ada_account = record { id = "u1"; name = "Child:1"; roles = "user_app" ∷ [] }

abbrev pub one_account : UserAdmin
one_account = record {
  State = Unit {0};
  get_user_account = λ user_id s.
      (if user_id == "u1" then ok ada_account else throw (http_exception 404 "no user"), s);
}

abbrev pub nobody_cached : Identities one_account
nobody_cached = record { cache = []; entity_name_index = []; world = start; accounts = tt }

-- The clock advances by a millisecond for each request to the database.
abbrev pub clock : World → Unit {0} → ℕ
clock w s = length w.sent
