-- ===== src/Store/Examples.antt =====
-- A store on a new file.
use unifi_mcp.Base.{ℕ, ◌+◌, ◌≤◌, String, ◌≡◌, refl, none, true, false, Result, ok, err, elem}
use unifi_mcp.Store.{
  Database, empty_file, max_version, migrate, RuntimeStore, open_store, transaction,
}
use unifi_mcp.Store.Migration.{migrate-migrate}
use unifi_mcp.Store.Lifecycle.{start, next, opens, Ends, transaction-Reachable}

abbrev file : RuntimeStore ℕ
file = record { connected = false; schema = empty_file; rows = 3; unfinished = none }

abbrev opened : RuntimeStore ℕ
opened = (open_store true file).0

-- A new file migrates.
abbrev current : Database
unfolding migrate
current = elim (migrate empty_file) [ ok d ↦ d | err e ↦ empty_file ]

migrate-migrate_example :
    (max_version empty_file.versions ≤ 4)
    × (max_version current.versions ≡ 4)
    × (migrate current ≡ ok current)
    × ((n : String) → elem n empty_file.names ≡ true → elem n current.names ≡ true)
unfolding migrate
migrate-migrate_example = migrate-migrate empty_file current refl

abbrev body : ℕ → ℕ × Result String ℕ
body n = (n + 1, ok n)

transaction-Reachable_example : Ends true true body opened (transaction true true body opened)
transaction-Reachable_example =
    transaction-Reachable true true body opened (next (start empty_file 3) (opens true file))
