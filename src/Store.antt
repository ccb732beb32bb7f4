-- ===== src/Store.antt =====
-- runtime/store.py: the migrations of the database, and the life of `RuntimeStore`.
pub mod Migration
pub mod Lifecycle
mod Examples
use unifi_mcp.Base.{
  ℕ, ◌<◌, max, String, Bool, true, false, not, ◌||◌, Option, none, some, List, [], ◌∷◌, ◌++◌, ltb,
  ◌==◌, if◌then◌else◌, Result, ok, err, ◌>>=◌, ◌>>◌, raise_if, elem,
}

-- What SQLite knows of the database: the rows of `schema_migrations`, and the tables and indexes.
pub record Database : Type 0 where
  pub versions : List ℕ
  pub names : List String

abbrev pub empty_file : Database
empty_file = record { versions = []; names = [] }

pub data Statement : Type 0 where
  create_table : String → Statement
  create_index : (name table : String) → Statement

pub data StoreError : Type 0 where
  operational_error integrity_error newer_schema cannot_connect closed : StoreError

-- A name that is taken, or an index on a table that is missing, is an error.
unfoldable pub execute : Statement → List String → Result StoreError (List String)
execute (create_table name) names = do
  raise_if (elem name names) operational_error
  ok (names ++ name ∷ [])
execute (create_index name table) names = do
  raise_if (elem name names) operational_error
  raise_if (not (elem table names)) operational_error
  ok (names ++ name ∷ [])

-- for statement in statements: await connection.execute(statement)
unfoldable pub execute_all : List Statement → List String → Result StoreError (List String)
unfolding execute
execute_all [] names = ok names
execute_all (s ∷ ss) names = do names' ← execute s names; execute_all ss names'

abbrev pub apply_v2 : List Statement
apply_v2 =
    create_table "events"
    ∷ create_table "event_cursors"
    ∷ create_table "schedules"
    ∷ create_table "job_runs"
    ∷ create_table "webhook_destinations"
    ∷ create_table "webhook_deliveries"
    ∷ create_index "events_occurred_at_idx" "events"
    ∷ create_index "events_category_occurred_at_idx" "events"
    ∷ create_index "schedules_due_idx" "schedules"
    ∷ create_index "job_runs_finished_at_idx" "job_runs"
    ∷ create_index "webhook_deliveries_due_idx" "webhook_deliveries"
    ∷ []

abbrev pub apply_v3 : List Statement
apply_v3 =
    create_table "observations"
    ∷ create_index "observations_scope_time_idx" "observations"
    ∷ create_index "observations_retention_idx" "observations"
    ∷ []

abbrev pub apply_v4 : List Statement
apply_v4 =
    create_table "client_tags"
    ∷ create_table "client_groups"
    ∷ create_table "client_group_memberships"
    ∷ create_index "client_tags_lookup_idx" "client_tags"
    ∷ create_index "client_group_memberships_lookup_idx" "client_group_memberships"
    ∷ create_table "client_qos_plans"
    ∷ create_table "client_qos_targets"
    ∷ create_index "client_qos_plans_scope_idx" "client_qos_plans"
    ∷ []

-- CREATE TABLE IF NOT EXISTS
abbrev pub ensure : String → List String → List String
ensure name names = if elem name names then names else names ++ name ∷ []

-- COALESCE(MAX(version), 0)
unfoldable pub max_version : List ℕ → ℕ
max_version [] = 0
max_version (v ∷ vs) = max v (max_version vs)

abbrev pub has_version : ℕ → List ℕ → Bool
has_version v [] = false
has_version v (x ∷ xs) = x == v || has_version v xs

-- if current_version < target: the statements, and the row of the target
unfoldable pub upgrade :
    (target : ℕ) → List Statement → (current_version : ℕ) → Database → Result StoreError Database
unfolding execute_all
upgrade target statements current_version d = if not (ltb current_version target) then ok d else (do
  names ← execute_all statements d.names
  raise_if (has_version target d.versions) integrity_error
  ok (record { versions = d.versions ++ target ∷ []; names = names }))

-- The tables that every version has.
abbrev pub base_tables : List String → List String
base_tables names = ensure "runtime_metadata" (ensure "schema_migrations" names)

-- `_migrate`; a failure is rolled back when the connection is closed.
unfoldable pub migrate : Database → Result StoreError Database
unfolding max_version upgrade
migrate d = do
  let current_version = max_version d.versions
  raise_if (ltb 4 current_version) newer_schema
  d1 ← upgrade 1 [] current_version (record d { names = base_tables d.names })
  d2 ← upgrade 2 apply_v2 current_version d1
  d3 ← upgrade 3 apply_v3 current_version d2
  upgrade 4 apply_v4 current_version d3

-- A `RuntimeStore` and its file: whether it holds a connection, the schema, the rows of the file, and
-- those that the connection sees in a transaction that was neither committed nor rolled back.
pub record RuntimeStore (Rows : Type 0) : Type 0 where
  pub connected : Bool
  pub schema : Database
  pub rows : Rows
  pub unfinished : Option Rows

-- What leaves a transaction that does not return: an error of the store, or of the body.
pub data Raised (E : Type 0) : Type 0 where
  store_error : StoreError → Raised E
  body_error : E → Raised E

module _ {Rows : Type 0} where
  -- `connects` says that making the directory and connecting succeed.
  unfoldable pub open_store :
      (connects : Bool) → RuntimeStore Rows → RuntimeStore Rows × Result StoreError (Unit {0})
  unfolding migrate
  open_store connects s =
      if s.connected
      then (s, ok tt)
      else if not connects
      then (record s { connected = false }, err cannot_connect)
      else elim (migrate s.schema) [
        | err e ↦ (record s { connected = false }, err e)
        | ok d ↦ (record s { connected = true; schema = d }, ok tt)
      ]

  -- The connection's `close` succeeds; SQLite rolls back what is unfinished.
  unfoldable pub close_store : RuntimeStore Rows → RuntimeStore Rows
  close_store s = record s { connected = false; unfinished = none }

  -- The end of a transaction whose body has left these rows: ROLLBACK, which succeeds, or COMMIT, which
  -- `commits` decides and which nothing follows if it fails.
  unfoldable pub finish :
      {E A : Type 0}
      → (commits : Bool) → RuntimeStore Rows
      → Rows × Result E A
      → RuntimeStore Rows × Result (Raised E) A
  finish commits s (rows, err e) = (record s { unfinished = none }, err (body_error e))
  finish commits s (rows, ok a) =
      if commits
      then (record s { rows = rows; unfinished = none }, ok a)
      else (record s { unfinished = some rows }, err (store_error operational_error))

  -- `transaction`: BEGIN IMMEDIATE, which fails inside of an unfinished transaction, or if another
  -- connection holds the lock for too long; the body, which has changed the rows that it leaves, also
  -- where it raises; and the end.
  unfoldable pub transaction :
      {E A : Type 0}
      → (begins commits : Bool) → (Rows → Rows × Result E A)
      → RuntimeStore Rows
      → RuntimeStore Rows × Result (Raised E) A
  unfolding finish
  transaction begins commits body s =
      if not s.connected then (s, err (store_error closed)) else elim s.unfinished [
        | some rows ↦ (s, err (store_error operational_error))
        | none ↦
            if begins
            then finish commits s (body s.rows)
            else (s, err (store_error operational_error))
      ]

  -- `health`: the version that it reports
  unfoldable pub health : RuntimeStore Rows → Result StoreError ℕ
  unfolding max_version
  health s = if not s.connected then err closed else ok (max_version s.schema.versions)
