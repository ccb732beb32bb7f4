-- ===== src/Scheduler/Execute/Release.antt =====
-- What an execution leaves in the tables, and how it meets the claims of other ticks.
use unifi_mcp.Base.{
  Option, ◌++◌, ap, [], ◌∷◌, none, Result, ok, err, Bool-cases, ℕ, ◌+◌, ◌*◌, ◌≤◌, String, ◌≡◌, refl,
  ◌⊎◌, inl, inr, true, false, some, List, eq_refl, str_eq, All,
}
use unifi_mcp.Base.Table.{All-update_where, All-any, update_where}
use unifi_mcp.Base.Json.{Json}
use unifi_mcp.Jobs.{JobRegistry}
use unifi_mcp.Scheduler.{Schedule, JobRun, running, Db, has_id, second}
use unifi_mcp.Scheduler.Execute.{
  World, Outcome, Config, outcome, begin_run, finish_run, execute, writable,
}
use unifi_mcp.Scheduler.Execute.Attempts.{Executes, outcome-Executes, IsFinal, Executes-IsFinal}

-- A row of `schedules` after the execution: another schedule's, or released with its next time.
abbrev pub Released : Schedule → ℕ → Schedule → Type 0
Released schedule started_at s =
    (has_id schedule.id s ≡ false)
    ⊎ ((s.running ≡ false)
        × (s.last_run_at ≡ some started_at)
        × (s.next_run_at ≡ started_at + schedule.interval_seconds * second))

-- The row of `job_runs` that an execution has inserted, when it has begun, and when it has ended.
abbrev pub begun_row : String → Schedule → ℕ → JobRun
begun_row run_id schedule started_at = record {
  id = run_id;
  schedule_id = some schedule.id;
  job_name = schedule.job_name;
  status = running;
  result_payload = none;
  error_code = none;
  attempt = 1;
  started_at = started_at;
  finished_at = none;
}

abbrev pub ended_row : String → Schedule → (started_at finished_at : ℕ) → Outcome → JobRun
ended_row run_id schedule started_at finished_at o = record {
  id = run_id;
  schedule_id = some schedule.id;
  job_name = schedule.job_name;
  status = o.status;
  result_payload = o.result_payload;
  error_code = o.error_code;
  attempt = o.attempt;
  started_at = started_at;
  finished_at = some finished_at;
}

-- No run of the table has the id.
abbrev pub Fresh : String → List JobRun → Type 0
Fresh run_id = All (λ r. str_eq run_id r.id ≡ false)

-- How an execution ends.
pub data Leaves (config : Config) (registry : JobRegistry) (world : World) (run_id : String)
    (schedule : Schedule) (started_at finished_at : ℕ) (db : Db)
    : Db → Result String Outcome → Type 0 where
  released :
      (db' : Db) (o : Outcome)
      → Executes config registry world schedule o
      → IsFinal o.status
      → All (Released schedule started_at) db'.schedules
      → db'.job_runs ≡ db.job_runs ++ ended_row run_id schedule started_at finished_at o ∷ []
      → Leaves config registry world run_id schedule started_at finished_at db db' (ok o)
  unwritable :
      (db' : Db) (o : Outcome) (payload : Json)
      → Executes config registry world schedule o
      → o.result_payload ≡ some payload
      → world.dumps payload ≡ false
      → db'.schedules ≡ db.schedules
      → db'.job_runs ≡ db.job_runs ++ begun_row run_id schedule started_at ∷ []
      → Leaves config registry world run_id schedule started_at finished_at db db' (err "TypeError")

module _ (run_id : String) (schedule : Schedule) (started_at finished_at : ℕ) (o : Outcome)
    (db : Db) where
  finish_run-Released :
      All
        (Released schedule started_at)
        (finish_run run_id schedule started_at finished_at o db).schedules
  unfolding finish_run
  finish_run-Released =
      All-update_where (λ s. Unit {0}) (Released schedule started_at) _ _
        (λ s hit u. inr (refl, refl, refl)) (λ s miss u. inl miss) db.schedules
        (All-any db.schedules)

  finish_run-appended :
      (runs : List JobRun)
      → Fresh run_id runs
      → (finish_run run_id schedule started_at finished_at o (record {
        schedules = db.schedules;
        job_runs = runs ++ begun_row run_id schedule started_at ∷ [];
      })).job_runs
        ≡ runs ++ ended_row run_id schedule started_at finished_at o ∷ []
  unfolding finish_run update_where
  finish_run-appended [] fresh = rw (eq_refl run_id) refl
  finish_run-appended (r ∷ rs) fresh =
      rw fresh.0 (ap (λ runs. r ∷ runs) (finish_run-appended rs fresh.1))

-- Every execution, however its job ends, comes to an end, if its run has a fresh id and at least one
-- attempt is allowed. Unless `json.dumps` refuses the result, the run has a final status, the
-- schedule is released, with its next run one interval after the start, and the table of runs has one
-- row more, with the status, result, attempts and error of the outcome. If it refuses the result, a
-- TypeError leaves the execution, the schedules are as they were, and the table of runs has one row
-- more, which is running. The outcome is the one that the registry and the handler account for.
pub execute_releases :
    (config : Config) (registry : JobRegistry) (world : World) (run_id : String)
    (schedule : Schedule) (started_at finished_at : ℕ) (db : Db)
    → 1 ≤ config.max_job_attempts
    → Fresh run_id db.job_runs
    → (db' : Db) × (r : Result String Outcome) × (execute config registry world run_id schedule
          started_at finished_at db
        ≡ some (db', r))
      × Leaves config registry world run_id schedule started_at finished_at db db' r
unfolding execute writable begin_run
execute_releases config registry world run_id schedule started_at finished_at db h fresh =
    let (o, same, executes) = outcome-Executes config registry world schedule h in
    by_payload o o.result_payload refl same executes
  where
    begun : Db
    begun = begin_run run_id schedule started_at db

    Goal : Type 0
    Goal =
        (db' : Db) × (r : Result String Outcome) × (execute config registry world run_id schedule
            started_at finished_at db
          ≡ some (db', r))
        × Leaves config registry world run_id schedule started_at finished_at db db' r

    finished :
        (o : Outcome)
        → outcome config registry world schedule ≡ some o
        → Executes config registry world schedule o
        → writable world o.result_payload ≡ true
        → Goal
    finished o same executes written = (
      finish_run run_id schedule started_at finished_at o begun,
      ok o,
      rw (same, execute) (rw written refl),
      released _ o executes (Executes-IsFinal executes)
          (finish_run-Released run_id schedule started_at finished_at o begun)
          (finish_run-appended run_id schedule started_at finished_at o db db.job_runs fresh),
    )

    by_payload :
        (o : Outcome) (payload : Option Json)
        → o.result_payload ≡ payload
        → outcome config registry world schedule ≡ some o
        → Executes config registry world schedule o
        → Goal
    by_payload o none is same executes = finished o same executes (rw (is, writable) refl)
    by_payload o (some payload) is same executes = elim (Bool-cases (world.dumps payload)) [
      | inl taken ↦ finished o same executes (rw (is, writable) taken)
      | inr refused ↦ (
        begun,
        err "TypeError",
        rw (same, execute) (rw (is, writable) (rw refused refl)),
        unwritable begun o payload executes is refused refl refl,
      )
    ]
