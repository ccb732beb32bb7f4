-- ===== src/Scheduler.antt =====
-- runtime/scheduler.py: the tables `schedules` and `job_runs`, and the operations of `Scheduler`.
-- Times are microseconds; the ISO texts that the tables hold, all in UTC, sort as the times do.
pub mod Claim
pub mod Execute
mod Examples
use unifi_mcp.Base.{
  ℕ, min, max, String, Bool, true, false, not, ◌&&◌, ◌||◌, Option, none, some, List, [], ◌∷◌, ◌++◌,
  map, ltb, ◌==◌, str_eq, str_leb, if◌then◌else◌, Result, ok, err, ◌>>=◌, ◌>>◌, raise_if, take,
}
use unifi_mcp.Base.Table.{update_where, delete_where, count_where, order_by}
use unifi_mcp.Base.Json.{Json}
use unifi_mcp.Jobs.{Arguments, JobRegistry, JobError, validate}

abbrev pub second : ℕ
second = 1000000

-- A row of `schedules`; the model `Schedule` has its fields but the last two.
pub record Schedule : Type 0 where
  pub id : String
  pub name : String
  pub job_name : String
  pub interval_seconds : ℕ
  pub arguments : Arguments
  pub enabled : Bool
  pub running : Bool
  pub next_run_at : ℕ
  pub last_run_at : Option ℕ
  pub created_at : ℕ
  pub updated_at : ℕ

pub data RunStatus : Type 0 where
  running succeeded failed cancelled interrupted : RunStatus

-- A row of `job_runs`; `error_code` is the code in `error_json`.
pub record JobRun : Type 0 where
  pub id : String
  pub schedule_id : Option String
  pub job_name : String
  pub status : RunStatus
  pub result_payload : Option Json
  pub error_code : Option String
  pub attempt : ℕ
  pub started_at : ℕ
  pub finished_at : Option ℕ

pub record Db : Type 0 where
  pub schedules : List Schedule
  pub job_runs : List JobRun

pub data ScheduleError : Type 0 where
  invalid_job : JobError → ScheduleError
  interval_too_short not_found_or_running integrity_error : ScheduleError

abbrev pub has_id : String → Schedule → Bool
has_id i s = str_eq i s.id

-- `PRIMARY KEY` and `UNIQUE` of an INSERT into `schedules`.
clashes : String → String → Schedule → Bool
clashes i name s = str_eq s.id i || str_eq s.name name

checked : JobRegistry → String → Arguments → Result ScheduleError Arguments
checked registry job_name arguments = elim (validate registry job_name arguments) [
  | ok a ↦ ok a
  | err e ↦ err (invalid_job e)
]

unfoldable pub create_interval_schedule :
    JobRegistry
    → (name job_name : String) (interval_seconds : ℕ) → Arguments
    → (now : ℕ) (id : String) → Db
    → Result ScheduleError (Db × Schedule)
unfolding checked clashes
create_interval_schedule registry name job_name interval_seconds arguments now id db = do
  validated ← checked registry job_name arguments
  raise_if (ltb interval_seconds 10) interval_too_short
  raise_if (ltb 0 (count_where (clashes id name) db.schedules)) integrity_error
  let row : Schedule = record {
    id = id;
    name = name;
    job_name = job_name;
    interval_seconds = interval_seconds;
    arguments = validated;
    enabled = true;
    running = false;
    next_run_at = now;
    last_run_at = none;
    created_at = now;
    updated_at = now;
  }
  ok (record db { schedules = db.schedules ++ row ∷ [] }, row)

-- SELECT … ORDER BY name
unfoldable pub list_schedules : Db → List Schedule
list_schedules db = order_by (λ a b. str_leb a.name b.name) db.schedules

unfoldable pub set_schedule_enabled : (id : String) (enabled : Bool) (now : ℕ) → Db → Db × Bool
set_schedule_enabled id enabled now db = (
  record db {
    schedules =
        update_where (has_id id) (λ s. record s { enabled = enabled; updated_at = now })
          db.schedules;
  },
  count_where (has_id id) db.schedules == 1,
)

-- A deleted schedule leaves its runs, with `schedule_id` set to NULL.
forget : String → JobRun → JobRun
forget id r = elim r.schedule_id [
  | none ↦ r
  | some i ↦ if str_eq i id then record r { schedule_id = none } else r
]

idle : String → Schedule → Bool
idle id s = has_id id s && not s.running

unfoldable pub delete_schedule : (id : String) → Db → Db × Bool
unfolding idle forget
delete_schedule id db =
    let deleted = count_where (idle id) db.schedules in
    (
      record {
        schedules = delete_where (idle id) db.schedules;
        job_runs = if deleted == 0 then db.job_runs else map (forget id) db.job_runs;
      },
      deleted == 1,
    )

-- max(1, min(limit, most))
abbrev pub bounded : ℕ → ℕ → ℕ
bounded limit most = max 1 (min limit most)

later_run : JobRun → JobRun → Bool
later_run a b = ltb b.started_at a.started_at || (a.started_at == b.started_at && str_leb b.id a.id)

-- ORDER BY started_at DESC, id DESC LIMIT ?
unfoldable pub list_job_runs : (limit : ℕ) → Db → List JobRun
unfolding later_run
list_job_runs limit db = take (bounded limit 1000) (order_by later_run db.job_runs)
