-- ===== src/Scheduler/Execute.antt =====
-- runtime/scheduler.py: `_execute`, from the run's row to its end, and `run_schedule_now`.
pub mod Attempts
pub mod Release
use unifi_mcp.Base.{
  ℕ, zero, suc, ◌+◌, ◌*◌, ◌^◌, max, String, Bool, true, false, not, Option, none, some, [], ◌∷◌,
  ◌++◌, leb, str_eq, if◌then◌else◌, Result, ok, err, ◌>>=◌, ◌>>◌,
}
use unifi_mcp.Base.Table.{update_where}
use unifi_mcp.Base.Json.{Json, end}
use unifi_mcp.Jobs.{Arguments, JobDefinition, JobRegistry, get, validate}
use unifi_mcp.Scheduler.{
  Schedule, JobRun, RunStatus, running, succeeded, failed, cancelled, interrupted, Db,
  ScheduleError, has_id, second,
}
use unifi_mcp.Scheduler.Claim.{claim_one}

-- What the handler does at one attempt: return, raise (an expired `asyncio.timeout` raises
-- "TimeoutError"), or be cancelled.
pub data Attempt : Type 0 where
  returns : Json → Attempt
  raises : String → Attempt
  is_cancelled : Attempt

-- What the scheduler does not decide: the handler at each attempt, counted from 1, whether the sleep
-- after an attempt is cancelled, and whether `json.dumps` takes what the handler has returned.
pub record World : Type 0 where
  pub handler : Arguments → ℕ → Attempt
  pub sleep_cancelled : ℕ → Bool
  pub dumps : Json → Bool

-- The local variables when the loop is left; `slept` is the time spent in retry delays.
pub record Outcome : Type 0 where
  pub status : RunStatus
  pub error_code : Option String
  pub result_payload : Option Json
  pub attempt : ℕ
  pub slept : ℕ

abbrev pub cancelled_at : ℕ → ℕ → Outcome
cancelled_at n slept = record {
  status = cancelled;
  error_code = some "CancelledError";
  result_payload = none;
  attempt = n;
  slept = slept;
}

-- `while True`, on fuel; `none` says that the fuel ran out.
unfoldable pub attempts :
    (fuel : ℕ) (handler : ℕ → Attempt) (sleep_cancelled : ℕ → Bool) (max_attempts initial_delay : ℕ)
    (attempt slept : ℕ)
    → Option Outcome
attempts zero handler sleep_cancelled max_attempts initial_delay attempt slept = none
attempts (suc fuel) handler sleep_cancelled max_attempts initial_delay attempt slept =
    elim (handler (attempt + 1)) [
      | returns payload ↦ some (record {
        status = succeeded;
        error_code = none;
        result_payload = some payload;
        attempt = attempt + 1;
        slept = slept;
      })
      | is_cancelled ↦ some (cancelled_at (attempt + 1) slept)
      | raises name ↦
          let again =
            attempts fuel handler sleep_cancelled max_attempts initial_delay (attempt + 1)
              (slept + initial_delay * 2 ^ attempt) in
          if leb max_attempts (attempt + 1)
          then some (record {
            status = failed;
            error_code = some name;
            result_payload = none;
            attempt = attempt + 1;
            slept = slept;
          })
          else if sleep_cancelled (attempt + 1)
          then some (cancelled_at (attempt + 1) slept)
          else again
    ]

-- A run that fails before its first attempt.
abbrev pub rejected : String → Outcome
rejected code = record {
  status = failed;
  error_code = some code;
  result_payload = none;
  attempt = 1;
  slept = 0;
}

-- The configuration of a `Scheduler`, as its constructor stores it.
pub record Config : Type 0 where
  pub stale_run : ℕ
  pub max_job_attempts : ℕ
  pub retry_initial_delay : ℕ

abbrev pub configure : (stale_run max_job_attempts retry_initial_delay : ℕ) → Config
configure stale_run max_job_attempts retry_initial_delay = record {
  stale_run = stale_run;
  max_job_attempts = max 1 max_job_attempts;
  retry_initial_delay = retry_initial_delay;
}

abbrev pub max_attempts : Config → JobDefinition → ℕ
max_attempts config definition = if definition.retryable then config.max_job_attempts else 1

-- The outcome of one execution: the job is resolved and validated anew.
unfoldable pub outcome : Config → JobRegistry → World → Schedule → Option Outcome
unfolding attempts
outcome config registry world schedule = elim (get registry schedule.job_name) [
  | err e ↦ some (rejected "job_unavailable")
  | ok definition ↦ elim (validate registry schedule.job_name schedule.arguments) [
    | err e ↦ some (rejected "job_configuration_invalid")
    | ok arguments ↦
        attempts (max_attempts config definition) (world.handler arguments) world.sleep_cancelled
          (max_attempts config definition) config.retry_initial_delay 0 0
  ]
]

-- The first transaction of `_execute`.
unfoldable pub begin_run : (run_id : String) → Schedule → (started_at : ℕ) → Db → Db
begin_run run_id schedule started_at db = record db {
  job_runs =
      db.job_runs
      ++ record {
        id = run_id;
        schedule_id = some schedule.id;
        job_name = schedule.job_name;
        status = running;
        result_payload = none;
        error_code = none;
        attempt = 1;
        started_at = started_at;
        finished_at = none;
      }
        ∷ [];
}

-- The last transaction of `_execute`.
unfoldable pub finish_run :
    (run_id : String) → Schedule → (started_at finished_at : ℕ) → Outcome → Db → Db
finish_run run_id schedule started_at finished_at o db = record {
  job_runs =
      update_where (λ r. str_eq run_id r.id)
        (λ r. record r {
          status = o.status;
          result_payload = o.result_payload;
          error_code = o.error_code;
          attempt = o.attempt;
          finished_at = some finished_at;
        })
        db.job_runs;
  schedules =
      update_where (has_id schedule.id)
        (λ s. record s {
          running = false;
          last_run_at = some started_at;
          next_run_at = started_at + schedule.interval_seconds * second;
          updated_at = finished_at;
        })
        db.schedules;
}

-- The result that the last transaction writes can be written, or there is none.
unfoldable pub writable : World → Option Json → Bool
writable world none = true
writable world (some payload) = world.dumps payload

-- `_execute` with nothing between its transactions: the tables, and how the run ended; the error is
-- the TypeError of `json.dumps`, which rolls the last transaction back.
unfoldable pub execute :
    Config
    → JobRegistry
    → World
    → (run_id : String) → Schedule
    → (started_at finished_at : ℕ) → Db
    → Option (Db × Result String Outcome)
unfolding begin_run finish_run writable
execute config registry world run_id schedule started_at finished_at db =
    let begun = begin_run run_id schedule started_at db in
    elim (outcome config registry world schedule) [
      | none ↦ none
      | some o ↦
          if writable world o.result_payload
          then some (finish_run run_id schedule started_at finished_at o begun, ok o)
          else some (begun, err "TypeError")
    ]

unfoldable pub run_schedule_now :
    Config
    → JobRegistry
    → World
    → (run_id id : String) (now finished_at : ℕ) → Db
    → Result ScheduleError (Option (Db × Result String Outcome))
unfolding execute
run_schedule_now config registry world run_id id now finished_at db = do
  (db', schedule) ← claim_one id now db
  ok (execute config registry world run_id schedule now finished_at db')
