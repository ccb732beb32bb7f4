-- ===== src/Scheduler/Claim.antt =====
-- runtime/scheduler.py: `_claim_due` and the claim of `run_schedule_now`.
pub mod Exclusion
pub mod Table
use unifi_mcp.Base.{
  ℕ, ◌+◌, ◌-◌, String, Bool, true, false, not, ◌&&◌, ◌||◌, none, some, List, [], ◌∷◌, map, ltb, leb,
  ◌==◌, str_leb, Result, ok, err, take,
}
use unifi_mcp.Base.Table.{select_where, update_where, find_where, order_by}
use unifi_mcp.Scheduler.{
  Schedule, JobRun, RunStatus, running, interrupted, Db, ScheduleError, not_found_or_running,
  has_id, bounded,
}

-- `started_at <= now - stale_run_seconds`
abbrev pub stale : (stale_run at now : ℕ) → Bool
stale stale_run at now = leb (at + stale_run) now

is_running : RunStatus → Bool
is_running running = true
is_running _ = false

stale_job_run : ℕ → ℕ → JobRun → Bool
stale_job_run stale_run now r = is_running r.status && stale stale_run r.started_at now

unfoldable pub interrupt_stale : (stale_run now : ℕ) → List JobRun → List JobRun
unfolding stale_job_run is_running
interrupt_stale stale_run now =
    update_where (stale_job_run stale_run now) λ r. record r {
      status = interrupted;
      error_code = some "stale_claim";
      finished_at = some now;
    }

unfoldable pub stale_schedule : ℕ → ℕ → Schedule → Bool
stale_schedule stale_run now s = s.running && stale stale_run s.updated_at now

unfoldable pub release_stale : (stale_run now : ℕ) → List Schedule → List Schedule
unfolding stale_schedule
release_stale stale_run now =
    update_where (stale_schedule stale_run now) λ s. record s { running = false; updated_at = now }

unfoldable pub due : (now : ℕ) → Schedule → Bool
due now s = s.enabled && not s.running && leb s.next_run_at now

-- ORDER BY next_run_at, id
unfoldable pub sooner : Schedule → Schedule → Bool
sooner a b =
    ltb a.next_run_at b.next_run_at || (a.next_run_at == b.next_run_at && str_leb a.id b.id)

abbrev pub claim : ℕ → Schedule → Schedule
claim now s = record s { running = true; updated_at = now }

-- The UPDATE for each selected row.
unfoldable pub mark : (now : ℕ) → List Schedule → List Schedule → List Schedule
mark now [] table = table
mark now (row ∷ rows) table = mark now rows (update_where (has_id row.id) (claim now) table)

abbrev pub ids : List Schedule → List String
ids [] = []
ids (s ∷ ss) = s.id ∷ ids ss

-- The rows that the SELECT finds.
unfoldable pub selected : (stale_run now limit : ℕ) → Db → List Schedule
unfolding release_stale due sooner
selected stale_run now limit db =
    take limit (order_by sooner (select_where (due now) (release_stale stale_run now db.schedules)))

-- schedule.model_copy(update={"running": True})
abbrev pub as_running : Schedule → Schedule
as_running s = record s { running = true }

unfoldable pub claim_due : (stale_run now limit : ℕ) → Db → Db × List Schedule
unfolding interrupt_stale release_stale selected mark
claim_due stale_run now limit db =
    let rows = selected stale_run now limit db in
    (
      record {
        schedules = mark now rows (release_stale stale_run now db.schedules);
        job_runs = interrupt_stale stale_run now db.job_runs;
      },
      map as_running rows,
    )

-- The transaction of `run_schedule_now`.
unfoldable pub claim_one : (id : String) (now : ℕ) → Db → Result ScheduleError (Db × Schedule)
claim_one id now db = elim (find_where (λ s. has_id id s && not s.running) db.schedules) [
  | none ↦ err not_found_or_running
  | some row ↦
      ok (
        record db { schedules = update_where (has_id id) (claim now) db.schedules },
        as_running row,
      )
]
