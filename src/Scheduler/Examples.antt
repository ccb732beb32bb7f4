-- ===== src/Scheduler/Examples.antt =====
-- The scheduler at one schedule, claimed, run and claimed again.
use unifi_mcp.Base.{
  ℕ, ◌≤◌, ◌≡◌, length, String, Result, true, false, none, some, [], ◌∷◌, arith, leb, if◌then◌else◌,
  All, elem,
}
use unifi_mcp.Base.Json.{null}
use unifi_mcp.Jobs.{JobDefinition, JobRegistry}
use unifi_mcp.Scheduler.{Schedule, Db}
use unifi_mcp.Scheduler.Claim.{ids, claim_due}
use unifi_mcp.Scheduler.Claim.Exclusion.{claim_due_exclusive}
use unifi_mcp.Scheduler.Claim.Table.{Moved, claim_due-Moved}
use unifi_mcp.Scheduler.Execute.{
  Attempt, returns, raises, World, Outcome, configure, attempts, execute,
}
use unifi_mcp.Scheduler.Execute.Attempts.{Account, attempts-Account}
use unifi_mcp.Scheduler.Execute.Release.{Leaves, execute_releases}

abbrev poll : Schedule
poll = record {
  id = "s1";
  name = "poll";
  job_name = "poll_events";
  interval_seconds = 60;
  arguments = [];
  enabled = true;
  running = false;
  next_run_at = 100;
  last_run_at = none;
  created_at = 0;
  updated_at = 0;
}

abbrev one : Db
one = record { schedules = poll ∷ []; job_runs = [] }

claim_due-Moved_example :
    Moved
      (ids (claim_due 900 200 10 one).1)
      900
      200
      one.schedules
      (claim_due 900 200 10 one).0.schedules
    × All
        (λ s. (s.enabled ≡ true) × (s.running ≡ true) × (s.next_run_at ≤ 200))
        (claim_due 900 200 10 one).1
    × (length (claim_due 900 200 10 one).1 ≤ 10)
claim_due-Moved_example = claim_due-Moved 900 200 10 one

claim_due_exclusive_example :
    All
      (λ s. elem s.id (ids (claim_due 900 200 10 one).1) ≡ false)
      (claim_due 900 1099 10 (claim_due 900 200 10 one).0).1
claim_due_exclusive_example = claim_due_exclusive 900 200 10 one 1099 10 (omega arith)

-- Two failures, then a value.
abbrev third_time : ℕ → Attempt
third_time n = if leb n 2 then raises "TimeoutError" else returns null

attempts-Account_example :
    (o : Outcome) × (attempts 3 third_time (λ n. false) 3 1 0 0 ≡ some o)
    × Account third_time (λ n. false) 3 1 o
attempts-Account_example = attempts-Account third_time (λ n. false) 3 1 (omega arith)

abbrev poll_events : JobDefinition
poll_events = record {
  name = "poll_events";
  model_fields = [];
  model_validate = λ a. some a;
  retryable = true;
}

abbrev jobs : JobRegistry
jobs = ("poll_events", poll_events) ∷ []

abbrev world : World
world = record { handler = λ a. third_time; sleep_cancelled = λ n. false; dumps = λ j. true }

execute_releases_example :
    (db' : Db) × (r : Result String Outcome) × (execute
        (configure 900 3 1)
        jobs
        world
        "r1"
        poll
        200
        210
        one
      ≡ some (db', r))
    × Leaves (configure 900 3 1) jobs world "r1" poll 200 210 one db' r
execute_releases_example =
    execute_releases (configure 900 3 1) jobs world "r1" poll 200 210 one (omega arith) tt
