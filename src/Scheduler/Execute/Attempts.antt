-- ===== src/Scheduler/Execute/Attempts.antt =====
-- The retry loop of `_execute`: it ends, within its attempts, and says what happened.
use unifi_mcp.Base.{
  ℕ, zero, suc, ◌+◌, ◌-◌, ◌*◌, ◌^◌, ◌≤◌, ◌<◌, String, ◌≡◌, refl, ap, ◌⊎◌, inl, inr, Bool, true,
  false, none, some, arith, leb, leb→le, Bool-cases, Result, ok, err,
}
use unifi_mcp.Base.Json.{Json}
use native.Mathlib.Nat.{pow-suc}
use native.Mathlib.Numerals.{towards_suc}
use native.Mathlib.Decide.{ℕ_discrete}
use unifi_mcp.Jobs.{Arguments, JobDefinition, JobRegistry, JobError, get, validate}
use unifi_mcp.Scheduler.{Schedule, RunStatus, succeeded, failed, cancelled}
use unifi_mcp.Scheduler.Execute.{
  Attempt, returns, raises, is_cancelled, World, Outcome, attempts, rejected, Config, max_attempts,
  outcome,
}

-- Why the loop stops after the last attempt of `o`.
pub data Ends (handler : ℕ → Attempt) (sleep_cancelled : ℕ → Bool) (most : ℕ) (o : Outcome)
    : Type 0 where
  success :
      (payload : Json)
      → handler o.attempt ≡ returns payload
      → o.status ≡ succeeded
      → o.result_payload ≡ some payload
      → o.error_code ≡ none
      → Ends handler sleep_cancelled most o
  failure :
      (name : String)
      → handler o.attempt ≡ raises name
      → o.attempt ≡ most
      → o.status ≡ failed
      → o.result_payload ≡ none
      → o.error_code ≡ some name
      → Ends handler sleep_cancelled most o
  stopped :
      (handler o.attempt ≡ is_cancelled)
        ⊎ ((name : String) × (handler o.attempt ≡ raises name)
            × (o.attempt < most)
            × (sleep_cancelled o.attempt ≡ true))
      → o.status ≡ cancelled
      → o.result_payload ≡ none
      → o.error_code ≡ some "CancelledError"
      → Ends handler sleep_cancelled most o

-- Attempt `k` raised, and the sleep after it was not cancelled.
abbrev pub Retried : (ℕ → Attempt) → (ℕ → Bool) → ℕ → Type 0
Retried handler sleep_cancelled k =
    (name : String) × (handler k ≡ raises name) × (sleep_cancelled k ≡ false)

-- A complete account of a run of the loop.
pub record Account (handler : ℕ → Attempt) (sleep_cancelled : ℕ → Bool) (most initial_delay : ℕ)
    (o : Outcome) : Type 0 where
  pub first : 1 ≤ o.attempt
  pub last : o.attempt ≤ most
  pub earlier : (k : ℕ) → 1 ≤ k → k < o.attempt → Retried handler sleep_cancelled k
  pub ends : Ends handler sleep_cancelled most o
  pub delays : o.slept + initial_delay ≡ initial_delay * 2 ^ (o.attempt - 1)

doubled :
    (initial_delay attempt slept : ℕ)
    → slept + initial_delay ≡ initial_delay * 2 ^ attempt
    → slept + initial_delay * 2 ^ attempt + initial_delay ≡ initial_delay * 2 ^ (attempt + 1)
doubled initial_delay attempt slept h = simp towards_suc (rw pow-suc (grind arith))

module _ (handler : ℕ → Attempt) (sleep_cancelled : ℕ → Bool) (most initial_delay : ℕ) where
  -- The loop from `attempt` attempts on comes to an outcome with such an account.
  abbrev Accounted : ℕ → ℕ → ℕ → Type 0
  Accounted fuel attempt slept =
      (o : Outcome) × (attempts fuel handler sleep_cancelled most initial_delay attempt slept
        ≡ some o)
      × Account handler sleep_cancelled most initial_delay o

  module _ (fuel attempt slept : ℕ) (room : attempt + suc fuel ≡ most)
      (raised : (k : ℕ) → 1 ≤ k → k < attempt + 1 → Retried handler sleep_cancelled k)
      (so_far : slept + initial_delay ≡ initial_delay * 2 ^ attempt) where
    pred_suc : attempt + 1 - 1 ≡ attempt
    pred_suc = omega arith

    so_far' : slept + initial_delay ≡ initial_delay * 2 ^ (attempt + 1 - 1)
    so_far' = rw pred_suc so_far

    -- One round, by what the handler does in it.
    by_handler :
        (a : Attempt)
        → handler (attempt + 1) ≡ a
        → ((name : String)
            → a ≡ raises name
            → sleep_cancelled (attempt + 1) ≡ false
            → 1 ≤ fuel
            → Accounted fuel (attempt + 1) (slept + initial_delay * 2 ^ attempt))
        → Accounted (suc fuel) attempt slept
    unfolding attempts
    by_handler (returns payload) e next = (
      _,
      rw (e, attempts) refl,
      record {
        first = omega arith;
        last = omega arith;
        earlier = raised;
        ends = success payload e refl refl refl;
        delays = so_far';
      },
    )
    by_handler is_cancelled e next = (
      _,
      rw (e, attempts) refl,
      record {
        first = omega arith;
        last = omega arith;
        earlier = raised;
        ends = stopped (inl e) refl refl refl;
        delays = so_far';
      },
    )
    by_handler (raises name) e next = elim (Bool-cases (leb most (attempt + 1))) [
      | inl over ↦ (
        _,
        rw (e, over, attempts) refl,
        record {
          first = omega arith;
          last = omega arith;
          earlier = raised;
          ends = failure name e (omega (arith, leb→le _ _ over)) refl refl refl;
          delays = so_far';
        },
      )
      | inr more ↦ elim (Bool-cases (sleep_cancelled (attempt + 1))) [
        | inl woken ↦ (
          _,
          rw (e, more, woken, attempts) refl,
          record {
            first = omega arith;
            last = omega arith;
            earlier = raised;
            ends = stopped (inr (name, e, ground arith, woken)) refl refl refl;
            delays = so_far';
          },
        )
        | inr slept_out ↦
            let (o, same, account) = next name refl slept_out (ground arith) in
            (o, rw (e, more, slept_out, attempts) same, account)
      ]
    ]

  accounted :
      (fuel attempt slept : ℕ)
      → attempt + fuel ≡ most
      → 1 ≤ fuel
      → ((k : ℕ) → 1 ≤ k → k < attempt + 1 → Retried handler sleep_cancelled k)
      → slept + initial_delay ≡ initial_delay * 2 ^ attempt
      → Accounted fuel attempt slept
  accounted zero attempt slept room some_left raised so_far = absurd (omega arith)
  accounted (suc fuel) attempt slept room some_left raised so_far =
      by_handler fuel attempt slept room raised so_far (handler (attempt + 1)) refl
        λ name e slept_out left.
          accounted fuel (attempt + 1) (slept + initial_delay * 2 ^ attempt) (omega arith) left
            (λ k low high. elim (ℕ_discrete k (attempt + 1)) [
              | yes now ↦ rw now (name, e, slept_out)
              | no before ↦ raised k low (omega arith)
            ])
            (doubled initial_delay attempt slept so_far)

-- The loop of `_execute` always ends, with at least one attempt and never more than
-- `max_attempts`; every attempt before the last raised; the run succeeds exactly with the value
-- that the last attempt returned, fails with the class of what it raised only when no attempt is
-- left, and else was cancelled; and the delays add up to `initial_delay * (2 ^ (attempts - 1) - 1)`.
pub attempts-Account :
    (handler : ℕ → Attempt) (sleep_cancelled : ℕ → Bool) (most initial_delay : ℕ)
    → 1 ≤ most
    → (o : Outcome) × (attempts most handler sleep_cancelled most initial_delay 0 0 ≡ some o)
      × Account handler sleep_cancelled most initial_delay o
attempts-Account handler sleep_cancelled most initial_delay h =
    accounted handler sleep_cancelled most initial_delay most 0 0 (omega arith) h
      (λ k low high. absurd (omega arith)) (omega arith)

-- A run that was recorded is over.
abbrev pub IsFinal : RunStatus → Type 0
IsFinal status = (status ≡ succeeded) ⊎ (status ≡ failed) ⊎ (status ≡ cancelled)

Ends-IsFinal :
    {handler : ℕ → Attempt} {sleep_cancelled : ℕ → Bool} {most : ℕ} {o : Outcome}
    → Ends handler sleep_cancelled most o
    → IsFinal o.status
Ends-IsFinal (success payload e s r c) = inl s
Ends-IsFinal (failure name e l s r c) = inr (inl s)
Ends-IsFinal (stopped why s r c) = inr (inr s)

-- How an execution goes, by what the registry says of its job.
pub data Executes (config : Config) (registry : JobRegistry) (world : World) (schedule : Schedule)
    (o : Outcome) : Type 0 where
  unavailable :
      (e : JobError)
      → get registry schedule.job_name ≡ err e
      → o ≡ rejected "job_unavailable"
      → Executes config registry world schedule o
  invalid :
      (d : JobDefinition) (e : JobError)
      → get registry schedule.job_name ≡ ok d
      → validate registry schedule.job_name schedule.arguments ≡ err e
      → o ≡ rejected "job_configuration_invalid"
      → Executes config registry world schedule o
  attempted :
      (d : JobDefinition) (arguments : Arguments)
      → get registry schedule.job_name ≡ ok d
      → validate registry schedule.job_name schedule.arguments ≡ ok arguments
      → Account
          (world.handler arguments)
          world.sleep_cancelled
          (max_attempts config d)
          config.retry_initial_delay
          o
      → Executes config registry world schedule o

max_attempts-pos :
    (config : Config) (d : JobDefinition) → 1 ≤ config.max_job_attempts → 1 ≤ max_attempts config d
max_attempts-pos config d h = ground arith

-- Every execution comes to an outcome: "job_unavailable" for a job that is not registered,
-- "job_configuration_invalid" for stored arguments that no longer validate, and otherwise a run of
-- the retry loop, with a single attempt unless the job is retryable.
pub outcome-Executes :
    (config : Config) (registry : JobRegistry) (world : World) (schedule : Schedule)
    → 1 ≤ config.max_job_attempts
    → (o : Outcome) × (outcome config registry world schedule ≡ some o)
      × Executes config registry world schedule o
unfolding outcome
outcome-Executes config registry world schedule h = resolved (get registry schedule.job_name) refl
  where
    Result_of : Type 0
    Result_of =
        (o : Outcome) × (outcome config registry world schedule ≡ some o)
        × Executes config registry world schedule o

    accepted :
        (d : JobDefinition) (v : Result JobError Arguments)
        → get registry schedule.job_name ≡ ok d
        → validate registry schedule.job_name schedule.arguments ≡ v
        → Result_of
    accepted d (err e) found invalid_because =
        (_, rw (found, invalid_because, outcome) refl, invalid d e found invalid_because refl)
    accepted d (ok arguments) found valid =
        let (o, same, account) =
          attempts-Account (world.handler arguments) world.sleep_cancelled (max_attempts config d)
            config.retry_initial_delay (max_attempts-pos config d h) in
        (o, rw (found, valid, outcome) same, attempted d arguments found valid account)

    resolved : (g : Result JobError JobDefinition) → get registry schedule.job_name ≡ g → Result_of
    resolved (err e) missing = (_, rw (missing, outcome) refl, unavailable e missing refl)
    resolved (ok d) found =
        accepted d (validate registry schedule.job_name schedule.arguments) found refl

pub Executes-IsFinal :
    {config : Config} {registry : JobRegistry} {world : World} {schedule : Schedule} {o : Outcome}
    → Executes config registry world schedule o
    → IsFinal o.status
Executes-IsFinal (unavailable e m s) = inr (inl (ap (λ (o : Outcome). o.status) s))
Executes-IsFinal (invalid d e f v s) = inr (inl (ap (λ (o : Outcome). o.status) s))
Executes-IsFinal (attempted d a f v account) = Ends-IsFinal account.ends
