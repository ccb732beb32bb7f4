-- ===== src/Webhooks/Deliver/Lifecycle.antt =====
-- How a delivery moves: one attempt, its retries, and its end.
use unifi_mcp.Base.{
  ℕ, ◌+◌, ◌-◌, ◌*◌, ◌≤◌, ◌<◌, String, ◌≡◌, refl, ◌≢◌, ◌⊎◌, inl, inr, none, some, arith, eq_iff, leb,
  str_eq, Bool-cases, Option-cases, Result, ok, err,
}
use unifi_mcp.Base.Table.{count_where, find_where, find_where-update_miss, find_where-update_hit}
use native.Mathlib.Nat.{one-le-pow}
use unifi_mcp.Destinations.{
  DestinationError, PostError, rejected, transport_error, assertion_error, unexpected,
}
use unifi_mcp.Events.{Db, Delivery, retry, delivered, failed, dead_letter, code, http}
use unifi_mcp.Webhooks.{Secret, unsigned, unavailable, signed_with, secret_for, is_success}
use unifi_mcp.Webhooks.Claim.{DueRow}
use unifi_mcp.Webhooks.Deliver.{
  second, backoff, Outcome, recorded, record_result, is_transient, posted, is_retry, give_up,
  give_up_after, answered, DeliveryResult, Service, attempt, deliver,
}

-- The next attempt of a delivery is due between one second and five minutes after the last one.
pub backoff_bounds : (attempts : ℕ) → (1 ≤ backoff attempts) × (backoff attempts ≤ 300)
unfolding backoff
backoff_bounds attempts =
    let power = one-le-pow (attempts - 1) 2 (omega arith) in (omega (arith, power), omega arith)

-- How an attempt ends, by the outcome of its POST.
pub data Concluded (max_attempts : ℕ) (o : Outcome) : Result PostError ℕ → Type 0 where
  refused :
      (e : DestinationError)
      → o.status ≡ failed
      → o.error_code ≡ some (code "destination_rejected")
      → Concluded max_attempts o (err (rejected e))
  success :
      (status : ℕ)
      → 200 ≤ status
      → status < 300
      → o.status ≡ delivered
      → o.http_status ≡ some status
      → o.error_code ≡ none
      → Concluded max_attempts o (ok status)
  permanent :
      (status : ℕ)
      → (status < 200) ⊎ (300 ≤ status)
      → status < 500
      → status ≢ 408
      → status ≢ 429
      → o.status ≡ failed
      → o.error_code ≡ some (http status)
      → Concluded max_attempts o (ok status)
  transient :
      (status : ℕ)
      → (status ≡ 408) ⊎ ((status ≡ 429) ⊎ (500 ≤ status))
      → o.attempts < max_attempts
      → o.status ≡ retry
      → o.error_code ≡ some (http status)
      → Concluded max_attempts o (ok status)
  unsent :
      o.attempts < max_attempts
      → o.status ≡ retry
      → o.error_code ≡ some (code "transport_error")
      → Concluded max_attempts o (err transport_error)
  exhausted :
      (p : Result PostError ℕ)
      → max_attempts ≤ o.attempts
      → o.status ≡ dead_letter
      → o.error_code ≡ some (code "attempts_exhausted")
      → Concluded max_attempts o p

conclude :
    (max_attempts attempts : ℕ) (p : Result PostError ℕ) (o : Outcome)
    → give_up_after max_attempts (posted p attempts) ≡ some o
    → (o.attempts ≡ attempts) × Concluded max_attempts o p
unfolding give_up_after posted give_up is_retry
conclude max_attempts attempts (err (rejected e)) o h =
    (ground (arith, h), refused e (ground (arith, h)) (ground (arith, h)))
conclude max_attempts attempts (err assertion_error) o h = cc
conclude max_attempts attempts (err unexpected) o h = cc
conclude max_attempts attempts (err transport_error) o h =
    elim (Bool-cases (leb max_attempts attempts)) [
      | inl enough ↦ (
        ground (arith, h),
        exhausted _ (ground (arith, h)) (ground (arith, h)) (ground (arith, h)),
      )
      | inr more ↦
          (ground (arith, h), unsent (ground (arith, h)) (ground (arith, h)) (ground (arith, h)))
    ]
conclude max_attempts attempts (ok status) o h = elim (Bool-cases (is_success status)) [
  | inl good ↦ (
    ground (arith, h),
    success status (ground (arith, good)) (ground (arith, good)) (ground (arith, h, good))
        (ground (arith, h, good)) (ground (arith, h, good)),
  )
  | inr bad ↦ elim (Bool-cases (is_transient status)) [
    | inr lasting ↦ (
      ground (arith, h),
      permanent status (ground (arith, bad)) (ground (arith, lasting)) (ground (arith, lasting))
          (ground (arith, lasting)) (ground (arith, h, bad, lasting))
          (ground (arith, h, bad, lasting)),
    )
    | inl again ↦ elim (Bool-cases (leb max_attempts attempts)) [
      | inl enough ↦ (
        ground (arith, h),
        exhausted _ (ground (arith, h, enough)) (ground (arith, h, bad, again, enough))
            (ground (arith, h, bad, again, enough)),
      )
      | inr more ↦ (
        ground (arith, h),
        transient status (ground (arith, again)) (ground (arith, h, more))
            (ground (arith, h, bad, again, more)) (ground (arith, h, bad, again, more)),
      )
    ]
  ]
]

abbrev pub wanted : Service → DueRow → Secret
wanted service row = secret_for service.secret_lookup row.destination.secret_env_name

-- One attempt counts one more. If the secret of the destination is missing, it fails and nothing is
-- sent. Otherwise a POST with the secret decides: a 2xx answer delivers it; 408, 429, 5xx and a
-- transport error have it retried while fewer than `max_attempts` attempts were made, after which it
-- is a dead letter; a rejected destination and every other answer fail it.
pub attempt-Concluded :
    (service : Service) (row : DueRow) (o : Outcome)
    → attempt service row ≡ some o
    → (o.attempts ≡ row.delivery.attempt_count + 1)
      × (((wanted service row ≡ unavailable)
            × (o.status ≡ failed)
            × (o.error_code ≡ some (code "secret_unavailable")))
          ⊎ ((wanted service row ≢ unavailable)
              × Concluded service.max_attempts o (service.post row (wanted service row))))
unfolding attempt answered
attempt-Concluded service row o h = by_secret (wanted service row) refl
  where
    Goal : Secret → Type 0
    Goal s =
        (o.attempts ≡ row.delivery.attempt_count + 1)
        × (((s ≡ unavailable)
              × (o.status ≡ failed)
              × (o.error_code ≡ some (code "secret_unavailable")))
            ⊎ ((s ≢ unavailable) × Concluded service.max_attempts o (service.post row s)))

    sent : (s : Secret) → s ≢ unavailable → answered service row s ≡ some o → Goal s
    sent s present answer =
        let (counted, concluded) =
          conclude service.max_attempts (row.delivery.attempt_count + 1) (service.post row s) o
            answer in
        (counted, inr (present, concluded))

    by_secret : (s : Secret) → wanted service row ≡ s → Goal s
    by_secret unavailable e =
        let missing = rw (e, attempt) at h in
        (ground (arith, missing), inl (refl, ground (arith, missing), ground (arith, missing)))
    by_secret unsigned e = sent unsigned (λ q. cc) (rw (e, attempt) at h)
    by_secret (signed_with key) e = sent (signed_with key) (λ q. cc) (rw (e, attempt) at h)

-- Where a delivery can be after an attempt.
abbrev pub Rested : ℕ → Outcome → Type 0
Rested max_attempts o =
    ((o.status ≡ delivered) ⊎ ((o.status ≡ failed) ⊎ (o.status ≡ dead_letter)))
    ⊎ ((o.status ≡ retry) × (o.attempts < max_attempts))

Concluded-Rested :
    (max_attempts : ℕ) (o : Outcome) (p : Result PostError ℕ)
    → Concluded max_attempts o p
    → Rested max_attempts o
Concluded-Rested max_attempts o _ (refused e is_failed c) = inl (inr (inl is_failed))
Concluded-Rested max_attempts o _ (success status a b is_delivered h c) = inl (inl is_delivered)
Concluded-Rested max_attempts o _ (permanent status a b c d is_failed e) = inl (inr (inl is_failed))
Concluded-Rested max_attempts o _ (transient status a more is_retry e) = inr (is_retry, more)
Concluded-Rested max_attempts o _ (unsent more is_retry e) = inr (is_retry, more)
Concluded-Rested max_attempts o p (exhausted _ enough is_dead e) = inl (inr (inr is_dead))

pub attempt-Rested :
    (service : Service) (row : DueRow) (o : Outcome)
    → attempt service row ≡ some o
    → Rested service.max_attempts o
attempt-Rested service row o h = rested (attempt-Concluded service row o h).1
  where
    rested :
        ((wanted service row ≡ unavailable)
            × (o.status ≡ failed)
            × (o.error_code ≡ some (code "secret_unavailable")))
          ⊎ ((wanted service row ≢ unavailable)
              × Concluded service.max_attempts o (service.post row (wanted service row)))
        → Rested service.max_attempts o
    rested (inl (missing, is_failed, c)) = inl (inr (inl is_failed))
    rested (inr (present, concluded)) = Concluded-Rested service.max_attempts o _ concluded

-- After the delivery of a row of the table, that row has one more attempt; it is delivered, failed
-- or a dead letter, or it waits for a retry with fewer than `max_attempts` attempts made; its next
-- attempt is between one and 300 seconds away; and no other row of the table has changed.
pub deliver-Rested :
    (service : Service) (row : DueRow) (now : ℕ) (db db' : Db) (result : DeliveryResult)
    → 0 < count_where (λ d. str_eq row.delivery.id d.id) db.deliveries
    → deliver service row now db ≡ some (db', result)
    → (o : Outcome) × (d : Delivery) × (find_where (λ e. str_eq row.delivery.id e.id) db.deliveries
        ≡ some d)
      × (find_where (λ e. str_eq row.delivery.id e.id) db'.deliveries ≡ some (recorded now o d))
      × (o.attempts ≡ row.delivery.attempt_count + 1)
      × Rested service.max_attempts o
      × (now + second ≤ (recorded now o d).next_attempt_at)
      × ((recorded now o d).next_attempt_at ≤ now + 300 * second)
      × ((other : String)
          → other ≢ row.delivery.id
          → find_where (λ e. str_eq other e.id) db'.deliveries
            ≡ find_where (λ e. str_eq other e.id) db.deliveries)
unfolding deliver record_result
deliver-Rested service row now db db' result present h = elim (Option-cases (attempt service row)) [
  | inl fails ↦ cc (rw (fails, deliver) at h)
  | inr (o, attempted) ↦
      let is_db : record_result row.delivery.id now o db ≡ db' =
        cc (rw (attempted, deliver) at h) in
      let (counted, _) = attempt-Concluded service row o attempted in
      let (d, found, updated) =
        find_where-update_hit (λ e. str_eq row.delivery.id e.id) (recorded now o) (λ e. refl)
          db.deliveries present in
      let (low, high) = backoff_bounds o.attempts in
      rw (← is_db) (
        o,
        d,
        found,
        updated,
        counted,
        attempt-Rested service row o attempted,
        omega (arith, low),
        omega (arith, high),
        λ other apart.
            find_where-update_miss (λ e. str_eq row.delivery.id e.id) (λ e. str_eq other e.id)
              (recorded now o) (λ e. refl)
              (λ e hit. ground (arith, apart, hit, eq_iff other e.id, eq_iff row.delivery.id e.id))
              db.deliveries,
      )
]
