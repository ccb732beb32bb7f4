-- ===== src/Webhooks/Deliver.antt =====
-- runtime/webhooks.py: `_record_result`, `_deliver` and `deliver_due`.
pub mod Lifecycle
pub mod Round
use unifi_mcp.Base.{
  ℕ, ◌+◌, ◌-◌, ◌*◌, ◌^◌, min, max, String, Bool, true, false, ◌&&◌, ◌||◌, Option, none, some, List,
  [], ◌∷◌, leb, ◌==◌, str_eq, if◌then◌else◌, Result, ok, err,
}
use unifi_mcp.Base.Table.{update_where}
use unifi_mcp.Destinations.{PostError, rejected, transport_error, assertion_error, unexpected}
use unifi_mcp.Events.{
  Db, Destination, Delivery, DeliveryStatus, pending, retry, delivering, delivered, failed,
  dead_letter, ErrorCode, code, http,
}
use unifi_mcp.Webhooks.{Secret, unsigned, unavailable, signed_with, secret_for, is_success}
use unifi_mcp.Webhooks.Claim.{DueRow, claim_due}

abbrev pub second : ℕ
second = 1000000

-- min(300, 2 ** max(0, attempts - 1)), in seconds
unfoldable pub backoff : ℕ → ℕ
backoff attempts = min 300 (2 ^ (attempts - 1))

-- What `_record_result` writes.
pub record Outcome : Type 0 where
  pub status : DeliveryStatus
  pub attempts : ℕ
  pub http_status : Option ℕ
  pub error_code : Option ErrorCode

abbrev pub recorded : (now : ℕ) → Outcome → Delivery → Delivery
recorded now o d = record d {
  status = o.status;
  attempt_count = o.attempts;
  next_attempt_at = now + backoff o.attempts * second;
  http_status = o.http_status;
  error_code = o.error_code;
  updated_at = now;
}

unfoldable pub record_result : (delivery_id : String) (now : ℕ) → Outcome → Db → Db
record_result delivery_id now o db = record db {
  deliveries = update_where (λ d. str_eq delivery_id d.id) (recorded now o) db.deliveries;
}

-- http_status in {408, 429} or http_status >= 500
abbrev pub is_transient : ℕ → Bool
is_transient status = status == 408 || status == 429 || leb 500 status

abbrev outcome_of : DeliveryStatus → Option ℕ → Option ErrorCode → ℕ → Outcome
outcome_of status http_status error_code attempts = record {
  status = status;
  attempts = attempts;
  http_status = http_status;
  error_code = error_code;
}

-- The outcome of a POST; an AssertionError or another unexpected exception leaves the call:
-- `none`.
unfoldable pub posted : Result PostError ℕ → (attempts : ℕ) → Option Outcome
posted (ok status) attempts = some (
    if is_success status
    then outcome_of delivered (some status) none attempts
    else if is_transient status
    then outcome_of retry (some status) (some (http status)) attempts
    else outcome_of failed (some status) (some (http status)) attempts)
posted (err (rejected e)) attempts =
    some (outcome_of failed none (some (code "destination_rejected")) attempts)
posted (err transport_error) attempts =
    some (outcome_of retry none (some (code "transport_error")) attempts)
posted (err assertion_error) attempts = none
posted (err unexpected) attempts = none

is_retry : DeliveryStatus → Bool
is_retry retry = true
is_retry _ = false

-- status == "retry" and attempts >= self._max_attempts
unfoldable pub give_up : (max_attempts : ℕ) → Outcome → Outcome
unfolding is_retry
give_up max_attempts o =
    if is_retry o.status && leb max_attempts o.attempts
    then record o { status = dead_letter; error_code = some (code "attempts_exhausted") }
    else o

-- `DeliveryResult.status`, of which "dead_letter" is no value.
pub data ResultStatus : Type 0 where
  result_delivered result_retry result_failed : ResultStatus

unfoldable pub result_status : DeliveryStatus → ResultStatus
result_status delivered = result_delivered
result_status retry = result_retry
result_status _ = result_failed

pub record DeliveryResult : Type 0 where
  pub delivery_id : String
  pub status : ResultStatus
  pub http_status : Option ℕ
  pub error_code : Option ErrorCode

-- What the service is configured with, and what `_post_validated` does with the request for a row,
-- with the secret to sign it.
pub record Service : Type 0 where
  pub max_attempts : ℕ
  pub secret_lookup : String → Option String
  pub post : DueRow → Secret → Result PostError ℕ

give_up_after : (max_attempts : ℕ) → Option Outcome → Option Outcome
unfolding give_up
give_up_after max_attempts none = none
give_up_after max_attempts (some o) = some (give_up max_attempts o)

answered : Service → DueRow → Secret → Option Outcome
unfolding posted give_up_after
answered service row secret =
    give_up_after service.max_attempts
      (posted (service.post row secret) (row.delivery.attempt_count + 1))

-- The outcome of one attempt.
unfoldable pub attempt : Service → DueRow → Option Outcome
unfolding answered
attempt service row = elim (secret_for service.secret_lookup row.destination.secret_env_name) [
  | unavailable ↦
      some
        (outcome_of failed none (some (code "secret_unavailable")) (row.delivery.attempt_count + 1))
  | unsigned ↦ answered service row unsigned
  | signed_with s ↦ answered service row (signed_with s)
]

abbrev pub shown : String → Outcome → DeliveryResult
shown delivery_id o = record {
  delivery_id = delivery_id;
  status = result_status o.status;
  http_status = o.http_status;
  error_code = o.error_code;
}

-- `_deliver`: the tables and the result; `none` if an exception leaves it, with
-- nothing recorded.
unfoldable pub deliver : Service → DueRow → (now : ℕ) → Db → Option (Db × DeliveryResult)
unfolding attempt record_result
deliver service row now db = elim (attempt service row) [
  | none ↦ none
  | some o ↦ some (record_result row.delivery.id now o db, shown row.delivery.id o)
]

-- The deliveries one after another; an exception leaves the loop, and what was recorded stays.
unfoldable pub deliver_all :
    Service → List DueRow → (now : ℕ) → Db → Db × Option (List DeliveryResult)
unfolding deliver
deliver_all service [] now db = (db, some [])
deliver_all service (row ∷ rows) now db = elim (deliver service row now db) [
  | none ↦ (db, none)
  | some (db', result) ↦
      let (db'', others) = deliver_all service rows now db' in
      (db'', elim others [ none ↦ none | some results ↦ some (result ∷ results) ])
]

-- `deliver_due`, with the clock as an argument.
unfoldable pub deliver_due :
    Service → (stale now limit : ℕ) → Db → Db × Option (List DeliveryResult)
unfolding deliver_all
deliver_due service stale now limit db =
    let (db', rows) = claim_due stale now (max 1 (min limit 1000)) db in
    deliver_all service rows now db'
