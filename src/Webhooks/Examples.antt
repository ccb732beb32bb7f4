-- ===== src/Webhooks/Examples.antt =====
-- The webhook deliveries at a store of one destination, one event and one delivery.
use unifi_mcp.Base.{
  ◌+◌, ◌*◌, ◌≤◌, min, max, String, ◌≡◌, refl, ◌≢◌, true, false, none, some, [], ◌∷◌, arith, str_eq,
  ok, All, elem,
}
use unifi_mcp.Base.Table.{count_where, find_where}
use unifi_mcp.Base.Json.{end}
use unifi_mcp.Events.{Db, Destination, Delivery, pending, retry, StoredEvent, info, http}
use unifi_mcp.Webhooks.{secret_for}
use unifi_mcp.Webhooks.Claim.{DueRow, claim_due, due_rows, ids}
use unifi_mcp.Webhooks.Claim.Exclusion.{claim_due_disjoint}
use unifi_mcp.Webhooks.Deliver.{
  second, Outcome, recorded, Service, DeliveryResult, result_failed, deliver, deliver_due,
}
use unifi_mcp.Webhooks.Deliver.Lifecycle.{Rested, deliver-Rested}
use unifi_mcp.Webhooks.Deliver.Round.{Round, deliver_due-Round}

abbrev hook : Destination
hook = record {
  id = "w1";
  name = "hook";
  url = "https://hooks.example/x";
  secret_env_name = none;
  categories = [];
  enabled = true;
  created_at = 0;
  updated_at = 0;
}

abbrev alarm : StoredEvent
alarm = record {
  id = "e1";
  event = record {
    source = "network";
    source_key = "a";
    device_name = "gw";
    site = "default";
    category = "network.alarm";
    severity = info;
    occurred_at = 5;
    observed_at = 6;
    summary = "summary";
    subject_type = none;
    subject_id = none;
    details = end;
  };
  created_at = 0;
}

abbrev waiting : Delivery
waiting = record {
  id = "d1";
  event_id = "e1";
  destination_id = "w1";
  status = pending;
  attempt_count = 0;
  next_attempt_at = 3;
  http_status = none;
  error_code = none;
  created_at = 0;
  updated_at = 0;
}

abbrev store : Db
store = record {
  events = alarm ∷ [];
  destinations = hook ∷ [];
  deliveries = waiting ∷ [];
  cursors = [];
}

abbrev due : DueRow
due = record { delivery = waiting; destination = hook; event = alarm }

-- A service whose POSTs are answered by 503.
abbrev busy : Service
busy = record { max_attempts = 3; secret_lookup = λ n. none; post = λ row s. ok 503 }

claim_due_disjoint_example :
    All
      (λ r. elem r.delivery.id (ids (claim_due 300 7 10 store).1) ≡ false)
      (claim_due 300 100 10 (claim_due 300 7 10 store).0).1
claim_due_disjoint_example = claim_due_disjoint 300 7 10 store 100 10 (omega arith)

abbrev again : Outcome
again = record {
  status = retry;
  attempts = 1;
  http_status = some 503;
  error_code = some (http 503);
}

abbrev after : Db × DeliveryResult
unfolding deliver secret_for
after = elim (deliver busy due 7 store) [
  | none ↦ (
    store,
    record { delivery_id = ""; status = result_failed; http_status = none; error_code = none },
  )
  | some r ↦ r
]

deliver-Rested_example :
    (o : Outcome) × (d : Delivery) × (find_where (λ e. str_eq due.delivery.id e.id) store.deliveries
      ≡ some d)
    × (find_where (λ e. str_eq due.delivery.id e.id) (after.0).deliveries ≡ some (recorded 7 o d))
    × (o.attempts ≡ due.delivery.attempt_count + 1)
    × Rested busy.max_attempts o
    × (7 + second ≤ (recorded 7 o d).next_attempt_at)
    × ((recorded 7 o d).next_attempt_at ≤ 7 + 300 * second)
    × ((other : String)
        → other ≢ due.delivery.id
        → find_where (λ e. str_eq other e.id) (after.0).deliveries
          ≡ find_where (λ e. str_eq other e.id) store.deliveries)
unfolding deliver count_where secret_for
deliver-Rested_example = deliver-Rested busy due 7 store after.0 after.1 (omega arith) refl

deliver_due-Round_example :
    Round busy
      (due_rows 300 7 (max 1 (min 10 1000)) store)
      7
      (due_rows 300 7 (max 1 (min 10 1000)) store)
      (deliver_due busy 300 7 10 store)
deliver_due-Round_example = deliver_due-Round busy 300 7 10 store
