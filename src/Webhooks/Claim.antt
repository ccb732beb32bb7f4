-- ===== src/Webhooks/Claim.antt =====
-- runtime/webhooks.py: `WebhookService._claim_due`.
pub mod Exclusion
use unifi_mcp.Base.{
  ℕ, ◌+◌, ◌-◌, String, Bool, true, false, ◌&&◌, ◌||◌, Option, none, some, List, [], ◌∷◌, ltb, leb,
  ◌==◌, str_eq, str_leb, if◌then◌else◌, take,
}
use unifi_mcp.Base.Table.{update_where, find_where, order_by, update_each}
use unifi_mcp.Events.{
  Db, Destination, Delivery, DeliveryStatus, pending, retry, delivering, delivered, failed,
  dead_letter, ErrorCode, StoredEvent, NormalizedEvent,
}

is_delivering : DeliveryStatus → Bool
is_delivering delivering = true
is_delivering _ = false

-- status IN ('pending', 'retry')
abbrev pub is_waiting : DeliveryStatus → Bool
is_waiting pending = true
is_waiting retry = true
is_waiting delivering = false
is_waiting delivered = false
is_waiting failed = false
is_waiting dead_letter = false

-- status = 'delivering' AND updated_at <= now - stale_claim_seconds
stale_claim : ℕ → ℕ → Delivery → Bool
stale_claim stale now d = is_delivering d.status && leb (d.updated_at + stale) now

abbrev pub released : ℕ → Delivery → Delivery
released now d = record d {
  status = retry;
  next_attempt_at = now;
  error_code = some (ErrorCode.code "stale_claim");
  updated_at = now;
}

unfoldable pub release_stale : (stale now : ℕ) → List Delivery → List Delivery
unfolding stale_claim is_delivering
release_stale stale now = update_where (stale_claim stale now) (released now)

-- One row of the join: the delivery, its destination and its event.
pub record DueRow : Type 0 where
  pub delivery : Delivery
  pub destination : Destination
  pub event : StoredEvent

-- JOIN … ON … WHERE w.enabled = 1; the ids of both tables are primary keys.
unfoldable pub join : Db → Delivery → Option DueRow
join db d = elim (find_where (λ w. str_eq d.destination_id w.id) db.destinations) [
  | none ↦ none
  | some w ↦ elim (find_where (λ e. str_eq d.event_id e.id) db.events) [
    | none ↦ none
    | some e ↦
        if w.enabled then some (record { delivery = d; destination = w; event = e }) else none
  ]
]

unfoldable pub is_due : (now : ℕ) → Delivery → Bool
is_due now d = is_waiting d.status && leb d.next_attempt_at now

unfoldable pub join_all : Db → (now : ℕ) → List Delivery → List DueRow
unfolding join is_due
join_all db now [] = []
join_all db now (d ∷ ds) =
    let rest = join_all db now ds in
    elim (join db d) [ none ↦ rest | some row ↦ if is_due now d then row ∷ rest else rest ]

-- ORDER BY d.next_attempt_at, d.id
unfoldable pub sooner : DueRow → DueRow → Bool
sooner a b =
    ltb a.delivery.next_attempt_at b.delivery.next_attempt_at
    || (a.delivery.next_attempt_at == b.delivery.next_attempt_at
        && str_leb a.delivery.id b.delivery.id)

abbrev pub as_delivering : ℕ → Delivery → Delivery
as_delivering now d = record d { status = delivering; updated_at = now }

abbrev pub ids : List DueRow → List String
ids [] = []
ids (r ∷ rs) = r.delivery.id ∷ ids rs

unfoldable pub due_rows : (stale now limit : ℕ) → Db → List DueRow
unfolding release_stale join_all sooner
due_rows stale now limit db =
    take limit (order_by sooner (join_all db now (release_stale stale now db.deliveries)))

unfoldable pub claim_due : (stale now limit : ℕ) → Db → Db × List DueRow
unfolding due_rows
claim_due stale now limit db =
    let rows = due_rows stale now limit db in
    (
      record db {
        deliveries =
            update_each (λ d. d.id) (as_delivering now) (ids rows)
              (release_stale stale now db.deliveries);
      },
      rows,
    )
