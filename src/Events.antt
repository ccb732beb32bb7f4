-- ===== src/Events.antt =====
-- runtime/events.py and events/models.py: normalized events, their source cursors, and the
-- deliveries that a new event queues. Times are microseconds.
pub mod Ingest
mod Examples
use unifi_mcp.Base.{
  ℕ, ◌+◌, ◌-◌, min, max, String, Bool, true, not, ◌&&◌, ◌||◌, Option, none, some, List, [], ◌∷◌,
  ◌++◌, ltb, ◌==◌, str_eq, str_leb, if◌then◌else◌, Result, ok, err, ◌>>=◌, ◌>>◌, length, take, elem,
}
use unifi_mcp.Base.Table.{select_where, update_where, count_where, find_where, order_by}
use unifi_mcp.Base.Json.{Fields}

pub data Severity : Type 0 where
  info warning error critical : Severity

pub record NormalizedEvent : Type 0 where
  pub source : String
  pub source_key : String
  pub device_name : String
  pub site : String
  pub category : String
  pub severity : Severity
  pub occurred_at : ℕ
  pub observed_at : ℕ
  pub summary : String
  pub subject_type : Option String
  pub subject_id : Option String
  pub details : Fields

-- A row of `events`.
pub record StoredEvent : Type 0 where
  pub id : String
  pub event : NormalizedEvent
  pub created_at : ℕ

-- A row of `webhook_destinations`.
pub record Destination : Type 0 where
  pub id : String
  pub name : String
  pub url : String
  pub secret_env_name : Option String
  pub categories : List String
  pub enabled : Bool
  pub created_at : ℕ
  pub updated_at : ℕ

pub data DeliveryStatus : Type 0 where
  pending delivering retry delivered failed dead_letter : DeliveryStatus

-- An error code: a fixed text, or `http_` and the status.
pub data ErrorCode : Type 0 where
  code : String → ErrorCode
  http : ℕ → ErrorCode

-- A row of `webhook_deliveries`.
pub record Delivery : Type 0 where
  pub id : String
  pub event_id : String
  pub destination_id : String
  pub status : DeliveryStatus
  pub attempt_count : ℕ
  pub next_attempt_at : ℕ
  pub http_status : Option ℕ
  pub error_code : Option ErrorCode
  pub created_at : ℕ
  pub updated_at : ℕ

-- A row of `event_cursors`.
pub record Cursor : Type 0 where
  pub source : String
  pub device_name : String
  pub site : String
  pub cursor : Fields
  pub updated_at : ℕ

pub record Db : Type 0 where
  pub events : List StoredEvent
  pub destinations : List Destination
  pub deliveries : List Delivery
  pub cursors : List Cursor

-- `sqlite3.IntegrityError`; the transaction is rolled back.
pub data StoreError : Type 0 where
  integrity_error : StoreError

-- UNIQUE (source, device_name, site, source_key)
abbrev pub same_identity : NormalizedEvent → StoredEvent → Bool
same_identity e r =
    str_eq e.source r.event.source
    && (str_eq e.device_name r.event.device_name
        && (str_eq e.site r.event.site && str_eq e.source_key r.event.source_key))

-- What `INSERT OR IGNORE` ignores: a clash of the id, or of the identity.
abbrev pub ignored : String → NormalizedEvent → StoredEvent → Bool
ignored id e r = str_eq id r.id || same_identity e r

-- The PRIMARY KEY and the UNIQUE constraint of `webhook_deliveries`.
abbrev pub delivery_clash : Delivery → Delivery → Bool
delivery_clash d r =
    str_eq d.id r.id || (str_eq d.event_id r.event_id && str_eq d.destination_id r.destination_id)

-- `not categories or event.category in categories`
unfoldable pub subscribes : Destination → NormalizedEvent → Bool
subscribes d e = elim d.categories [ [] ↦ true | c ∷ cs ↦ elem e.category (c ∷ cs) ]

abbrev pub new_delivery : (id event_id : String) (now : ℕ) → Destination → Delivery
new_delivery id event_id now d = record {
  id = id;
  event_id = event_id;
  destination_id = d.id;
  status = pending;
  attempt_count = 0;
  next_attempt_at = now;
  http_status = none;
  error_code = none;
  created_at = now;
  updated_at = now;
}

-- The inner loop, over the enabled destinations; `uuid n` is the n-th id that the call draws. The
-- result is the table with the number of ids drawn.
unfoldable pub queue_deliveries :
    (uuid : ℕ → String) (now : ℕ) (event_id : String)
    → NormalizedEvent
    → List Destination
    → (drawn : ℕ) → List Delivery
    → Result StoreError (List Delivery × ℕ)
unfolding subscribes
queue_deliveries uuid now event_id e [] drawn deliveries = ok (deliveries, drawn)
queue_deliveries uuid now event_id e (d ∷ ds) drawn deliveries =
    let row = new_delivery (uuid drawn) event_id now d in
    let skip = queue_deliveries uuid now event_id e ds drawn deliveries in
    let queue = queue_deliveries uuid now event_id e ds (drawn + 1) (deliveries ++ row ∷ []) in
    if not (subscribes d e)
    then skip
    else if ltb 0 (count_where (delivery_clash row) deliveries)
    then err integrity_error
    else queue

-- What the outer loop carries.
pub record Progress : Type 0 where
  pub events : List StoredEvent
  pub deliveries : List Delivery
  pub drawn : ℕ
  pub inserted : ℕ

unfoldable pub insert_event :
    (uuid : ℕ → String) (now : ℕ)
    → List Destination
    → NormalizedEvent
    → Progress
    → Result StoreError Progress
unfolding queue_deliveries
insert_event uuid now destinations e p =
    let id = uuid p.drawn in
    if ltb 0 (count_where (ignored id e) p.events)
    then ok (record p { drawn = p.drawn + 1 })
    else (do
      (deliveries, drawn) ← queue_deliveries uuid now id e destinations (p.drawn + 1) p.deliveries
      ok (record {
        events = p.events ++ record { id = id; event = e; created_at = now } ∷ [];
        deliveries = deliveries;
        drawn = drawn;
        inserted = p.inserted + 1;
      }))

unfoldable pub insert_events :
    (uuid : ℕ → String) (now : ℕ)
    → List Destination
    → List NormalizedEvent
    → Progress
    → Result StoreError Progress
unfolding insert_event
insert_events uuid now destinations [] p = ok p
insert_events uuid now destinations (e ∷ es) p = do
  p' ← insert_event uuid now destinations e p
  insert_events uuid now destinations es p'

abbrev pub of_source : (source device_name site : String) → Cursor → Bool
of_source source device_name site c =
    str_eq source c.source && (str_eq device_name c.device_name && str_eq site c.site)

-- INSERT … ON CONFLICT (source, device_name, site) DO UPDATE
unfoldable pub upsert_cursor : Cursor → List Cursor → List Cursor
upsert_cursor c cursors =
    if ltb 0 (count_where (of_source c.source c.device_name c.site) cursors)
    then update_where (of_source c.source c.device_name c.site)
        (λ r. record r { cursor = c.cursor; updated_at = c.updated_at }) cursors
    else cursors ++ c ∷ []

pub record IngestResult : Type 0 where
  pub inserted : ℕ
  pub duplicates : ℕ

-- `EventRepository.insert_batch`, one transaction.
unfoldable pub insert_batch :
    (uuid : ℕ → String) (now : ℕ)
    → List NormalizedEvent
    → (source device_name site : String) → Fields
    → Db
    → Result StoreError (Db × IngestResult)
unfolding insert_events upsert_cursor
insert_batch uuid now events source device_name site cursor db = do
  p ←
      insert_events uuid now (select_where (λ d. d.enabled) db.destinations) events
        (record { events = db.events; deliveries = db.deliveries; drawn = 0; inserted = 0 })
  ok (
    record {
      events = p.events;
      destinations = db.destinations;
      deliveries = p.deliveries;
      cursors =
          upsert_cursor
            (record {
              source = source;
              device_name = device_name;
              site = site;
              cursor = cursor;
              updated_at = now;
            })
            db.cursors;
    },
    record { inserted = p.inserted; duplicates = length events - p.inserted },
  )

unfoldable pub get_cursor : (source device_name site : String) → Db → Option Fields
get_cursor source device_name site db =
    elim (find_where (of_source source device_name site) db.cursors) [
      | none ↦ none
      | some c ↦ some c.cursor
    ]

later_event : StoredEvent → StoredEvent → Bool
later_event a b =
    ltb b.event.occurred_at a.event.occurred_at
    || (a.event.occurred_at == b.event.occurred_at && str_leb b.id a.id)

-- ORDER BY occurred_at DESC, id DESC LIMIT ?
unfoldable pub list_events : (limit : ℕ) → Db → List StoredEvent
unfolding later_event
list_events limit db = take (max 1 (min limit 1000)) (order_by later_event db.events)
