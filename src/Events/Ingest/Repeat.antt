-- ===== src/Events/Ingest/Repeat.antt =====
-- Ingesting a page again, and the counts that ingestion reports.
use unifi_mcp.Base.{
  ℕ, suc, ◌+◌, ◌-◌, ◌≤◌, String, ◌≡◌, refl, ap, true, List, [], ◌∷◌, arith, ltb, ok, bind-ok,
  length, length-append, All,
}
use unifi_mcp.Base.Table.{select_where, count_where, count_where_mono}
use native.Mathlib.Nat.{sub-zero}
use unifi_mcp.Base.Json.{Fields}
use unifi_mcp.Events.{
  NormalizedEvent, Destination, Db, same_identity, ignored, Progress, insert_event, insert_events,
  upsert_cursor, IngestResult, insert_batch,
}
use unifi_mcp.Events.Ingest.{
  IsNew, IsInjective, Known, Round, skipped, added, insert_event-Round, insert_events-Known,
}

insert_event_repeated :
    (uuid : ℕ → String) (now : ℕ) (ds : List Destination) (e : NormalizedEvent) (p : Progress)
    → Known p.events e
    → insert_event uuid now ds e p ≡ ok (record p { drawn = p.drawn + 1 })
unfolding insert_event
insert_event_repeated uuid now ds e p known = rw (old, insert_event)
  where
    old : ltb 0 (count_where (ignored (uuid p.drawn) e) p.events) ≡ true
    old = ground (
      arith,
      count_where_mono (same_identity e) (ignored (uuid p.drawn) e) (λ r h. ground arith) p.events,
    )

-- A page whose events are all known changes nothing but the ids drawn.
insert_events_repeated :
    (uuid : ℕ → String) (now : ℕ) (ds : List Destination) (es : List NormalizedEvent) (p : Progress)
    → All (Known p.events) es
    → (n : ℕ) × (insert_events uuid now ds es p ≡ ok (record p { drawn = n }))
unfolding insert_events
insert_events_repeated uuid now ds [] p known = (p.drawn, refl)
insert_events_repeated uuid now ds (e ∷ es) p known =
    let (n, same) =
      insert_events_repeated uuid now ds es (record p { drawn = p.drawn + 1 }) known.1 in
    (n, rw (insert_event_repeated uuid now ds e p known.0) same)

-- The rows that a page adds are counted, and are at most its events.
insert_events-counts :
    (uuid : ℕ → String) (now : ℕ) (ds : List Destination) (es : List NormalizedEvent)
    (p p' : Progress)
    → insert_events uuid now ds es p ≡ ok p'
    → (p'.inserted + length p.events ≡ p.inserted + length p'.events)
      × (p.inserted ≤ p'.inserted)
      × (p'.inserted ≤ p.inserted + length es)
unfolding insert_events
insert_events-counts uuid now ds [] p p' h = ground arith
insert_events-counts uuid now ds (e ∷ es) p p' h =
    let (mid, first, rest) = bind-ok (insert_event uuid now ds e p) _ h in
    by_round mid (insert_event-Round uuid now ds e p mid first)
      (insert_events-counts uuid now ds es mid p' rest)
  where
    by_round :
        (mid : Progress)
        → Round uuid now e p mid
        → (p'.inserted + length mid.events ≡ mid.inserted + length p'.events)
          × (mid.inserted ≤ p'.inserted)
          × (p'.inserted ≤ mid.inserted + length es)
        → (p'.inserted + length p.events ≡ p.inserted + length p'.events)
          × (p.inserted ≤ p'.inserted)
          × (p'.inserted ≤ p.inserted + suc (length es))
    by_round mid (skipped old same) (a, b, c) = ground (arith, a, b, c)
    by_round mid (added clash more rows count) (a, b, c) =
        omega (arith, a, b, c, count, ap length rows, length-append {0} p.events)

pub insert_batch-ok :
    (uuid : ℕ → String) (now : ℕ) (es : List NormalizedEvent) (source device_name site : String)
    (cursor : Fields) (db db' : Db) (r : IngestResult)
    → insert_batch uuid now es source device_name site cursor db ≡ ok (db', r)
    → (p : Progress) × (insert_events uuid now
          (select_where (λ d. d.enabled) db.destinations)
          es
          (record { events = db.events; deliveries = db.deliveries; drawn = 0; inserted = 0 })
        ≡ ok p)
      × (db'.events ≡ p.events)
      × (db'.deliveries ≡ p.deliveries)
      × (db'.destinations ≡ db.destinations)
      × (r.inserted ≡ p.inserted)
      × (r.duplicates ≡ length es - p.inserted)
unfolding insert_batch
insert_batch-ok uuid now es source device_name site cursor db db' r h =
    let (p, done, rest) =
      bind-ok
        (insert_events uuid now (select_where (λ d. d.enabled) db.destinations) es
          (record { events = db.events; deliveries = db.deliveries; drawn = 0; inserted = 0 }))
        _ h in
    (p, done, ground arith, ground arith, ground arith, ground arith, ground arith)

-- A page that goes in is accounted for event by event: the rows added are `inserted`, the events
-- of the page are `inserted + duplicates`, and the destinations are untouched.
pub insert_batch-counts :
    (uuid : ℕ → String) (now : ℕ) (es : List NormalizedEvent) (source device_name site : String)
    (cursor : Fields) (db db' : Db) (r : IngestResult)
    → insert_batch uuid now es source device_name site cursor db ≡ ok (db', r)
    → (length db'.events ≡ length db.events + r.inserted)
      × (r.inserted + r.duplicates ≡ length es)
      × (db'.destinations ≡ db.destinations)
insert_batch-counts uuid now es source device_name site cursor db db' r h =
    let (p, done, events, deliveries, destinations, inserted, duplicates) =
      insert_batch-ok uuid now es source device_name site cursor db db' r h in
    let counts = insert_events-counts uuid now _ es _ p done in
    (
      omega (arith, counts, inserted, ap length events),
      omega (arith, counts, inserted, duplicates),
      destinations,
    )

-- The tables after a page that adds no row.
abbrev only_cursor : ℕ → (source device_name site : String) → Fields → Db → Db
only_cursor now source device_name site cursor db = record db {
  cursors =
      upsert_cursor
        (record {
          source = source;
          device_name = device_name;
          site = site;
          cursor = cursor;
          updated_at = now;
        })
        db.cursors;
}

insert_batch_repeated :
    (uuid : ℕ → String) (now : ℕ) (es : List NormalizedEvent) (source device_name site : String)
    (cursor : Fields) (db : Db)
    → All (Known db.events) es
    → insert_batch uuid now es source device_name site cursor db
      ≡ ok (
        only_cursor now source device_name site cursor db,
        record { inserted = 0; duplicates = length es },
      )
unfolding insert_batch
insert_batch_repeated uuid now es source device_name site cursor db known =
    let (n, same) =
      insert_events_repeated uuid now (select_where (λ d. d.enabled) db.destinations) es
        (record { events = db.events; deliveries = db.deliveries; drawn = 0; inserted = 0 })
        known in
    rw (same, insert_batch) (rw sub-zero refl)

-- With unique ids, repeating a page adds nothing: the second ingestion, at any time, with any ids
-- and any cursor, succeeds, inserts 0 and reports every event as a duplicate, and leaves the
-- events and the queued deliveries exactly as the first one did.
pub insert_batch_twice :
    (uuid uuid' : ℕ → String) (now now' : ℕ) (es : List NormalizedEvent)
    (source device_name site : String) (cursor cursor' : Fields) (db db' : Db) (r : IngestResult)
    → IsInjective uuid
    → IsNew uuid 0 db.events
    → insert_batch uuid now es source device_name site cursor db ≡ ok (db', r)
    → (db'' : Db) × (insert_batch uuid' now' es source device_name site cursor' db'
        ≡ ok (db'', record { inserted = 0; duplicates = length es }))
      × (db''.events ≡ db'.events)
      × (db''.deliveries ≡ db'.deliveries)
insert_batch_twice uuid uuid' now now' es source device_name site cursor cursor' db db' r inj new
      h =
    let (p, done, events, deliveries, destinations, inserted, duplicates) =
      insert_batch-ok uuid now es source device_name site cursor db db' r h in
    let (known, keeps) = insert_events-Known uuid now inj _ es _ p done new in
    (
      only_cursor now' source device_name site cursor' db',
      insert_batch_repeated uuid' now' es source device_name site cursor' db' (rw events known),
      refl,
      refl,
    )
