-- ===== src/Events/Ingest/Stored.antt =====
-- Which rows `insert_batch` adds to the table of events.
use unifi_mcp.Base.{
  ℕ, ◌<◌, String, ◌≡◌, sym, subst, ◌⊎◌, inl, inr, List, [], ◌∷◌, ◌++◌, arith, str_eq, Bool-cases,
  ltb, ltb→lt, ok, bind-ok,
}
use unifi_mcp.Base.Table.{count_where, count_where_mono}
use unifi_mcp.Base.Json.{Fields}
use unifi_mcp.Events.{
  NormalizedEvent, StoredEvent, Destination, Db, same_identity, ignored, Progress, insert_event,
  insert_events, IngestResult, insert_batch,
}
use unifi_mcp.Events.Ingest.{Known, Round, skipped, added, insert_event-Round, count_where-ignored}
use unifi_mcp.Events.Ingest.Repeat.{insert_batch-ok}

-- `Stores now rows page rows'`: the page goes into the table event by event; one whose identity, or
-- whose drawn id, is in the table already is left out, and any other is appended as it is.
pub data Stores (now : ℕ)
    : List StoredEvent → List NormalizedEvent → List StoredEvent → Type 0 where
  stored_all : (rows : List StoredEvent) → Stores now rows [] rows
  leaves_out :
      (id : String) (e : NormalizedEvent) (es : List NormalizedEvent)
      (rows rows' : List StoredEvent)
      → (0 < count_where (λ r. str_eq id r.id) rows) ⊎ Known rows e
      → Stores now rows es rows'
      → Stores now rows (e ∷ es) rows'
  appends :
      (id : String) (e : NormalizedEvent) (es : List NormalizedEvent)
      (rows rows' : List StoredEvent)
      → count_where (same_identity e) rows ≡ 0
      → Stores now (rows ++ record { id = id; event = e; created_at = now } ∷ []) es rows'
      → Stores now rows (e ∷ es) rows'

taken :
    (id : String) (e : NormalizedEvent) (rows : List StoredEvent)
    → 0 < count_where (ignored id e) rows
    → (0 < count_where (λ r. str_eq id r.id) rows) ⊎ Known rows e
taken id e rows h = elim (Bool-cases (ltb 0 (count_where (λ r. str_eq id r.id) rows))) [
  | inl clash ↦ inl (ltb→lt _ _ clash)
  | inr free ↦ inr (ground (arith, free, h, count_where-ignored id e rows))
]

insert_events-Stores :
    (uuid : ℕ → String) (now : ℕ) (ds : List Destination) (es : List NormalizedEvent)
    (p p' : Progress)
    → insert_events uuid now ds es p ≡ ok p'
    → Stores now p.events es p'.events
unfolding insert_events
insert_events-Stores uuid now ds [] p p' h =
    let same : p ≡ p' = cc h in
    subst (λ x. Stores now p.events [] x.events) same (stored_all p.events)
insert_events-Stores uuid now ds (e ∷ es) p p' h =
    let (mid, first, rest) = bind-ok (insert_event uuid now ds e p) _ h in
    by_round mid (insert_event-Round uuid now ds e p mid first)
      (insert_events-Stores uuid now ds es mid p' rest)
  where
    by_round :
        (mid : Progress)
        → Round uuid now e p mid
        → Stores now mid.events es p'.events
        → Stores now p.events (e ∷ es) p'.events
    by_round mid (skipped old same) more =
        leaves_out (uuid p.drawn) e es p.events p'.events (taken (uuid p.drawn) e p.events old)
          (subst (λ x. Stores now x.events es p'.events) same more)
    by_round mid (added clash further rows count) more =
        appends (uuid p.drawn) e es p.events p'.events
          (omega (
            arith,
            clash,
            count_where_mono (same_identity e) (ignored (uuid p.drawn) e) (λ r h. ground arith)
                p.events,
          ))
          (subst (λ x. Stores now x es p'.events) rows more)

-- What a page that goes in leaves in the table of events.
pub insert_batch-Stores :
    (uuid : ℕ → String) (now : ℕ) (es : List NormalizedEvent) (source device_name site : String)
    (cursor : Fields) (db db' : Db) (r : IngestResult)
    → insert_batch uuid now es source device_name site cursor db ≡ ok (db', r)
    → Stores now db.events es db'.events
insert_batch-Stores uuid now es source device_name site cursor db db' r h =
    let (p, done, events, deliveries, destinations, inserted, duplicates) =
      insert_batch-ok uuid now es source device_name site cursor db db' r h in
    subst (λ rows. Stores now db.events es rows) (sym events)
      (insert_events-Stores uuid now _ es _ p done)
