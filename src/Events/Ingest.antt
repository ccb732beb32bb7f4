-- ===== src/Events/Ingest.antt =====
-- One page of events goes in once: what `insert_batch` adds, and that repeating it adds nothing.
pub mod Repeat
pub mod Stored
pub mod Cursors
use unifi_mcp.Base.{
  ℕ, ◌+◌, ◌≤◌, ◌<◌, String, ◌≡◌, inl, inr, Bool, true, false, List, [], ◌∷◌, ◌++◌, arith, eq_iff,
  eq_refl, ltb, str_eq, ltb→lt, Bool-cases, ok, ◌>>=◌, ◌>>◌, bind-ok, All,
}
use unifi_mcp.Base.Table.{count_where, count_where-append}
use unifi_mcp.Base.Json.{}
use unifi_mcp.Events.{
  NormalizedEvent, StoredEvent, Destination, Delivery, DeliveryStatus, pending, Db, StoreError,
  integrity_error, same_identity, ignored, subscribes, new_delivery, queue_deliveries, Progress,
  insert_event, insert_events, upsert_cursor, IngestResult, insert_batch, get_cursor, Cursor,
  of_source,
}

-- The ids that are still to be drawn are new to the table, and no two of them are the same.
abbrev pub IsNew : (ℕ → String) → ℕ → List StoredEvent → Type 0
IsNew uuid n events = (m : ℕ) → n ≤ m → count_where (λ r. str_eq (uuid m) r.id) events ≡ 0

abbrev pub IsInjective : (ℕ → String) → Type 0
IsInjective uuid = (m n : ℕ) → uuid m ≡ uuid n → m ≡ n

-- The identity of `e` is in the table.
abbrev pub Known : List StoredEvent → NormalizedEvent → Type 0
Known events e = 0 < count_where (same_identity e) events

queue_deliveries-drawn :
    (uuid : ℕ → String) (now : ℕ) (id : String) (e : NormalizedEvent) (ds : List Destination)
    (drawn : ℕ) (table table' : List Delivery) (drawn' : ℕ)
    → queue_deliveries uuid now id e ds drawn table ≡ ok (table', drawn')
    → drawn ≤ drawn'
unfolding queue_deliveries
queue_deliveries-drawn uuid now id e [] drawn table table' drawn' h = ground arith
queue_deliveries-drawn uuid now id e (d ∷ ds) drawn table table' drawn' h = ground (
  arith,
  queue_deliveries-drawn uuid now id e ds drawn table table' drawn',
  queue_deliveries-drawn uuid now id e ds (drawn + 1)
      (table ++ new_delivery (uuid drawn) id now d ∷ []) table' drawn',
)

-- The two ways of one round.
pub data Round (uuid : ℕ → String) (now : ℕ) (e : NormalizedEvent) (p p' : Progress) : Type 0 where
  skipped :
      0 < count_where (ignored (uuid p.drawn) e) p.events
      → p' ≡ record p { drawn = p.drawn + 1 }
      → Round uuid now e p p'
  added :
      count_where (ignored (uuid p.drawn) e) p.events ≡ 0
      → p.drawn + 1 ≤ p'.drawn
      → p'.events ≡ p.events ++ record { id = uuid p.drawn; event = e; created_at = now } ∷ []
      → p'.inserted ≡ p.inserted + 1
      → Round uuid now e p p'

pub insert_event-Round :
    (uuid : ℕ → String) (now : ℕ) (ds : List Destination) (e : NormalizedEvent) (p p' : Progress)
    → insert_event uuid now ds e p ≡ ok p'
    → Round uuid now e p p'
unfolding insert_event
insert_event-Round uuid now ds e p p' h =
    elim (Bool-cases (ltb 0 (count_where (ignored (uuid p.drawn) e) p.events))) [
      | inl old ↦ skipped (ltb→lt _ _ old) (cc (rw (old, insert_event) at h))
      | inr new ↦ fresh new (rw (new, insert_event) at h)
    ]
  where
    fresh :
        ltb 0 (count_where (ignored (uuid p.drawn) e) p.events) ≡ false
        → (queue_deliveries uuid now (uuid p.drawn) e ds (p.drawn + 1) p.deliveries >>= λ q.
            ok (record {
              events = p.events ++ record { id = uuid p.drawn; event = e; created_at = now } ∷ [];
              deliveries = q.0;
              drawn = q.1;
              inserted = p.inserted + 1;
            }))
          ≡ ok p'
        → Round uuid now e p p'
    fresh new k =
        let ((table, drawn), queued, done) =
          bind-ok (queue_deliveries uuid now (uuid p.drawn) e ds (p.drawn + 1) p.deliveries) _ k in
        added (ground arith)
          (ground (
            arith,
            queue_deliveries-drawn uuid now (uuid p.drawn) e ds (p.drawn + 1) p.deliveries table
                drawn queued,
          ))
          (ground arith) (ground arith)

same_identity_refl :
    (e : NormalizedEvent) (id : String) (now : ℕ)
    → same_identity e (record { id = id; event = e; created_at = now }) ≡ true
same_identity_refl e id now =
    simp (eq_refl e.source, eq_refl e.device_name, eq_refl e.site, eq_refl e.source_key)

-- Ids drawn later stay new.
IsNew-added :
    (uuid : ℕ → String) (e : NormalizedEvent) (now n n' : ℕ) (events : List StoredEvent)
    → IsInjective uuid
    → IsNew uuid n events
    → n + 1 ≤ n'
    → IsNew uuid n' (events ++ record { id = uuid n; event = e; created_at = now } ∷ [])
IsNew-added uuid e now n n' events injective new later m le =
    rw (count_where-append, new m (omega arith))
      (unfold count_where in ground (arith, eq_iff (uuid m) (uuid n), injective m n))

pub count_where-ignored :
    (id : String) (e : NormalizedEvent) (events : List StoredEvent)
    → count_where (ignored id e) events
      ≤ count_where (λ r. str_eq id r.id) events + count_where (same_identity e) events
unfolding count_where
count_where-ignored id e [] = omega arith
count_where-ignored id e (r ∷ rs) = grind (
  arith,
  count_where-ignored id e rs,
  Bool-cases (str_eq id r.id),
  Bool-cases (same_identity e r),
)

-- Rows are only added: what the table had of any kind, it keeps.
Round-keeps :
    {uuid : ℕ → String} {now : ℕ} {e : NormalizedEvent} {p p' : Progress} (q : StoredEvent → Bool)
    → Round uuid now e p p'
    → count_where q p.events ≤ count_where q p'.events
Round-keeps q (skipped old same) = rw same (omega arith)
Round-keeps {p} q (added new more rows count) =
    rw rows (omega (arith, count_where-append q p.events))

module _ (uuid : ℕ → String) (now : ℕ) (injective : IsInjective uuid) where
  Round-IsNew :
      {e : NormalizedEvent} {p p' : Progress}
      → Round uuid now e p p'
      → IsNew uuid p.drawn p.events
      → IsNew uuid p'.drawn p'.events
  Round-IsNew (skipped old same) new = rw same (λ m le. new m (omega arith))
  Round-IsNew {e} {p} {p'} (added clash more rows count) new =
      rw rows (IsNew-added uuid e now p.drawn p'.drawn p.events injective new more)

  -- After its round an event is known.
  Round-Known :
      {e : NormalizedEvent} {p p' : Progress}
      → Round uuid now e p p'
      → IsNew uuid p.drawn p.events
      → Known p'.events e
  Round-Known {e} {p} (skipped old same) new =
      rw same (
        omega
          (arith, old, new p.drawn (omega arith), count_where-ignored (uuid p.drawn) e p.events))
  Round-Known {e} {p} (added clash more rows count) new =
      rw (rows, count_where-append)
        (unfold count_where in rw (same_identity_refl e (uuid p.drawn) now) (omega arith))

  pub insert_events-Known :
      (ds : List Destination) (es : List NormalizedEvent) (p p' : Progress)
      → insert_events uuid now ds es p ≡ ok p'
      → IsNew uuid p.drawn p.events
      → All (Known p'.events) es
        × ((q : StoredEvent → Bool) → count_where q p.events ≤ count_where q p'.events)
  unfolding insert_events
  insert_events-Known ds [] p p' h new = (tt, λ q. ground arith)
  insert_events-Known ds (e ∷ es) p p' h new =
      let (mid, first, rest) = bind-ok (insert_event uuid now ds e p) _ h in
      let round = insert_event-Round uuid now ds e p mid first in
      let (known, keeps) = insert_events-Known ds es mid p' rest (Round-IsNew round new) in
      (
        (omega (arith, Round-Known round new, keeps (same_identity e)), known),
        λ q. omega (arith, Round-keeps q round, keeps q),
      )
