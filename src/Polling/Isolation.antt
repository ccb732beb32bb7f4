-- ===== src/Polling/Isolation.antt =====
-- What the poll of one source does to the tables, and to the cursors of the others.
use unifi_mcp.Base.{ℕ, ◌+◌, String, ◌≡◌, ◌≢◌, ◌⊎◌, some, length}
use unifi_mcp.Events.{Db, get_cursor}
use unifi_mcp.Events.Ingest.Stored.{Stores}
use unifi_mcp.Polling.{PollBatch, Polled, batch, status_ok, SourcePollOutcome, EventSource}

-- How a poll ends: with nothing done, or with a page stored and its cursor set.
pub data Ended (now : ℕ) (s : EventSource) (p : Polled) (db : Db)
    : Db × SourcePollOutcome → Type 0 where
  kept :
      (o : SourcePollOutcome)
      → o.status ≢ status_ok
      → o.inserted ≡ 0
      → o.duplicates ≡ 0
      → Ended now s p db (db, o)
  stored :
      (b : PollBatch) (db' : Db) (o : SourcePollOutcome)
      → p ≡ batch b
      → o.status ≡ status_ok
      → o.inserted + o.duplicates ≡ length b.events
      → length db'.events ≡ length db.events + o.inserted
      → Stores now db.events b.events db'.events
      → get_cursor s.source s.device_name s.site db' ≡ some b.cursor
      → ((source device_name site : String)
          → (s.source ≢ source) ⊎ (s.device_name ≢ device_name) ⊎ (s.site ≢ site)
          → get_cursor source device_name site db' ≡ get_cursor source device_name site db)
      → Ended now s p db (db', o)
