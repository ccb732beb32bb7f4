-- ===== src/Events/Examples.antt =====
-- Ingestion at a page of two events of which one repeats.
use unifi_mcp.Base.{
  ℕ, zero, suc, ◌+◌, String, ◌≡◌, refl, ap, true, none, List, [], ◌∷◌, arith, Result, ok, err,
  length,
}
use unifi_mcp.Base.Table.{select_where, count_where}
use unifi_mcp.Base.Json.{int, Fields, end, field}
use unifi_mcp.Events.{
  NormalizedEvent, Destination, Db, StoreError, info, IngestResult, insert_batch,
}
use unifi_mcp.Events.Ingest.{IsInjective}
use unifi_mcp.Events.Ingest.Repeat.{insert_batch-counts, insert_batch_twice}

-- Ids of growing length.
abbrev uuid : ℕ → String
uuid zero = "u"
uuid (suc n) = String.◌∷◌ "x" (uuid n)

size : String → ℕ
size String.[] = 0
size (String.◌∷◌ c s) = suc (size s)

size-uuid : (n : ℕ) → size (uuid n) ≡ n + 1
unfolding size
size-uuid zero = refl
size-uuid (suc n) = omega (arith, size-uuid n)

uuid-IsInjective : IsInjective uuid
uuid-IsInjective m n e = omega (arith, size-uuid m, size-uuid n, ap size e)

abbrev event : String → NormalizedEvent
event key = record {
  source = "network";
  source_key = key;
  device_name = "gw";
  site = "default";
  category = "network.alarm";
  severity = info;
  occurred_at = 5;
  observed_at = 6;
  summary = "summary";
  subject_type = none;
  subject_id = none;
  details = end;
}

abbrev hook : Destination
hook = record {
  id = "w1";
  name = "hook";
  url = "https://hooks.example/x";
  secret_env_name = none;
  categories = [];
  enabled = true;
  created_at = 0;
  updated_at = 0;
}

abbrev empty : Db
empty = record { events = []; destinations = hook ∷ []; deliveries = []; cursors = [] }

abbrev page : List NormalizedEvent
page = event "a" ∷ event "b" ∷ event "a" ∷ []

abbrev watermark : Fields
watermark = field "watermark_ms" (int 5) end

abbrev ingested : Result StoreError (Db × IngestResult)
ingested = insert_batch uuid 7 page "network" "gw" "default" watermark empty

abbrev full : Db
full = elim ingested [ ok r ↦ r.0 | err e ↦ empty ]

abbrev counted : IngestResult
counted = elim ingested [ ok r ↦ r.1 | err e ↦ record { inserted = 0; duplicates = 0 } ]

insert_batch-counts_example :
    (length full.events ≡ length empty.events + counted.inserted)
    × (counted.inserted + counted.duplicates ≡ length page)
    × (full.destinations ≡ empty.destinations)
unfolding insert_batch select_where count_where
insert_batch-counts_example =
    insert_batch-counts uuid 7 page "network" "gw" "default" watermark empty full counted refl

insert_batch_twice_example :
    (db'' : Db) × (insert_batch uuid 8 page "network" "gw" "default" end full
      ≡ ok (db'', record { inserted = 0; duplicates = length page }))
    × (db''.events ≡ full.events)
    × (db''.deliveries ≡ full.deliveries)
unfolding insert_batch select_where count_where
insert_batch_twice_example =
    insert_batch_twice uuid uuid 7 8 page "network" "gw" "default" watermark end empty full counted
      uuid-IsInjective (λ m le. refl) refl
