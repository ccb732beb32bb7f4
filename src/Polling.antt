-- ===== src/Polling.antt =====
-- events/sources.py: the pages that a source polls and the cursor after one; events/poller.py: the
-- poll of one source. The normalization of a raw event is an argument.
pub mod Windows
pub mod Isolation
mod Examples
use unifi_mcp.Base.{
  ℕ, ◌+◌, ◌-◌, ◌/◌, ◌%◌, max, String, Bool, Option, none, some, List, [], ◌∷◌, ltb, leb, ◌==◌,
  if◌then◌else◌, Result, ok, err, ◌>>=◌, ◌>>◌, length,
}
use unifi_mcp.Base.Json.{
  Json, null, bool, int, neg, float, text, arr, obj, Fields, end, field, get_field,
}
use unifi_mcp.Events.{
  NormalizedEvent, Db, IngestResult, StoreError, integrity_error, insert_batch, get_cursor,
}

-- One complete page from a source.
pub record PollBatch : Type 0 where
  pub events : List NormalizedEvent
  pub cursor : Fields

-- round(t / 1000): a half goes to the even neighbour.
abbrev is_even : ℕ → Bool
is_even n = n % 2 == 0

unfoldable pub to_ms : ℕ → ℕ
to_ms t =
    if ltb (t % 1000) 500
    then t / 1000
    else if ltb 500 (t % 1000)
    then t / 1000 + 1
    else if is_even (t / 1000)
    then t / 1000
    else t / 1000 + 1

unfoldable pub max_ms : NormalizedEvent → List NormalizedEvent → ℕ
unfolding to_ms
max_ms e [] = to_ms e.occurred_at
max_ms e (x ∷ xs) = max (to_ms e.occurred_at) (max_ms x xs)

-- dict(previous or {})
abbrev pub or_empty : Option Fields → Fields
or_empty none = end
or_empty (some previous) = previous

unfoldable pub cursor_for : List NormalizedEvent → Option Fields → Fields
unfolding max_ms
cursor_for [] previous = or_empty previous
cursor_for (e ∷ es) previous = field "watermark_ms" (int (max_ms e es)) end

-- What the controller answers to a query for events: raw ones, an exception, or nothing in time.
pub data Answer : Type 0 where
  page : List Fields → Answer
  raises : String → Answer
  no_answer : Answer

pub data Polled : Type 0 where
  batch : PollBatch → Polled
  failed : String → Polled
  timed_out : Polled

unfoldable pub normalize_all :
    (normalize : Fields → Result String NormalizedEvent)
    → List Fields
    → Result String (List NormalizedEvent)
normalize_all normalize [] = ok []
normalize_all normalize (raw ∷ more) = do
  e ← normalize raw
  es ← normalize_all normalize more
  ok (e ∷ es)

normalized : Option Fields → Result String (List NormalizedEvent) → Polled
unfolding cursor_for
normalized previous (ok es) = batch (record { events = es; cursor = cursor_for es previous })
normalized previous (err name) = failed name

-- The end of both `poll` methods: a full window is refused.
unfoldable pub from_answer :
    (limit : ℕ) → (Fields → Result String NormalizedEvent) → Option Fields → Answer → Polled
unfolding normalize_all normalized
from_answer limit normalize previous (raises name) = failed name
from_answer limit normalize previous no_answer = timed_out
from_answer limit normalize previous (page raws) =
    if leb limit (length raws)
    then failed "RuntimeError"
    else normalized previous (normalize_all normalize raws)

-- `NetworkEventSource.poll`; the answer is that of `get_events(3000, site)`.
unfoldable pub poll_network :
    (Fields → Result String NormalizedEvent) → Answer → Option Fields → Polled
unfolding from_answer
poll_network normalize answer cursor = from_answer 3000 normalize cursor answer

-- An integer: n, or -(n + 1).
pub data Whole : Type 0 where
  pos negsuc : ℕ → Whole

-- The query of a Protect source: from `base - back` to `end_`, at most 1000.
pub record Query : Type 0 where
  pub base : Whole
  pub back : ℕ
  pub end_ : ℕ

-- int(previous), or the exception; `int_text` is what `int` makes of a text or a float.
int_of : (Json → Result String Whole) → Json → Result String Whole
int_of int_text (int n) = ok (pos n)
int_of int_text (neg n) = ok (negsuc n)
int_of int_text (bool b) = ok (pos (if b then 1 else 0))
int_of int_text (text s) = int_text (text s)
int_of int_text (float b s) = int_text (float b s)
int_of int_text (arr items) = err "TypeError"
int_of int_text (obj fields) = err "TypeError"
int_of int_text null = err "TypeError"

unfoldable pub query_from :
    (Json → Result String Whole) → (overlap now : ℕ) → Option Json → Result String Query
unfolding int_of
query_from int_text overlap now none = ok (record { base = pos now; back = 86400000; end_ = now })
query_from int_text overlap now (some null) =
    ok (record { base = pos now; back = 86400000; end_ = now })
query_from int_text overlap now (some v) = elim (int_of int_text v) [
  | err name ↦ err name
  | ok n ↦ ok (record { base = n; back = overlap; end_ = now })
]

unfoldable pub protect_query :
    (Json → Result String Whole) → (overlap now : ℕ) → Option Fields → Result String Query
unfolding query_from
protect_query int_text overlap now cursor =
    query_from int_text overlap now (get_field "watermark_ms" (or_empty cursor))

-- `ProtectEventSource.poll`; `get_events` answers a query.
unfoldable pub poll_protect :
    (Json → Result String Whole)
    → (overlap now : ℕ) → (Fields → Result String NormalizedEvent)
    → (Query → Answer)
    → Option Fields
    → Polled
unfolding protect_query from_answer
poll_protect int_text overlap now normalize get_events cursor =
    elim (protect_query int_text overlap now cursor) [
      | err name ↦ failed name
      | ok q ↦ from_answer 1000 normalize cursor (get_events q)
    ]

pub data Status : Type 0 where
  status_ok status_error status_timeout : Status

-- `SourcePollOutcome`
pub record SourcePollOutcome : Type 0 where
  pub source : String
  pub device_name : String
  pub site : String
  pub status : Status
  pub inserted : ℕ
  pub duplicates : ℕ
  pub error_code : Option String

-- An `EventSource`.
pub record EventSource : Type 0 where
  pub source : String
  pub device_name : String
  pub site : String
  pub poll : Option Fields → Polled

abbrev pub ended : EventSource → Status → ℕ → ℕ → Option String → SourcePollOutcome
ended s status inserted duplicates code = record {
  source = s.source;
  device_name = s.device_name;
  site = s.site;
  status = status;
  inserted = inserted;
  duplicates = duplicates;
  error_code = code;
}

-- The transaction of `insert_batch`, on the tables at that time.
committed : EventSource → Db → Result StoreError (Db × IngestResult) → Db × SourcePollOutcome
committed s db (err e) = (db, ended s status_error 0 0 (some "IntegrityError"))
committed s db (ok (db', r)) = (db', ended s status_ok r.inserted r.duplicates none)

unfoldable pub settle_poll :
    (uuid : ℕ → String) (now : ℕ) → EventSource → Polled → Db → Db × SourcePollOutcome
unfolding committed
settle_poll uuid now s timed_out db = (db, ended s status_timeout 0 0 (some "TimeoutError"))
settle_poll uuid now s (failed name) db = (db, ended s status_error 0 0 (some name))
settle_poll uuid now s (batch b) db =
    committed s db (insert_batch uuid now b.events s.source s.device_name s.site b.cursor db)

-- `_poll_source`: it reads its cursor at one time and commits at another; the sources that are polled
-- at the same time commit in between.
unfoldable pub poll_source :
    (uuid : ℕ → String) (now : ℕ) → EventSource → (at_read at_commit : Db) → Db × SourcePollOutcome
unfolding settle_poll
poll_source uuid now s at_read at_commit =
    settle_poll uuid now s (s.poll (get_cursor s.source s.device_name s.site at_read)) at_commit

-- `PollSummary`
unfoldable pub total_inserted : List SourcePollOutcome → ℕ
total_inserted [] = 0
total_inserted (o ∷ os) = o.inserted + total_inserted os

unfoldable pub total_duplicates : List SourcePollOutcome → ℕ
total_duplicates [] = 0
total_duplicates (o ∷ os) = o.duplicates + total_duplicates os

abbrev is_failed : Status → ℕ
is_failed status_ok = 0
is_failed status_error = 1
is_failed status_timeout = 1

unfoldable pub failed_sources : List SourcePollOutcome → ℕ
failed_sources [] = 0
failed_sources (o ∷ os) = is_failed o.status + failed_sources os
