-- ===== src/Polling/Examples.antt =====
-- Sources at a controller that answers with two events, and then with none in time.
use unifi_mcp.Base.{ℕ, String, ◌≡◌, refl, ◌⊎◌, none, some, [], ◌∷◌, Result, ok, err}
use unifi_mcp.Base.Json.{Json, int, Fields, end, field, get_field}
use unifi_mcp.Events.{NormalizedEvent, info, Db}
use unifi_mcp.Polling.{
  PollBatch, to_ms, cursor_for, Answer, page, poll_network, Whole, pos, Query, protect_query,
  poll_protect, EventSource,
}
use unifi_mcp.Polling.Windows.{Complete, Latest, poll_protect-Complete}

abbrev event : ℕ → NormalizedEvent
event t = record {
  source = "network";
  source_key = "k";
  device_name = "gw";
  site = "default";
  category = "network.alarm";
  severity = info;
  occurred_at = t;
  observed_at = t;
  summary = "summary";
  subject_type = none;
  subject_id = none;
  details = end;
}

abbrev normalize : Fields → Result String NormalizedEvent
normalize raw = ok (event 5500)

abbrev two : Answer
two = page (end ∷ end ∷ [])

abbrev polled : PollBatch
polled = record { events = event 5500 ∷ event 5500 ∷ []; cursor = field "watermark_ms" (int 6) end }

abbrev no_text : Json → Result String Whole
no_text v = err "ValueError"

poll_protect-Complete_example :
    (q : Query) × (protect_query no_text 60000 100 none ≡ ok q)
    × Complete 1000 none two polled
    × ((polled.events ≡ [])
        ⊎ ((m : ℕ) × Latest m polled.events
            × ((later : ℕ)
                → protect_query no_text 60000 later (some polled.cursor)
                  ≡ ok (record { base = pos m; back = 60000; end_ = later }))))
unfolding poll_protect cursor_for to_ms get_field
poll_protect-Complete_example =
    poll_protect-Complete no_text 60000 100 normalize (λ q. two) none polled refl

abbrev tables : Db
tables = record { events = []; destinations = []; deliveries = []; cursors = [] }

abbrev network : EventSource
network = record {
  source = "network";
  device_name = "gw";
  site = "default";
  poll = poll_network normalize two;
}
