-- ===== src/Observations/Examples.antt =====
-- A trend of three minutes with samples in the first and the last.
use unifi_mcp.Base.{
  ℕ, ◌+◌, ◌*◌, ◌-◌, ◌/◌, ◌≤◌, ◌≡◌, refl, none, some, List, [], ◌∷◌, ok, err, length, All,
}
use unifi_mcp.Base.Table.{select_where, count_where, order_by}
use unifi_mcp.Base.Json.{Json, int, end, field, get_field}
use unifi_mcp.Observations.{Row, Query, TrendBucket, width, selected, query_trend}
use unifi_mcp.Observations.Ranges.{observed}
use unifi_mcp.Observations.Buckets.{Tiles, Marked, Counts, total, query_trend-Tiles}

abbrev row : ℕ → ℕ → Row
row at value = record {
  id = "o";
  observation = record {
    source = "network";
    controller = "gw";
    site = "default";
    kind = "traffic";
    status = "ok";
    observed_at = at;
    metrics = field "rx_bytes" (int value) end;
  };
  created_at = at;
}

abbrev table : List Row
table = row 130000000 5 ∷ row 1 7 ∷ row 2 9 ∷ []

abbrev query : Query
query = record {
  kind = "traffic";
  metric = "rx_bytes";
  start = 0;
  end_ = 200000000;
  bucket_seconds = 60;
  source = none;
  controller = none;
  site = some "default";
}

abbrev first : List Json → Json
first [] = int 0
first (v ∷ vs) = v

abbrev trend : List TrendBucket
unfolding query_trend
trend = elim (query_trend first query table) [ ok bs ↦ bs | err e ↦ [] ]

counts : total trend ≡ 3
unfolding query_trend select_where order_by get_field
counts = refl

query_trend-Tiles_example :
    (1 ≤ length trend)
    × (length trend ≤ 1000)
    × (length trend ≡ (query.end_ - query.start) / width query)
    × Tiles (width query) query.start trend
    × All Marked trend
    × All (Counts query (selected query table)) trend
    × (total trend
        ≡ count_where
            (observed query query.start (query.start + length trend * width query))
            (selected query table))
unfolding query_trend
query_trend-Tiles_example = query_trend-Tiles first query table trend refl
