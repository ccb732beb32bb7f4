-- ===== src/Observations.antt =====
-- runtime/observations.py: the storage of observations and the trend query. Times are microseconds;
-- the mean of a bucket's samples, which Python takes in floats, is an argument.
pub mod Ranges
pub mod Buckets
mod Examples
use unifi_mcp.Base.{
  ℕ, zero, suc, ◌+◌, ◌-◌, ◌*◌, ◌/◌, String, Bool, true, false, not, ◌&&◌, ◌||◌, Option, none, some,
  List, [], ◌∷◌, ◌++◌, ltb, leb, ◌==◌, str_eq, if◌then◌else◌, Result, ok, ◌>>=◌, ◌>>◌, raise_if,
  length, elem,
}
use unifi_mcp.Base.Table.{select_where, count_where, order_by}
use unifi_mcp.Base.Json.{Json, bool, int, neg, float, Fields, get_field}

-- `Observation`, and a row of the table.
pub record Observation : Type 0 where
  pub source : String
  pub controller : String
  pub site : String
  pub kind : String
  pub status : String
  pub observed_at : ℕ
  pub metrics : Fields

pub record Row : Type 0 where
  pub id : String
  pub observation : Observation
  pub created_at : ℕ

-- UNIQUE (source, controller, site, kind, observed_at)
same_scope : Observation → Row → Bool
same_scope o r =
    str_eq o.source r.observation.source
    && str_eq o.controller r.observation.controller
    && str_eq o.site r.observation.site
    && str_eq o.kind r.observation.kind
    && o.observed_at == r.observation.observed_at

-- INSERT OR IGNORE, for each observation; the ids are `uuid n` from `drawn` on.
unfoldable pub insert_batch :
    (uuid : ℕ → String) (now drawn : ℕ)
    → List Observation
    → List Row
    → (inserted : ℕ) → List Row × ℕ
unfolding same_scope
insert_batch uuid now drawn [] table inserted = (table, inserted)
insert_batch uuid now drawn (o ∷ os) table inserted =
    let row : Row = record { id = uuid drawn; observation = o; created_at = now } in
    let ignored = insert_batch uuid now (drawn + 1) os table inserted in
    let added = insert_batch uuid now (drawn + 1) os (table ++ row ∷ []) (inserted + 1) in
    if ltb 0 (count_where (λ r. str_eq (uuid drawn) r.id || same_scope o r) table)
    then ignored
    else added

-- _METRICS_BY_KIND[kind]; no metric for another kind
unfoldable pub metrics_of : String → List String
metrics_of kind =
    if str_eq kind "site_health"
    then "subsystem_total" ∷ "healthy" ∷ "issues" ∷ []
    else if str_eq kind "device_counts"
    then "total" ∷ "online" ∷ "offline" ∷ []
    else if str_eq kind "client_counts"
    then "total" ∷ "wired" ∷ "wireless" ∷ []
    else if str_eq kind "traffic"
    then "rx_bytes" ∷ "tx_bytes" ∷ []
    else if str_eq kind "protect_health"
    then "total" ∷ "online" ∷ "offline" ∷ []
    else []

pub data TrendError : Type 0 where
  bad_metric bad_times bad_bucket bad_count : TrendError

-- The arguments of `query_trend`, with the times in UTC.
pub record Query : Type 0 where
  pub kind : String
  pub metric : String
  pub start : ℕ
  pub end_ : ℕ
  pub bucket_seconds : ℕ
  pub source : Option String
  pub controller : Option String
  pub site : Option String

pub record TrendBucket : Type 0 where
  pub start : ℕ
  pub end_ : ℕ
  pub present : Bool
  pub value : Option Json
  pub sample_count : ℕ

abbrev admits : Option String → String → Bool
admits none s = true
admits (some wanted) s = str_eq wanted s

-- The WHERE clauses.
unfoldable pub selects : Query → Row → Bool
selects q r =
    str_eq q.kind r.observation.kind
    && leb q.start r.observation.observed_at
    && ltb r.observation.observed_at q.end_
    && admits q.source r.observation.source
    && admits q.controller r.observation.controller
    && admits q.site r.observation.site

abbrev pub width : Query → ℕ
width q = q.bucket_seconds * 1000000

-- The index of a row's bucket.
abbrev pub index_of : Query → Row → ℕ
index_of q r = (r.observation.observed_at - q.start) / width q

-- isinstance(value, (int, float)) and not isinstance(value, bool)
is_number : Option Json → Bool
is_number (some (int n)) = true
is_number (some (neg n)) = true
is_number (some (float b s)) = true
is_number _ = false

abbrev pub metric_of : Query → Row → Option Json
metric_of q r = get_field q.metric r.observation.metrics

-- The row has a sample for the trend.
unfoldable pub has_sample : Query → Row → Bool
unfolding is_number
has_sample q r = is_number (metric_of q r)

-- values.get(index, []), of the rows in their order
unfoldable pub samples : Query → (index : ℕ) → List Row → List Json
unfolding has_sample
samples q index [] = []
samples q index (r ∷ rs) =
    let rest = samples q index rs in
    elim (metric_of q r) [
      | none ↦ rest
      | some v ↦ if has_sample q r && index_of q r == index then v ∷ rest else rest
    ]

abbrev is_empty : List Json → Bool
is_empty [] = true
is_empty (v ∷ vs) = false

unfoldable pub bucket : (mean : List Json → Json) → Query → List Row → (index : ℕ) → TrendBucket
unfolding samples
bucket mean q rows index =
    let values = samples q index rows in
    record {
      start = q.start + index * width q;
      end_ = q.start + index * width q + width q;
      present = not (is_empty values);
      value = if is_empty values then none else some (mean values);
      sample_count = length values;
    }

-- for index in range(bucket_count), from one index on
unfoldable pub buckets :
    (mean : List Json → Json) → Query → List Row → (index count : ℕ) → List TrendBucket
unfolding bucket
buckets mean q rows index zero = []
buckets mean q rows index (suc count) =
    bucket mean q rows index ∷ buckets mean q rows (index + 1) count

abbrev pub bucket_count : Query → ℕ
bucket_count q = (q.end_ - q.start) / width q

unfoldable pub sooner : Row → Row → Bool
sooner a b = leb a.observation.observed_at b.observation.observed_at

-- ORDER BY observed_at
unfoldable pub selected : Query → List Row → List Row
unfolding selects sooner
selected q table = order_by sooner (select_where (selects q) table)

unfoldable pub query_trend :
    (mean : List Json → Json) → Query → List Row → Result TrendError (List TrendBucket)
unfolding metrics_of selected buckets
query_trend mean q table = do
  raise_if (not (elem q.metric (metrics_of q.kind))) bad_metric
  raise_if (leb q.end_ q.start) bad_times
  raise_if (not (leb 60 q.bucket_seconds && leb q.bucket_seconds 86400)) bad_bucket
  raise_if (ltb (bucket_count q) 1 || ltb 1000 (bucket_count q)) bad_count
  ok (buckets mean q (selected q table) 0 (bucket_count q))
