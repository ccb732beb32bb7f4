-- ===== src/Observations/Buckets.antt =====
-- What the buckets of a trend cover.
use unifi_mcp.Base.{
  ℕ, zero, suc, ◌+◌, ◌-◌, ◌*◌, ◌/◌, ◌≤◌, ◌≡◌, refl, sym, subst, ◌⊎◌, inl, inr, Bool, true, false,
  not, ◌&&◌, ◌||◌, Option, none, some, List, [], ◌∷◌, arith, ltb, leb, ok, raise_if, bind-ok,
  length, All, elem, ◌<◌, ◌∙◌, All-map,
}
use unifi_mcp.Base.Table.{count_where}
use unifi_mcp.Base.Json.{Json}
use unifi_mcp.Observations.{
  Row, bad_metric, bad_times, bad_bucket, bad_count, Query, TrendBucket, width, metric_of,
  has_sample, samples, bucket, buckets, bucket_count, selected, metrics_of, query_trend, is_number,
}
use unifi_mcp.Observations.Ranges.{
  falls, observed, Started, falls-observed, count_where-same, selected-Started,
}

-- The buckets lie next to each other, from `from` on.
abbrev pub Tiles : (width from : ℕ) → List TrendBucket → Type 0
Tiles w from [] = Unit {0}
Tiles w from (b ∷ bs) = (b.start ≡ from) × (b.end_ ≡ from + w) × Tiles w (from + w) bs

-- A bucket is present, and has a value, if and only if it has a sample.
abbrev pub Marked : TrendBucket → Type 0
Marked b =
    ((b.present ≡ false) × (b.value ≡ none) × (b.sample_count ≡ 0))
    ⊎ ((b.present ≡ true) × ((v : Json) × (b.value ≡ some v)) × (1 ≤ b.sample_count))

abbrev pub total : List TrendBucket → ℕ
total [] = 0
total (b ∷ bs) = b.sample_count + total bs

count_where-split :
    {A : Type 0} (p q r : A → Bool)
    → ((x : A) → r x ≡ (p x || q x))
    → ((x : A) → (p x && q x) ≡ false)
    → (xs : List A) → count_where r xs ≡ count_where p xs + count_where q xs
unfolding count_where
count_where-split p q r either apart [] = omega arith
count_where-split p q r either apart (x ∷ xs) =
    ground (arith, either x, apart x, count_where-split p q r either apart xs)

count_where-never :
    {A : Type 0} (p : A → Bool) → ((x : A) → p x ≡ false) → (xs : List A) → count_where p xs ≡ 0
unfolding count_where
count_where-never p h [] = refl
count_where-never p h (x ∷ xs) = ground (arith, h x, count_where-never p h xs)

has_sample-none : (q : Query) (r : Row) → metric_of q r ≡ none → has_sample q r ≡ false
unfolding has_sample is_number
has_sample-none q r e = rw e refl

length-samples :
    (q : Query) (index : ℕ) (rows : List Row)
    → length (samples q index rows) ≡ count_where (falls q index 1) rows
unfolding samples count_where
length-samples q index [] = refl
length-samples q index (r ∷ rs) = by_metric (metric_of q r) refl (length-samples q index rs)
  where
    by_metric :
        (m : Option Json)
        → metric_of q r ≡ m
        → length (samples q index rs) ≡ count_where (falls q index 1) rs
        → length (samples q index (r ∷ rs)) ≡ count_where (falls q index 1) (r ∷ rs)
    by_metric none e rest =
        let no_sample = has_sample-none q r e in rw (e, samples) (ground (arith, rest, no_sample))
    by_metric (some v) e rest = rw (e, samples) (ground (arith, rest))

total-buckets :
    (mean : List Json → Json) (q : Query) (rows : List Row) (count index : ℕ)
    → total (buckets mean q rows index count) ≡ count_where (falls q index count) rows
unfolding buckets bucket
total-buckets mean q rows zero index =
    sym (count_where-never (falls q index 0) (λ r. ground arith) rows)
total-buckets mean q rows (suc count) index = omega (
  arith,
  length-samples q index rows,
  total-buckets mean q rows count (index + 1),
  count_where-split (falls q index 1) (falls q (index + 1) count) (falls q index (suc count))
      (λ r. ground arith) (λ r. ground arith) rows,
)

Tiles-buckets :
    (mean : List Json → Json) (q : Query) (rows : List Row) (count index : ℕ)
    → Tiles (width q) (q.start + index * width q) (buckets mean q rows index count)
unfolding buckets bucket
Tiles-buckets mean q rows zero index = tt
Tiles-buckets mean q rows (suc count) index = (
  refl,
  refl,
  subst (λ from. Tiles (width q) from (buckets mean q rows (index + 1) count)) (omega arith)
      (Tiles-buckets mean q rows count (index + 1)),
)

length-buckets :
    (mean : List Json → Json) (q : Query) (rows : List Row) (count index : ℕ)
    → length (buckets mean q rows index count) ≡ count
unfolding buckets
length-buckets mean q rows zero index = refl
length-buckets mean q rows (suc count) index =
    omega (arith, length-buckets mean q rows count (index + 1))

Marked-bucket :
    (mean : List Json → Json) (q : Query) (rows : List Row) (index : ℕ)
    → Marked (bucket mean q rows index)
unfolding bucket
Marked-bucket mean q rows index = by_samples (samples q index rows) refl
  where
    by_samples : (vs : List Json) → samples q index rows ≡ vs → Marked (bucket mean q rows index)
    by_samples [] e = rw (e, bucket) (inl (refl, refl, refl))
    by_samples (v ∷ vs) e = rw (e, bucket) (inr (refl, (mean (v ∷ vs), refl), omega arith))

All-Marked :
    (mean : List Json → Json) (q : Query) (rows : List Row) (count index : ℕ)
    → All Marked (buckets mean q rows index count)
unfolding buckets
All-Marked mean q rows zero index = tt
All-Marked mean q rows (suc count) index =
    (Marked-bucket mean q rows index, All-Marked mean q rows count (index + 1))

-- The bucket counts the samples that were observed in its time.
abbrev pub Counts : Query → List Row → TrendBucket → Type 0
Counts q rows b = b.sample_count ≡ count_where (observed q b.start b.end_) rows

All-Counts :
    (mean : List Json → Json) (q : Query) (rows : List Row) (count index : ℕ)
    → 0 < width q
    → All (Started q) rows
    → All (Counts q rows) (buckets mean q rows index count)
unfolding buckets bucket
All-Counts mean q rows zero index positive started = tt
All-Counts mean q rows (suc count) index positive started = (
  length-samples q index rows
      ∙ count_where-same (falls q index 1) (observed q from (from + width q)) rows
          (All-map (Started q) _ (λ r later. same r later) rows started),
  All-Counts mean q rows count (index + 1) positive started,
)
  where
    from : ℕ
    from = q.start + index * width q

    same : (r : Row) → Started q r → falls q index 1 r ≡ observed q from (from + width q) r
    same r later =
        subst (λ until. falls q index 1 r ≡ observed q from until r) (omega arith)
          (falls-observed q index 1 r positive later)

total-observed :
    (mean : List Json → Json) (q : Query) (rows : List Row) (count : ℕ)
    → 0 < width q
    → All (Started q) rows
    → total (buckets mean q rows 0 count)
      ≡ count_where (observed q q.start (q.start + count * width q)) rows
total-observed mean q rows count positive started =
    total-buckets mean q rows count 0
    ∙ count_where-same (falls q 0 count) (observed q q.start (q.start + count * width q)) rows
        (All-map (Started q) _ (λ r later. same r later) rows started)
  where
    same :
        (r : Row)
        → Started q r
        → falls q 0 count r ≡ observed q q.start (q.start + count * width q) r
    same r later =
        let first : q.start + 0 * width q ≡ q.start = omega arith in
        let last : 0 + count ≡ count = omega arith in
        subst (λ from. falls q 0 count r ≡ observed q from (q.start + count * width q) r) first
          (subst
            (λ n. falls q 0 count r ≡ observed q (q.start + 0 * width q) (q.start + n * width q) r)
            last (falls-observed q 0 count r positive later))

-- A trend has between one and 1000 buckets, as many as fit between its start and its end; they lie
-- next to each other from the start on; each is marked as present, and has a value, if and only if
-- it has a sample; each counts the samples of the selected rows that were observed from its start on
-- and before its end; and together they count all those that were observed before the end of the
-- last one, and each once.
pub query_trend-Tiles :
    (mean : List Json → Json) (q : Query) (table : List Row) (bs : List TrendBucket)
    → query_trend mean q table ≡ ok bs
    → (1 ≤ length bs)
      × (length bs ≤ 1000)
      × (length bs ≡ (q.end_ - q.start) / width q)
      × Tiles (width q) q.start bs
      × All Marked bs
      × All (Counts q (selected q table)) bs
      × (total bs
          ≡ count_where (observed q q.start (q.start + length bs * width q)) (selected q table))
unfolding query_trend
query_trend-Tiles mean q table bs h =
    let (_, metric, h1) =
      bind-ok (raise_if (not (elem q.metric (metrics_of q.kind))) bad_metric) _ h in
    let (_, times, h2) = bind-ok (raise_if (leb q.end_ q.start) bad_times) _ h1 in
    let (_, size, h3) =
      bind-ok (raise_if (not (leb 60 q.bucket_seconds && leb q.bucket_seconds 86400)) bad_bucket) _
        h2 in
    let (_, number, h4) =
      bind-ok (raise_if (ltb (bucket_count q) 1 || ltb 1000 (bucket_count q)) bad_count) _ h3 in
    let same : buckets mean q (selected q table) 0 (bucket_count q) ≡ bs = cc h4 in
    let positive : 0 < width q = ground (arith, size) in
    let started = selected-Started q table in
    let count = length-buckets mean q (selected q table) (bucket_count q) 0 in
    rw (← same, count)
      (
        ground (arith, number),
        ground (arith, number),
        refl,
        subst (λ from. Tiles (width q) from (buckets mean q (selected q table) 0 (bucket_count q)))
            (omega arith) (Tiles-buckets mean q (selected q table) (bucket_count q) 0),
        All-Marked mean q (selected q table) (bucket_count q) 0,
        All-Counts mean q (selected q table) (bucket_count q) 0 positive started,
        total-observed mean q (selected q table) (bucket_count q) positive started,
      )
