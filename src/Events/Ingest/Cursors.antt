-- ===== src/Events/Ingest/Cursors.antt =====
-- The cursor of a source is what its last page left, and no other source's page moves it.
use unifi_mcp.Base.{
  ℕ, String, ◌≡◌, refl, ap, ◌∙◌, ◌≢◌, ◌⊎◌, inl, inr, true, false, some, List, [], ◌∷◌, arith,
  eq_iff, eq_refl, ltb, ltb→lt, Bool-cases, ok, bind-ok,
}
use unifi_mcp.Base.Table.{
  select_where, count_where, find_where, find_where-append_none, find_where-append_miss,
  find_where-update_miss, find_where-update_hit,
}
use unifi_mcp.Base.Json.{Fields}
use unifi_mcp.Events.{
  NormalizedEvent, Db, insert_events, upsert_cursor, IngestResult, insert_batch, get_cursor, Cursor,
  of_source,
}

abbrev with_cursor : Cursor → Cursor → Cursor
with_cursor c r = record r { cursor = c.cursor; updated_at = c.updated_at }

of_source_self : (c : Cursor) → of_source c.source c.device_name c.site c ≡ true
of_source_self c = simp (eq_refl c.source, eq_refl c.device_name, eq_refl c.site)

-- Two sources that differ.
abbrev Apart : (s d i s' d' i' : String) → Type 0
Apart s d i s' d' i' = (s ≢ s') ⊎ (d ≢ d') ⊎ (i ≢ i')

of_source-Apart :
    (s d i s' d' i' : String) (c : Cursor)
    → Apart s d i s' d' i'
    → of_source s' d' i' c ≡ true
    → of_source s d i c ≡ false
of_source-Apart s d i s' d' i' c apart h = ground (
  arith,
  eq_iff s' c.source,
  eq_iff d' c.device_name,
  eq_iff i' c.site,
  eq_iff s c.source,
  eq_iff d c.device_name,
  eq_iff i c.site,
)

find-upsert_self :
    (c : Cursor) (cursors : List Cursor)
    → (r : Cursor) × (find_where (of_source c.source c.device_name c.site) (upsert_cursor c cursors)
        ≡ some r)
      × (r.cursor ≡ c.cursor)
unfolding upsert_cursor
find-upsert_self c cursors =
    let mine = of_source c.source c.device_name c.site in
    elim (Bool-cases (ltb 0 (count_where mine cursors))) [
      | inl old ↦
          let (r, found, updated) =
            find_where-update_hit mine (with_cursor c) (λ x. refl) cursors (ltb→lt _ _ old) in
          (with_cursor c r, rw (old, upsert_cursor) updated, refl)
      | inr new ↦ (
        c,
        rw (new, upsert_cursor)
            (find_where-append_none mine cursors (c ∷ []) (ground arith)
              ∙ unfold find_where in rw (of_source_self c)),
        refl,
      )
    ]

find-upsert_other :
    (c : Cursor) (s d i : String) (cursors : List Cursor)
    → Apart c.source c.device_name c.site s d i
    → find_where (of_source s d i) (upsert_cursor c cursors) ≡ find_where (of_source s d i) cursors
unfolding upsert_cursor
find-upsert_other c s d i cursors apart =
    let mine = of_source c.source c.device_name c.site in
    elim (Bool-cases (ltb 0 (count_where mine cursors))) [
      | inl old ↦
          rw (old, upsert_cursor)
            (find_where-update_miss mine (of_source s d i) (with_cursor c) (λ x. refl)
              (λ x h. of_source-Apart c.source c.device_name c.site s d i x apart h) cursors)
      | inr new ↦
          rw (new, upsert_cursor)
            (find_where-append_miss (of_source s d i) cursors c (
              ground (
                arith,
                of_source-Apart c.source c.device_name c.site s d i c apart,
                of_source_self c,
              )))
    ]

insert_batch-cursors :
    (uuid : ℕ → String) (now : ℕ) (es : List NormalizedEvent) (source device_name site : String)
    (cursor : Fields) (db db' : Db) (r : IngestResult)
    → insert_batch uuid now es source device_name site cursor db ≡ ok (db', r)
    → db'.cursors
      ≡ upsert_cursor
          (record {
            source = source;
            device_name = device_name;
            site = site;
            cursor = cursor;
            updated_at = now;
          })
          db.cursors
unfolding insert_batch
insert_batch-cursors uuid now es source device_name site cursor db db' r h =
    let (p, done, rest) =
      bind-ok
        (insert_events uuid now (select_where (λ d. d.enabled) db.destinations) es
          (record { events = db.events; deliveries = db.deliveries; drawn = 0; inserted = 0 }))
        _ h in
    ground arith

-- After a page of a source is ingested, `get_cursor` of that source returns the page's cursor.
pub get_cursor-insert_batch_self :
    (uuid : ℕ → String) (now : ℕ) (es : List NormalizedEvent) (source device_name site : String)
    (cursor : Fields) (db db' : Db) (r : IngestResult)
    → insert_batch uuid now es source device_name site cursor db ≡ ok (db', r)
    → get_cursor source device_name site db' ≡ some cursor
unfolding get_cursor
get_cursor-insert_batch_self uuid now es source device_name site cursor db db' r h =
    let c : Cursor = record {
      source = source;
      device_name = device_name;
      site = site;
      cursor = cursor;
      updated_at = now;
    } in
    let (row, found, same) = find-upsert_self c db.cursors in
    rw
      (
        insert_batch-cursors uuid now es source device_name site cursor db db' r h,
        found,
        get_cursor,
      )
      (ap some same)

-- And every other source, which differs in its kind, its device or its site, has the cursor that
-- it had.
pub get_cursor-insert_batch_other :
    (uuid : ℕ → String) (now : ℕ) (es : List NormalizedEvent) (source device_name site : String)
    (cursor : Fields) (db db' : Db) (r : IngestResult) (source' device_name' site' : String)
    → insert_batch uuid now es source device_name site cursor db ≡ ok (db', r)
    → (source ≢ source') ⊎ (device_name ≢ device_name') ⊎ (site ≢ site')
    → get_cursor source' device_name' site' db' ≡ get_cursor source' device_name' site' db
unfolding get_cursor
get_cursor-insert_batch_other uuid now es source device_name site cursor db db' r s d i h apart =
    let c : Cursor = record {
      source = source;
      device_name = device_name;
      site = site;
      cursor = cursor;
      updated_at = now;
    } in
    rw (
      insert_batch-cursors uuid now es source device_name site cursor db db' r h,
      find-upsert_other c s d i db.cursors apart,
      get_cursor,
    )
