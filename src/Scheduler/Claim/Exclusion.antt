-- ===== src/Scheduler/Claim/Exclusion.antt =====
-- What a claim takes, and that nothing takes it again while its run may still be going on.
use unifi_mcp.Base.{
  ℕ, ◌+◌, ◌≤◌, ◌<◌, String, ◌≡◌, refl, sym, ap, ◌∙◌, inl, inr, true, false, not, ◌&&◌, none, List,
  [], ◌∷◌, map, arith, eq_iff, str_eq, Bool-cases, err, length, length-take-le, All, All-map,
  All-take, elem,
}
use unifi_mcp.Base.Table.{
  update_where, find_where, All-select_where, All-update_where, All-order_by,
  update_where-update_where, update_where-none,
}
use unifi_mcp.Scheduler.{Schedule, Db, not_found_or_running, has_id}
use unifi_mcp.Scheduler.Claim.{
  release_stale, due, sooner, claim, mark, ids, selected, as_running, claim_due, claim_one,
}

abbrev pub Claimable : ℕ → Schedule → Type 0
Claimable now s = (s.enabled ≡ true) × (s.running ≡ false) × (s.next_run_at ≤ now)

due-Claimable : (now : ℕ) (s : Schedule) → due now s ≡ true → Claimable now s
unfolding due
due-Claimable now s h = ground arith

All-true : (xs : List Schedule) → All (λ s. Unit {0}) xs
All-true [] = tt
All-true (x ∷ xs) = (tt, All-true xs)

selected-Claimable :
    (stale_run now limit : ℕ) (db : Db) → All (Claimable now) (selected stale_run now limit db)
unfolding selected
selected-Claimable stale_run now limit db = All-take _ limit _ (
    All-order_by _ sooner _ (
      All-map _ _ (λ s h. due-Claimable now s h.0) _
        (All-select_where (λ s. Unit {0}) (due now) _ (All-true _))))

All-as_running :
    (now : ℕ) (rows : List Schedule)
    → All (Claimable now) rows
    → All
        (λ s. (s.enabled ≡ true) × (s.running ≡ true) × (s.next_run_at ≤ now))
        (map as_running rows)
All-as_running now [] h = tt
All-as_running now (s ∷ ss) h = ((h.0.0, refl, h.0.2), All-as_running now ss h.1)

length-map : (f : Schedule → Schedule) (xs : List Schedule) → length (map f xs) ≡ length xs
length-map f [] = refl
length-map f (x ∷ xs) = omega (arith, length-map f xs)

-- `_claim_due` returns at most `limit` schedules, each enabled, due at the time of the claim and
-- shown as running.
pub claim_due-All :
    (stale_run now limit : ℕ) (db : Db)
    → All
        (λ s. (s.enabled ≡ true) × (s.running ≡ true) × (s.next_run_at ≤ now))
        (claim_due stale_run now limit db).1
      × (length (claim_due stale_run now limit db).1 ≤ limit)
unfolding claim_due
claim_due-All stale_run now limit db = (
  All-as_running now _ (selected-Claimable stale_run now limit db),
  rw length-map (unfold selected in length-take-le limit _),
)

mark-eq-update_where :
    (now : ℕ) (rows table : List Schedule)
    → mark now rows table ≡ update_where (λ s. elem s.id (ids rows)) (claim now) table
unfolding mark
mark-eq-update_where now [] table = sym (update_where-none (claim now) table)
mark-eq-update_where now (row ∷ rows) table =
    mark-eq-update_where now rows (update_where (has_id row.id) (claim now) table)
    ∙ update_where-update_where (has_id row.id) (λ s. elem s.id (ids rows)) (claim now) (λ s. refl)
        (λ s. refl) table

ids-as_running : (rows : List Schedule) → ids (map as_running rows) ≡ ids rows
ids-as_running [] = refl
ids-as_running (s ∷ ss) = ap (λ is. s.id ∷ is) (ids-as_running ss)

-- After `_claim_due` the table is that of released stale claims with one change: exactly the rows
-- whose id was claimed are running, since now.
pub claim_due-table :
    (stale_run now limit : ℕ) (db : Db)
    → (claim_due stale_run now limit db).0.schedules
      ≡ update_where
          (λ s. elem s.id (ids (claim_due stale_run now limit db).1))
          (claim now)
          (release_stale stale_run now db.schedules)
unfolding claim_due
claim_due-table stale_run now limit db =
    rw ids-as_running (mark-eq-update_where now (selected stale_run now limit db) _)

-- Rows with one of these ids are held by a claim of time `since`.
abbrev pub Held : List String → ℕ → Schedule → Type 0
Held is since s = elem s.id is ≡ true → (s.running ≡ true) × (s.updated_at ≡ since)

claim_due-Held :
    (stale_run now limit : ℕ) (db : Db)
    → All
        (Held (ids (claim_due stale_run now limit db).1) now)
        (claim_due stale_run now limit db).0.schedules
claim_due-Held stale_run now limit db = rw claim_due-table (
    All-update_where (λ s. Unit {0}) _ _ _ (λ s hit _ _. (refl, refl)) (λ s miss _ h. cc) _
      (All-true _))

-- While the claim is younger than `stale_run`, its rows are not released, and not claimed again.
Held-release_stale :
    (is : List String) (since stale_run now : ℕ)
    → now < since + stale_run
    → (table : List Schedule) → All (Held is since) table
    → All (Held is since) (release_stale stale_run now table)
unfolding release_stale
Held-release_stale is since stale_run now young table =
    All-update_where (Held is since) _ _ _ (λ s hit held e. ground (arith, held e))
      (λ s miss held. held) table

selected-unheld :
    (is : List String) (since stale_run now limit : ℕ) (db : Db)
    → now < since + stale_run
    → All (Held is since) db.schedules
    → All (λ s. elem s.id is ≡ false) (selected stale_run now limit db)
unfolding selected
selected-unheld is since stale_run now limit db young held = All-take _ limit _ (
    All-order_by _ sooner _ (
      All-map _ _ (λ s h. grind (arith, due-Claimable now s h.0, h.1, Bool-cases (elem s.id is))) _
        (All-select_where (Held is since) (due now) _
          (Held-release_stale is since stale_run now young db.schedules held))))

All-unheld :
    (is : List String) (rows : List Schedule)
    → All (λ s. elem s.id is ≡ false) rows
    → All (λ s. elem s.id is ≡ false) (map as_running rows)
All-unheld is [] h = tt
All-unheld is (s ∷ ss) h = (h.0, All-unheld is ss h.1)

claim_due_unheld :
    (is : List String) (since stale_run now limit : ℕ) (db : Db)
    → now < since + stale_run
    → All (Held is since) db.schedules
    → All (λ s. elem s.id is ≡ false) (claim_due stale_run now limit db).1
unfolding claim_due
claim_due_unheld is since stale_run now limit db young held =
    All-unheld is _ (selected-unheld is since stale_run now limit db young held)

-- Two claims that follow one another within `stale_run` never take the same schedule, whatever
-- their limits.
pub claim_due_exclusive :
    (stale_run now limit : ℕ) (db : Db) (later limit' : ℕ)
    → later < now + stale_run
    → let (db', claimed) = claim_due stale_run now limit db in
      All (λ s. elem s.id (ids claimed) ≡ false) (claim_due stale_run later limit' db').1
claim_due_exclusive stale_run now limit db later limit' young =
    claim_due_unheld _ now stale_run later limit' _ young (claim_due-Held stale_run now limit db)

find-Held :
    (id : String) (is : List String) (since : ℕ) (table : List Schedule)
    → elem id is ≡ true
    → All (Held is since) table
    → find_where (λ s. has_id id s && not s.running) table ≡ none
unfolding find_where
find-Held id is since [] e held = refl
find-Held id is since (s ∷ ss) e held = elim (Bool-cases (str_eq id s.id)) [
  | inl same ↦
      rw (same, (held.0 (rw (← (eq_iff id s.id).0 same) e)).0) (find-Held id is since ss e held.1)
  | inr other ↦ rw other (find-Held id is since ss e held.1)
]

-- A schedule that `_claim_due` has just claimed cannot be run by `run_schedule_now`: the call
-- raises, at any later time, as long as no other operation has released it.
pub claim_one_excluded :
    (stale_run now limit : ℕ) (db : Db) (id : String) (later : ℕ)
    → elem id (ids (claim_due stale_run now limit db).1) ≡ true
    → claim_one id later (claim_due stale_run now limit db).0 ≡ err not_found_or_running
unfolding claim_one
claim_one_excluded stale_run now limit db id later e =
    rw (find-Held id _ now _ e (claim_due-Held stale_run now limit db), claim_one)
