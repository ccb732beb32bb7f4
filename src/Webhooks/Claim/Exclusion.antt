-- ===== src/Webhooks/Claim/Exclusion.antt =====
-- Which deliveries a claim takes, and that nothing takes them again while they may be on their way.
use unifi_mcp.Base.{
  ℕ, ◌+◌, ◌≤◌, ◌<◌, String, ◌≡◌, refl, sym, subst, ◌⊎◌, inl, inr, Bool, true, false, Option, none,
  some, List, [], ◌∷◌, arith, eq_iff, str_eq, Bool-cases, Option-cases, length, length-take-le, All,
  All-map, All-take, elem,
}
use unifi_mcp.Base.Table.{
  find_where, All-update_where, All-order_by, update_each-eq-update_where, All-any,
}
use unifi_mcp.Events.{Db, Delivery, pending, retry, delivering}
use unifi_mcp.Webhooks.Claim.{
  release_stale, DueRow, join, is_due, join_all, sooner, as_delivering, ids, due_rows, claim_due,
}

-- What a claimed row is at the time of the claim.
abbrev pub Due : ℕ → DueRow → Type 0
Due now r =
    ((r.delivery.status ≡ pending) ⊎ (r.delivery.status ≡ retry))
    × (r.delivery.next_attempt_at ≤ now)
    × (r.destination.enabled ≡ true)
    × (r.delivery.destination_id ≡ r.destination.id)
    × (r.delivery.event_id ≡ r.event.id)

-- What `find_where` finds passes its test.
module _ {A : Type 0} where
  find_where-test : (p : A → Bool) (xs : List A) (x : A) → find_where p xs ≡ some x → p x ≡ true
  unfolding find_where
  find_where-test p [] x h = cc
  find_where-test p (y ∷ ys) x h = elim (Bool-cases (p y)) [
    | inl hit ↦ let same : y ≡ x = cc (rw hit at h) in rw (← same) hit
    | inr miss ↦ find_where-test p ys x (rw miss at h)
  ]

join-some :
    (db : Db) (d : Delivery) (row : DueRow)
    → join db d ≡ some row
    → (row.delivery ≡ d)
      × (row.destination.enabled ≡ true)
      × (d.destination_id ≡ row.destination.id)
      × (d.event_id ≡ row.event.id)
unfolding join
join-some db d row h =
    elim (Option-cases (find_where (λ w. str_eq d.destination_id w.id) db.destinations)) [
      | inl none_w ↦ cc (rw (none_w, join) at h)
      | inr (w, found_w) ↦
          elim (Option-cases (find_where (λ e. str_eq d.event_id e.id) db.events)) [
            | inl none_e ↦ cc (rw (found_w, none_e, join) at h)
            | inr (e, found_e) ↦ ground (
              arith,
              rw (found_w, found_e, join) at h,
              find_where-test _ _ w found_w,
              find_where-test _ _ e found_e,
              eq_iff d.destination_id w.id,
              eq_iff d.event_id e.id,
            )
          ]
    ]

is_due-true :
    (now : ℕ) (d : Delivery)
    → is_due now d ≡ true
    → ((d.status ≡ pending) ⊎ (d.status ≡ retry)) × (d.next_attempt_at ≤ now)
unfolding is_due
is_due-true now d h = ground arith

-- The rows of the join come from deliveries of the table that are due.
All-join_all :
    (Q : Delivery → Type 0) (db : Db) (now : ℕ) (ds : List Delivery)
    → All Q ds
    → All (λ r. Due now r × Q r.delivery) (join_all db now ds)
unfolding join_all
All-join_all Q db now [] h = tt
All-join_all Q db now (d ∷ ds) h = by_join (join db d) refl (All-join_all Q db now ds h.1)
  where
    at_row :
        (row : DueRow)
        → is_due now d ≡ true
        → (row.delivery ≡ d)
          × (row.destination.enabled ≡ true)
          × (d.destination_id ≡ row.destination.id)
          × (d.event_id ≡ row.event.id)
        → Due now row × Q row.delivery
    at_row row due (same, enabled, destination, event) =
        let (status, time) = is_due-true now d due in
        ((ground arith, ground arith, enabled, ground arith, ground arith), subst Q (sym same) h.0)

    by_join :
        (o : Option DueRow)
        → join db d ≡ o
        → All (λ r. Due now r × Q r.delivery) (join_all db now ds)
        → All (λ r. Due now r × Q r.delivery) (join_all db now (d ∷ ds))
    by_join none e rest = rw (e, join_all) rest
    by_join (some row) e rest = elim (Bool-cases (is_due now d)) [
      | inl due ↦ rw (e, due, join_all) (at_row row due (join-some db d row e), rest)
      | inr later ↦ rw (e, later, join_all) rest
    ]

-- `_claim_due` returns at most `limit` deliveries; each waits (pending or to be retried), is due,
-- and comes with its own destination, which is enabled, and its own event.
pub claim_due-Due :
    (stale now limit : ℕ) (db : Db)
    → All (Due now) (claim_due stale now limit db).1
      × (length (claim_due stale now limit db).1 ≤ limit)
unfolding claim_due due_rows
claim_due-Due stale now limit db = (
  All-take (Due now) limit _ (
      All-order_by (Due now) sooner _ (
        All-map _ _ (λ r h. h.0) _
          (All-join_all (λ d. Unit {0}) db now (release_stale stale now db.deliveries)
            (All-any _)))),
  length-take-le limit _,
)

-- Deliveries with one of these ids are on their way since `since`.
abbrev pub Held : List String → ℕ → Delivery → Type 0
Held is since d = (elem d.id is ≡ false) ⊎ ((d.status ≡ delivering) × (d.updated_at ≡ since))

pub claim_due-Held :
    (stale now limit : ℕ) (db : Db)
    → All
        (Held (ids (claim_due stale now limit db).1) now)
        (claim_due stale now limit db).0.deliveries
unfolding claim_due
claim_due-Held stale now limit db =
    rw
      (update_each-eq-update_where (λ d. d.id) (as_delivering now) (λ d. refl) (λ d. refl)
        (ids (due_rows stale now limit db)) (release_stale stale now db.deliveries))
      (All-update_where (λ d. Unit {0}) (Held (ids (due_rows stale now limit db)) now) _ _
        (λ d hit u. inr (refl, refl)) (λ d miss u. inl miss) _ (All-any _))

Held-release_stale :
    (is : List String) (since stale now : ℕ)
    → now < since + stale
    → (table : List Delivery) → All (Held is since) table
    → All (Held is since) (release_stale stale now table)
unfolding release_stale
Held-release_stale is since stale now young table =
    All-update_where (Held is since) (Held is since) _ _ (λ d hit held. ground arith)
      (λ d miss held. held) table

Due-unheld :
    (is : List String) (since now : ℕ) (r : DueRow)
    → Due now r × Held is since r.delivery
    → elem r.delivery.id is ≡ false
Due-unheld is since now r (due, inl out) = out
Due-unheld is since now r (due, inr (status, at)) = ground arith

claim_due-unheld :
    (is : List String) (since stale now limit : ℕ) (db : Db)
    → now < since + stale
    → All (Held is since) db.deliveries
    → All (λ r. elem r.delivery.id is ≡ false) (claim_due stale now limit db).1
unfolding claim_due due_rows
claim_due-unheld is since stale now limit db young held = All-take _ limit _ (
    All-order_by _ sooner _ (
      All-map _ _ (Due-unheld is since now) _ (
        All-join_all (Held is since) db now (release_stale stale now db.deliveries)
          (Held-release_stale is since stale now young db.deliveries held))))

-- Two claims that follow one another within `stale` never take the same delivery.
pub claim_due_disjoint :
    (stale now limit : ℕ) (db : Db) (later limit' : ℕ)
    → later < now + stale
    → let (db', claimed) = claim_due stale now limit db in
      All (λ r. elem r.delivery.id (ids claimed) ≡ false) (claim_due stale later limit' db').1
claim_due_disjoint stale now limit db later limit' young =
    claim_due-unheld _ now stale later limit' _ young (claim_due-Held stale now limit db)
