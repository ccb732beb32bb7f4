-- ===== src/Webhooks/Deliver/Round.antt =====
-- A round of deliveries: what it leaves of the deliveries that it claimed, also where it is cut short.
use unifi_mcp.Base.{
  ℕ, ◌+◌, min, max, String, ◌≡◌, refl, sym, ap, subst, ◌∙◌, ◌≢◌, ◌⊎◌, inl, inr, true, false, ◌||◌,
  Option, none, some, List, [], ◌∷◌, ◌++◌, arith, str_eq, append_nil, Result, ok, err, All, All-map,
  elem,
}
use unifi_mcp.Base.Table.{All-update_where}
use unifi_mcp.Destinations.{PostError, rejected, transport_error, assertion_error, unexpected}
use unifi_mcp.Events.{Db, Delivery, delivering}
use unifi_mcp.Webhooks.{Secret, unsigned, unavailable, signed_with, secret_for}
use unifi_mcp.Webhooks.Claim.{DueRow, due_rows, claim_due, ids}
use unifi_mcp.Webhooks.Claim.Exclusion.{Held, claim_due-Held}
use unifi_mcp.Webhooks.Deliver.{
  Outcome, record_result, shown, posted, give_up_after, answered, DeliveryResult, Service, attempt,
  deliver, deliver_all, deliver_due,
}
use unifi_mcp.Webhooks.Deliver.Lifecycle.{Rested, attempt-Rested}

-- The ids of the results.
abbrev pub delivery_ids : List DeliveryResult → List String
delivery_ids [] = []
delivery_ids (r ∷ rs) = r.delivery_id ∷ delivery_ids rs

-- A delivery that was made is not on its way any more; one that was claimed and not made still is,
-- since the claim.
abbrev pub Settled : (made claimed : List DueRow) (now : ℕ) → Delivery → Type 0
Settled made claimed now d =
    (elem d.id (ids made) ≡ true → d.status ≢ delivering)
    × (elem d.id (ids made) ≡ false
        → elem d.id (ids claimed) ≡ true
        → (d.status ≡ delivering) × (d.updated_at ≡ now))

-- The POST for the row raises what the code does not expect.
abbrev pub Raises : Service → DueRow → Type 0
Raises service row =
    (s : Secret) × ((service.post row s ≡ err assertion_error)
      ⊎ (service.post row s ≡ err unexpected))

-- How a round goes on the rows that are left of those that it claimed.
pub data Round (service : Service) (claimed : List DueRow) (now : ℕ) (rows : List DueRow)
    : Db × Option (List DeliveryResult) → Type 0 where
  finished :
      (db : Db) (results : List DeliveryResult)
      → delivery_ids results ≡ ids rows
      → All (Settled claimed claimed now) db.deliveries
      → Round service claimed now rows (db, some results)
  cut_short :
      (db : Db) (made : List DueRow) (row : DueRow) (left : List DueRow)
      → claimed ≡ made ++ row ∷ left
      → Raises service row
      → All (Settled made claimed now) db.deliveries
      → Round service claimed now rows (db, none)

elem-ids-append :
    (k : String) (made : List DueRow) (row : DueRow)
    → elem k (ids (made ++ row ∷ [])) ≡ (elem k (ids made) || str_eq row.delivery.id k)
elem-ids-append k [] row = ground arith
elem-ids-append k (r ∷ rs) row = ground (arith, elem-ids-append k rs row)

append-move :
    (made : List DueRow) (row : DueRow) (rows : List DueRow)
    → made ++ row ∷ rows ≡ (made ++ row ∷ []) ++ rows
append-move [] row rows = refl
append-move (r ∷ rs) row rows = ap (λ l. r ∷ l) (append-move rs row rows)

Rested-ne-delivering :
    (max_attempts : ℕ) (o : Outcome) → Rested max_attempts o → o.status ≢ delivering
Rested-ne-delivering max_attempts o (inl (inl e)) k = cc
Rested-ne-delivering max_attempts o (inl (inr (inl e))) k = cc
Rested-ne-delivering max_attempts o (inl (inr (inr e))) k = cc
Rested-ne-delivering max_attempts o (inr (e, more)) k = cc

module _ (service : Service) (claimed : List DueRow) (now : ℕ) where
  record_result-Settled :
      (made : List DueRow) (row : DueRow) (o : Outcome) (db : Db)
      → o.status ≢ delivering
      → All (Settled made claimed now) db.deliveries
      → All
          (Settled (made ++ row ∷ []) claimed now)
          (record_result row.delivery.id now o db).deliveries
  unfolding record_result
  record_result-Settled made row o db rests settled =
      All-update_where (Settled made claimed now) (Settled (made ++ row ∷ []) claimed now) _ _
        (λ d hit before. (
          λ is e. rests e,
          λ other is.
              let joined = sym (elem-ids-append d.id made row) ∙ other in
              absurd (ground (arith, joined, hit)),
        ))
        (λ d miss before. (
          λ is.
              let joined = sym (elem-ids-append d.id made row) ∙ is in
              before.0 (ground (arith, joined, miss)),
          λ other is.
              let joined = sym (elem-ids-append d.id made row) ∙ other in
              before.1 (ground (arith, joined, miss)) is,
        ))
        db.deliveries settled

  posted-none :
      (attempts : ℕ) (p : Result PostError ℕ)
      → give_up_after service.max_attempts (posted p attempts) ≡ none
      → (p ≡ err assertion_error) ⊎ (p ≡ err unexpected)
  unfolding posted give_up_after
  posted-none attempts (ok status) h = cc
  posted-none attempts (err (rejected x)) h = cc
  posted-none attempts (err transport_error) h = cc
  posted-none attempts (err assertion_error) h = inl refl
  posted-none attempts (err unexpected) h = inr refl

  attempt-none : (row : DueRow) → attempt service row ≡ none → Raises service row
  unfolding attempt answered
  attempt-none row h =
      by_secret (secret_for service.secret_lookup row.destination.secret_env_name) refl
    where
      by_secret :
          (s : Secret)
          → secret_for service.secret_lookup row.destination.secret_env_name ≡ s
          → Raises service row
      by_secret unavailable e = cc (rw (e, attempt) at h)
      by_secret unsigned e =
          (unsigned, posted-none (row.delivery.attempt_count + 1) _ (rw (e, attempt) at h))
      by_secret (signed_with key) e =
          (signed_with key, posted-none (row.delivery.attempt_count + 1) _ (rw (e, attempt) at h))

  deliver_all-Round :
      (made rows : List DueRow) (db : Db)
      → claimed ≡ made ++ rows
      → All (Settled made claimed now) db.deliveries
      → Round service claimed now rows (deliver_all service rows now db)
  unfolding deliver_all deliver
  deliver_all-Round made [] db split settled =
      let all_made : made ≡ claimed = sym (split ∙ append_nil made) in
      finished db [] refl (subst (λ m. All (Settled m claimed now) db.deliveries) all_made settled)
  deliver_all-Round made (row ∷ rows) db split settled = by_attempt (attempt service row) refl (λ o.
      deliver_all-Round (made ++ row ∷ []) rows (record_result row.delivery.id now o db)
        (split ∙ append-move made row rows))
    where
      go_on :
          (o : Outcome) (r : Db × Option (List DeliveryResult))
          → Round service claimed now rows r
          → Round service claimed now (row ∷ rows) (
            r.0,
            elim r.1 as (λ _. Option (List DeliveryResult)) [
              | none ↦ none
              | some results ↦ some (shown row.delivery.id o ∷ results)
            ],
          )
      go_on o _ (finished db' results in_order rest) =
          finished db' (shown row.delivery.id o ∷ results) (ap (λ l. row.delivery.id ∷ l) in_order)
            rest
      go_on o _ (cut_short db' made' row' left is raises rest) =
          cut_short db' made' row' left is raises rest

      by_attempt :
          (a : Option Outcome)
          → attempt service row ≡ a
          → ((o : Outcome)
              → All
                  (Settled (made ++ row ∷ []) claimed now)
                  (record_result row.delivery.id now o db).deliveries
              → Round service claimed now rows
                  (deliver_all service rows now (record_result row.delivery.id now o db)))
          → Round service claimed now (row ∷ rows) (deliver_all service (row ∷ rows) now db)
      by_attempt none is more =
          rw (is, deliver_all) (cut_short db made row rows split (attempt-none row is) settled)
      by_attempt (some o) is more =
          rw (is, deliver_all)
            (go_on o _ (
              more o (
                record_result-Settled made row o db
                  (Rested-ne-delivering service.max_attempts o (attempt-Rested service row o is))
                  settled)))

-- A round of deliveries always ends. Either it has one result for each delivery that it claimed, in
-- their order, and none of these is on its way any more; or the POST for one of them has raised an
-- exception that the code does not expect, the deliveries claimed before it are made, and it and those
-- after it stay on their way since the claim.
pub deliver_due-Round :
    (service : Service) (stale now limit : ℕ) (db : Db)
    → let rows = due_rows stale now (max 1 (min limit 1000)) db in
      Round service rows now rows (deliver_due service stale now limit db)
unfolding deliver_due claim_due
deliver_due-Round service stale now limit db =
    let most = max 1 (min limit 1000) in
    let rows = due_rows stale now most db in
    deliver_all-Round service rows now [] rows (claim_due stale now most db).0 refl (
      All-map (Held (ids rows) now) (Settled [] rows now) (λ d held. unmade rows d held) _
        (claim_due-Held stale now most db))
  where
    unmade : (rows : List DueRow) (d : Delivery) → Held (ids rows) now d → Settled [] rows now d
    unmade rows d held = (λ is. cc, λ other is. ground (arith, held, is))
