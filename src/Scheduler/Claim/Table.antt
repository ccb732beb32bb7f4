-- ===== src/Scheduler/Claim/Table.antt =====
-- What `_claim_due` does to each row of `schedules`.
use unifi_mcp.Base.{
  Bool, ℕ, ◌+◌, ◌≤◌, ◌<◌, String, ◌≡◌, refl, ◌⊎◌, inl, inr, true, false, ◌&&◌, List, [], ◌∷◌, arith,
  Bool-cases, leb, length, All, elem,
}
use unifi_mcp.Base.Table.{update_where}
use unifi_mcp.Scheduler.{Schedule, Db}
use unifi_mcp.Scheduler.Claim.{stale_schedule, release_stale, claim, ids, claim_due}
use unifi_mcp.Scheduler.Claim.Exclusion.{claim_due-All, claim_due-table}

-- What becomes of a row: it is claimed, it is released from a stale claim, or it stays as it is.
pub data Moves (claimed : List String) (stale_run now : ℕ) (s t : Schedule) : Type 0 where
  claims :
      elem s.id claimed ≡ true
      → t ≡ record s { running = true; updated_at = now }
      → Moves claimed stale_run now s t
  releases :
      elem s.id claimed ≡ false
      → s.running ≡ true
      → s.updated_at + stale_run ≤ now
      → t ≡ record s { running = false; updated_at = now }
      → Moves claimed stale_run now s t
  keeps :
      elem s.id claimed ≡ false
      → (s.running ≡ false) ⊎ (now < s.updated_at + stale_run)
      → t ≡ s
      → Moves claimed stale_run now s t

-- Each row of the one table becomes the one that stands at its place in the other.
abbrev pub Moved : List String → (stale_run now : ℕ) → List Schedule → List Schedule → Type 0
Moved claimed stale_run now [] [] = Unit {0}
Moved claimed stale_run now (s ∷ ss) (t ∷ ts) =
    Moves claimed stale_run now s t × Moved claimed stale_run now ss ts
Moved claimed stale_run now _ _ = ⊥

is_young :
    (stale_run now : ℕ) (s : Schedule) (running : Bool)
    → s.running ≡ running
    → (s.running && leb (s.updated_at + stale_run) now) ≡ false
    → (s.running ≡ false) ⊎ (now < s.updated_at + stale_run)
is_young stale_run now s true is h = inr (ground (arith, is, h))
is_young stale_run now s false is h = inl is

update_where-Moved :
    (claimed : List String) (stale_run now : ℕ) (table : List Schedule)
    → Moved claimed stale_run now table
        (update_where (λ s. elem s.id claimed) (claim now) (release_stale stale_run now table))
unfolding release_stale update_where stale_schedule
update_where-Moved claimed stale_run now [] = tt
update_where-Moved claimed stale_run now (s ∷ ss) =
    let rest = update_where-Moved claimed stale_run now ss in
    elim (Bool-cases (s.running && leb (s.updated_at + stale_run) now)) [
      | inl old ↦ elim (Bool-cases (elem s.id claimed)) [
        | inl is ↦ rw old (rw is (claims is refl, rest))
        | inr other ↦
            rw old
              (rw other (releases other (ground (arith, old)) (ground (arith, old)) refl, rest))
      ]
      | inr young ↦ elim (Bool-cases (elem s.id claimed)) [
        | inl is ↦ rw young (rw is (claims is refl, rest))
        | inr other ↦
            rw young
              (rw other (keeps other (is_young stale_run now s s.running refl young) refl, rest))
      ]
    ]

-- `_claim_due` returns at most `limit` schedules, each enabled, due and shown as running. It marks
-- exactly the rows with their ids as running since now; of the others it releases those whose claim
-- is as old as `stale_run`, and it leaves every other row as it was.
pub claim_due-Moved :
    (stale_run now limit : ℕ) (db : Db)
    → let (db', claimed) = claim_due stale_run now limit db in
      Moved (ids claimed) stale_run now db.schedules db'.schedules
      × All (λ s. (s.enabled ≡ true) × (s.running ≡ true) × (s.next_run_at ≤ now)) claimed
      × (length claimed ≤ limit)
claim_due-Moved stale_run now limit db = (
  rw claim_due-table
      (update_where-Moved (ids (claim_due stale_run now limit db).1) stale_run now db.schedules),
  (claim_due-All stale_run now limit db).0,
  (claim_due-All stale_run now limit db).1,
)
