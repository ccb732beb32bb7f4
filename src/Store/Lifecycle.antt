-- ===== src/Store/Lifecycle.antt =====
-- When a store runs transactions, on which schema, and what they leave.
use unifi_mcp.Base.{
  if◌then◌else◌, ◌≡◌, refl, ◌⊎◌, inl, inr, Bool, true, false, Option, none, some, Result, ok, err,
}
use unifi_mcp.Store.{
  Database, StoreError, operational_error, closed, max_version, migrate, RuntimeStore, open_store,
  close_store, Raised, store_error, body_error, finish, transaction,
}
use unifi_mcp.Store.Migration.{migrate-migrate}

module _ {Rows : Type 0} where
  -- One operation of the store.
  pub data Step : RuntimeStore Rows → RuntimeStore Rows → Type 1 where
    opens : (connects : Bool) (s : RuntimeStore Rows) → Step s (open_store connects s).0
    closes : (s : RuntimeStore Rows) → Step s (close_store s)
    transacts :
        {E A : Type 0} (begins commits : Bool) (body : Rows → Rows × Result E A)
        (s : RuntimeStore Rows)
        → Step s (transaction begins commits body s).0

  -- The stores that come from a closed one on some file.
  pub data Reachable : RuntimeStore Rows → Type 1 where
    start :
        (schema : Database) (rows : Rows)
        → Reachable (record { connected = false; schema = schema; rows = rows; unfinished = none })
    next : {s t : RuntimeStore Rows} → Reachable s → Step s t → Reachable t

  -- How a transaction ends: it is refused, it does not begin, its body raises and it is rolled back, it
  -- returns, or it cannot be committed.
  pub data Ends {E A : Type 0} (begins commits : Bool) (body : Rows → Rows × Result E A)
      (s : RuntimeStore Rows) : RuntimeStore Rows × Result (Raised E) A → Type 0 where
    refused : s.connected ≡ false → Ends begins commits body s (s, err (store_error closed))
    not_begun :
        (begins ≡ false) ⊎ ((rows : Rows) × (s.unfinished ≡ some rows))
        → Ends begins commits body s (s, err (store_error operational_error))
    rolled_back :
        (rows : Rows) (e : E)
        → body s.rows ≡ (rows, err e)
        → s.unfinished ≡ none
        → Ends begins commits body s (s, err (body_error e))
    returned :
        (rows : Rows) (a : A)
        → body s.rows ≡ (rows, ok a)
        → max_version s.schema.versions ≡ 4
        → s.unfinished ≡ none
        → Ends begins commits body s (record s { rows = rows }, ok a)
    not_committed :
        (rows : Rows) (a : A)
        → body s.rows ≡ (rows, ok a)
        → commits ≡ false
        → s.unfinished ≡ none
        → Ends begins commits body s
            (record s { unfinished = some rows }, err (store_error operational_error))

  -- A connected store has the current schema.
  abbrev pub IsCurrent : RuntimeStore Rows → Type 0
  IsCurrent s = (s.connected ≡ false) ⊎ (max_version s.schema.versions ≡ 4)

  abbrev store : Bool → Database → Rows → Option Rows → RuntimeStore Rows
  store connected schema rows unfinished = record {
    connected = connected;
    schema = schema;
    rows = rows;
    unfinished = unfinished;
  }

  open_store-IsCurrent :
      (connects connected : Bool) (schema : Database) (rows : Rows) (unfinished : Option Rows)
      → IsCurrent (store connected schema rows unfinished)
      → IsCurrent (open_store connects (store connected schema rows unfinished)).0
  unfolding open_store
  open_store-IsCurrent connects true schema rows unfinished current = current
  open_store-IsCurrent false false schema rows unfinished current = inl refl
  open_store-IsCurrent true false schema rows unfinished current =
      by_migration (migrate schema) refl
    where
      by_migration :
          (r : Result StoreError Database)
          → migrate schema ≡ r
          → IsCurrent (open_store true (store false schema rows unfinished)).0
      by_migration (err e) h = rw (h, open_store) (inl refl)
      by_migration (ok d) h = rw (h, open_store) (inr (migrate-migrate schema d h).1)

  module _ {E A : Type 0} (commits : Bool) (body : Rows → Rows × Result E A) where
    -- The end of a transaction that has begun.
    finish-Ends :
        (schema : Database) (rows : Rows)
        → max_version schema.versions ≡ 4
        → (left : Rows × Result E A) → body rows ≡ left
        → Ends true commits body
            (store true schema rows none)
            (finish commits (store true schema rows none) left)
    unfolding finish
    finish-Ends schema rows current (left, err e) ran = rolled_back left e ran refl
    finish-Ends schema rows current (left, ok a) ran = by_commit commits refl
      where
        by_commit :
            (c : Bool)
            → commits ≡ c
            → Ends true commits body (store true schema rows none) (
                if c
                then (store true schema left none, ok a)
                else (store true schema rows (some left), err (store_error operational_error)))
        by_commit true is = returned left a ran current refl
        by_commit false is = not_committed left a ran is refl

    transaction-Ends :
        (begins connected : Bool) (schema : Database) (rows : Rows) (unfinished : Option Rows)
        → IsCurrent (store connected schema rows unfinished)
        → Ends begins commits body
            (store connected schema rows unfinished)
            (transaction begins commits body (store connected schema rows unfinished))
    unfolding transaction
    transaction-Ends begins false schema rows unfinished current = refused refl
    transaction-Ends begins true schema rows (some left) current = not_begun (inr (left, refl))
    transaction-Ends false true schema rows none current = not_begun (inl refl)
    transaction-Ends true true schema rows none (inl off) = cc
    transaction-Ends true true schema rows none (inr current) =
        finish-Ends schema rows current (body rows) refl

  Ends-IsCurrent :
      {E A : Type 0} {begins commits : Bool} {body : Rows → Rows × Result E A}
      (s : RuntimeStore Rows) (r : RuntimeStore Rows × Result (Raised E) A)
      → Ends begins commits body s r
      → IsCurrent s
      → IsCurrent r.0
  Ends-IsCurrent s _ (refused off) current = current
  Ends-IsCurrent s _ (not_begun why) current = current
  Ends-IsCurrent s _ (rolled_back rows e ran none_open) current = current
  Ends-IsCurrent s _ (returned rows a ran version none_open) current = current
  Ends-IsCurrent s _ (not_committed rows a ran fails none_open) current = current

  Step-IsCurrent : (s t : RuntimeStore Rows) → Step s t → IsCurrent s → IsCurrent t
  unfolding close_store
  Step-IsCurrent s _ (opens connects _) current =
      open_store-IsCurrent connects s.connected s.schema s.rows s.unfinished current
  Step-IsCurrent s _ (closes _) current = inl refl
  Step-IsCurrent s _ (transacts begins commits body _) current =
      Ends-IsCurrent s (transaction begins commits body s)
        (transaction-Ends commits body begins s.connected s.schema s.rows s.unfinished current)
        current

  reachable-IsCurrent : (s : RuntimeStore Rows) → Reachable s → IsCurrent s
  reachable-IsCurrent _ (start schema rows) = inl refl
  reachable-IsCurrent _ (next r step) = Step-IsCurrent _ _ step (reachable-IsCurrent _ r)

  -- Whatever was opened, closed and run before, and whatever failed: a transaction returns only after
  -- its body has run on the rows of the store, on a schema at version 4 and inside no other transaction,
  -- and then what the body left is stored. If the body raises, nothing that it changed is stored; a
  -- closed store and a transaction that does not begin leave the store as it was; and if the commit
  -- fails, nothing is stored and the transaction stays unfinished, inside of which no other begins.
  pub transaction-Reachable :
      {E A : Type 0} (begins commits : Bool) (body : Rows → Rows × Result E A)
      (s : RuntimeStore Rows)
      → Reachable s
      → Ends begins commits body s (transaction begins commits body s)
  transaction-Reachable begins commits body s reached =
      transaction-Ends commits body begins s.connected s.schema s.rows s.unfinished
        (reachable-IsCurrent s reached)
