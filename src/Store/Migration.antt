-- ===== src/Store/Migration.antt =====
-- What a migration leaves.
use unifi_mcp.Base.{
  ℕ, ◌≤◌, max, String, ◌≡◌, refl, inl, inr, true, false, not, List, [], ◌∷◌, ◌++◌, arith, eq_refl,
  ltb, if◌then◌else◌, Bool-cases, ok, raise_if, bind-ok, elem,
}
use unifi_mcp.Store.{
  Database, Statement, create_table, create_index, operational_error, integrity_error, newer_schema,
  execute, execute_all, apply_v2, apply_v3, apply_v4, ensure, max_version, has_version, upgrade,
  base_tables, migrate,
}

max_version-append : (vs : List ℕ) (v : ℕ) → max_version (vs ++ v ∷ []) ≡ max (max_version vs) v
unfolding max_version
max_version-append [] v = omega arith
max_version-append (x ∷ xs) v = omega (arith, max_version-append xs v)

upgrade-max_version :
    (target : ℕ) (statements : List Statement) (current : ℕ) (d d' : Database)
    → upgrade target statements current d ≡ ok d'
    → max_version d'.versions
      ≡ (if ltb current target then max (max_version d.versions) target else max_version d.versions)
unfolding upgrade
upgrade-max_version target statements current d d' h = elim (Bool-cases (ltb current target)) [
  | inr there ↦ let same : d ≡ d' = cc (rw (there, upgrade) at h) in rw (← same, there) refl
  | inl old ↦
      let (names, created, h1) =
        bind-ok (execute_all statements d.names) _ (rw (old, upgrade) at h) in
      let (_, new, h2) = bind-ok (raise_if (has_version target d.versions) integrity_error) _ h1 in
      let same : record { versions = d.versions ++ target ∷ []; names = names } ≡ d' = cc h2 in
      rw (← same, old) (max_version-append d.versions target)
]

-- The names that the statements keep.
Keeps : List String → List String → Type 0
Keeps names names' = (n : String) → elem n names ≡ true → elem n names' ≡ true

elem-append_true : (n : String) (xs ys : List String) → elem n xs ≡ true → elem n (xs ++ ys) ≡ true
elem-append_true n [] ys h = cc
elem-append_true n (x ∷ xs) ys h = ground (arith, h, elem-append_true n xs ys)

execute-Keeps :
    (s : Statement) (names names' : List String) → execute s names ≡ ok names' → Keeps names names'
unfolding execute Keeps
execute-Keeps (create_table name) names names' h n held =
    let (_, new, h1) = bind-ok (raise_if (elem name names) operational_error) _ h in
    let same : names ++ name ∷ [] ≡ names' = cc h1 in
    rw (← same) (elem-append_true n names (name ∷ []) held)
execute-Keeps (create_index name table) names names' h n held =
    let (_, new, h1) = bind-ok (raise_if (elem name names) operational_error) _ h in
    let (_, there, h2) = bind-ok (raise_if (not (elem table names)) operational_error) _ h1 in
    let same : names ++ name ∷ [] ≡ names' = cc h2 in
    rw (← same) (elem-append_true n names (name ∷ []) held)

execute_all-Keeps :
    (ss : List Statement) (names names' : List String)
    → execute_all ss names ≡ ok names'
    → Keeps names names'
unfolding execute_all Keeps
execute_all-Keeps [] names names' h n held = let same : names ≡ names' = cc h in rw (← same) held
execute_all-Keeps (s ∷ ss) names names' h n held =
    let (next, first, others) = bind-ok (execute s names) _ h in
    execute_all-Keeps ss next names' others n (execute-Keeps s names next first n held)

upgrade-Keeps :
    (target : ℕ) (statements : List Statement) (current : ℕ) (d d' : Database)
    → upgrade target statements current d ≡ ok d'
    → Keeps d.names d'.names
unfolding upgrade Keeps
upgrade-Keeps target statements current d d' h n held = elim (Bool-cases (ltb current target)) [
  | inr there ↦ let same : d ≡ d' = cc (rw (there, upgrade) at h) in rw (← same) held
  | inl old ↦
      let (names, created, h1) =
        bind-ok (execute_all statements d.names) _ (rw (old, upgrade) at h) in
      let (_, new, h2) = bind-ok (raise_if (has_version target d.versions) integrity_error) _ h1 in
      let same : record { versions = d.versions ++ target ∷ []; names = names } ≡ d' = cc h2 in
      rw (← same) (execute_all-Keeps statements d.names names created n held)
]

elem-ensure : (n : String) (names : List String) → elem n (ensure n names) ≡ true
elem-ensure n names = elim (Bool-cases (elem n names)) [
  | inl held ↦ rw held held
  | inr missing ↦ rw missing (elem-last names)
]
  where
    elem-last : (xs : List String) → elem n (xs ++ n ∷ []) ≡ true
    elem-last [] = ground (arith, eq_refl n)
    elem-last (x ∷ xs) = ground (arith, elem-last xs)

ensure-Keeps : (name : String) (names : List String) → Keeps names (ensure name names)
unfolding Keeps
ensure-Keeps name names n held = elim (Bool-cases (elem name names)) [
  | inl there ↦ rw there held
  | inr missing ↦ rw missing (elem-append_true n names (name ∷ []) held)
]

-- The tables that every version has are there.
abbrev HasBase : List String → Type 0
HasBase names = (elem "schema_migrations" names ≡ true) × (elem "runtime_metadata" names ≡ true)

base_tables-HasBase : (names : List String) → HasBase (base_tables names)
unfolding Keeps
base_tables-HasBase names = (
  ensure-Keeps "runtime_metadata" (ensure "schema_migrations" names) "schema_migrations"
      (elem-ensure "schema_migrations" names),
  elem-ensure "runtime_metadata" (ensure "schema_migrations" names),
)

base_tables-same : (names : List String) → HasBase names → base_tables names ≡ names
base_tables-same names (schema, metadata) = rw (schema, metadata) refl

upgrade_skipped :
    (target : ℕ) (statements : List Statement) (d : Database)
    → target ≤ 4
    → upgrade target statements 4 d ≡ ok d
unfolding upgrade
upgrade_skipped target statements d le =
    let there : ltb 4 target ≡ false = ground (arith, le) in rw (there, upgrade) refl

migrate_again : (d : Database) → max_version d.versions ≡ 4 → HasBase d.names → migrate d ≡ ok d
unfolding migrate
migrate_again d current base =
    rw
      (
        current,
        base_tables-same d.names base,
        upgrade_skipped 1 [] d (omega arith),
        upgrade_skipped 2 apply_v2 d (omega arith),
        upgrade_skipped 3 apply_v3 d (omega arith),
        upgrade_skipped 4 apply_v4 d (omega arith),
      )
      refl

-- A migration succeeds only on a schema that is not newer than version 4; it leaves the schema at
-- version 4, with every table and index that was there before; and on what it leaves, another
-- migration changes nothing.
pub migrate-migrate :
    (d d' : Database)
    → migrate d ≡ ok d'
    → (max_version d.versions ≤ 4)
      × (max_version d'.versions ≡ 4)
      × (migrate d' ≡ ok d')
      × ((n : String) → elem n d.names ≡ true → elem n d'.names ≡ true)
unfolding migrate Keeps
migrate-migrate d d' h =
    let current = max_version d.versions in
    let start : Database = record d { names = base_tables d.names } in
    let (_, old, h0) = bind-ok (raise_if (ltb 4 current) newer_schema) _ h in
    let (d1, v1, h1) = bind-ok (upgrade 1 [] current start) _ h0 in
    let (d2, v2, h2) = bind-ok (upgrade 2 apply_v2 current d1) _ h1 in
    let (d3, v3, h3) = bind-ok (upgrade 3 apply_v3 current d2) _ h2 in
    let keeps : Keeps start.names d'.names = λ n held. upgrade-Keeps 4 apply_v4 current d3 d' h3 n (
      upgrade-Keeps 3 apply_v3 current d2 d3 v3 n (
        upgrade-Keeps 2 apply_v2 current d1 d2 v2 n
          (upgrade-Keeps 1 [] current start d1 v1 n held))) in
    let at_4 : max_version d'.versions ≡ 4 = ground (
      arith,
      old,
      upgrade-max_version 1 [] current start d1 v1,
      upgrade-max_version 2 apply_v2 current d1 d2 v2,
      upgrade-max_version 3 apply_v3 current d2 d3 v3,
      upgrade-max_version 4 apply_v4 current d3 d' h3,
    ) in
    let base = base_tables-HasBase d.names in
    (
      ground (arith, old),
      at_4,
      migrate_again d' at_4 (keeps "schema_migrations" base.0, keeps "runtime_metadata" base.1),
      λ n held.
          keeps n
            (ensure-Keeps "runtime_metadata" _ n (ensure-Keeps "schema_migrations" d.names n held)),
    )
