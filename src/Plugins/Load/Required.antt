-- ===== src/Plugins/Load/Required.antt =====
-- What has become of the required plugins when loading returns.
use unifi_mcp.Base.{
  String, ◌≡◌, refl, sym, ◌⊎◌, inl, inr, Bool, true, false, not, ◌&&◌, ◌||◌, List, [], ◌∷◌, ◌++◌,
  arith, eq_iff, eq_refl, str_eq, Bool-cases, Option-cases, ok, raise_if, bind-ok, append_nil, elem,
}
use unifi_mcp.Plugins.{empty_registry, PluginError, required_duplicated, required_missing}
use unifi_mcp.Plugins.Load.{
  EntryPoint, Reason, State, loaded, skipped, failed, PluginStatus, PluginManager, names,
  duplicates_of, intersects, within, failure, success, skip, duplicate_statuses, failing,
  staged_and_merged, is_compatible, load_entry, Policy, visit, visit_all, load,
}

abbrev is_loaded : State → Bool
is_loaded loaded = true
is_loaded skipped = false
is_loaded failed = false

-- A status says that the plugin is loaded.
abbrev pub has_loaded : String → List PluginStatus → Bool
has_loaded n [] = false
has_loaded n (s ∷ ss) = (str_eq s.name n && is_loaded s.state) || has_loaded n ss

has_loaded-append :
    (n : String) (xs ys : List PluginStatus)
    → has_loaded n (xs ++ ys) ≡ (has_loaded n xs || has_loaded n ys)
has_loaded-append n [] ys = refl
has_loaded-append n (x ∷ xs) ys = ground (arith, has_loaded-append n xs ys)

-- A step of the loop adds to the statuses.
Appends : PluginManager → PluginManager → Type 0
Appends m m' = (s : List PluginStatus) × (m'.statuses ≡ m.statuses ++ s)

failing-Appends :
    (is_required : Bool) (e : PluginError) (name : String) (reason : Reason) (m m' : PluginManager)
    → failing is_required e name reason m ≡ ok m'
    → (is_required ≡ false) × Appends m m'
unfolding failing Appends
failing-Appends true e name reason m m' h = cc
failing-Appends false e name reason m m' h =
    let same : record m { statuses = m.statuses ++ failure name reason ∷ [] } ≡ m' = cc h in
    (refl, (failure name reason ∷ [], rw (← same) refl))

-- The plugin is loaded, or a failure of one that is not required is recorded.
load_entry-Appends :
    (is_required : Bool) (core : List String) (e : EntryPoint) (m m' : PluginManager)
    → load_entry is_required core e m ≡ ok m'
    → ((is_required ≡ false) × Appends m m')
      ⊎ (m'.statuses ≡ m.statuses ++ success e.name is_required ∷ [])
unfolding load_entry
load_entry-Appends is_required core e m m' h = elim (Option-cases e.load) [
  | inl raises ↦ inl (failing-Appends is_required _ _ _ m m' (rw (raises, load_entry) at h))
  | inr (plugin, imported) ↦ elim (Bool-cases (is_compatible plugin)) [
    | inr old ↦ inl (failing-Appends is_required _ _ _ m m' (rw (imported, old, load_entry) at h))
    | inl current ↦ elim (Option-cases (staged_and_merged plugin m.registry core)) [
      | inl refused ↦ inl (
          failing-Appends is_required _ _ _ m m' (rw (imported, current, refused, load_entry) at h))
      | inr (r, merges) ↦
          let same : record {
            registry = r;
            statuses = m.statuses ++ success e.name is_required ∷ [];
          }
              ≡ m' =
            cc (rw (imported, current, merges, load_entry) at h) in
          inr (rw (← same) refl)
    ]
  ]
]

abbrev Kept : String → PluginManager → PluginManager → Type 0
Kept n m m' = has_loaded n m.statuses ≡ true → has_loaded n m'.statuses ≡ true

Appends-Kept : (n : String) (m m' : PluginManager) → Appends m m' → Kept n m m'
unfolding Appends
Appends-Kept n m m' (s, e) held = ground (arith, e, held, has_loaded-append n m.statuses s)

visit-Appends :
    (p : Policy) (duplicates : List String) (e : EntryPoint) (m m' : PluginManager)
    → visit p duplicates e m ≡ ok m'
    → Appends m m'
unfolding visit Appends
visit-Appends p duplicates e m m' h = elim (Bool-cases (elem e.name duplicates)) [
  | inl twice ↦
      let same : m ≡ m' = cc (rw (twice, visit) at h) in
      ([], rw (← same) (sym (append_nil m.statuses)))
  | inr once ↦ elim (Bool-cases (elem e.name p.allowlist)) [
    | inr unlisted ↦
        let same : record m { statuses = m.statuses ++ skip e.name (elem e.name p.required) ∷ [] }
            ≡ m' =
          cc (rw (once, unlisted, visit) at h) in
        (skip e.name (elem e.name p.required) ∷ [], rw (← same) refl)
    | inl listed ↦
        elim (load_entry-Appends (elem e.name p.required) p.core_tool_names e m m'
          (rw (once, listed, visit) at h)) [
            | inl (optional, appends) ↦ appends
            | inr loads ↦ (success e.name (elem e.name p.required) ∷ [], loads)
          ]
  ]
]

visit-has_loaded :
    (p : Policy) (duplicates : List String) (e : EntryPoint) (m m' : PluginManager)
    → elem e.name duplicates ≡ false
    → elem e.name p.allowlist ≡ true
    → elem e.name p.required ≡ true
    → visit p duplicates e m ≡ ok m'
    → has_loaded e.name m'.statuses ≡ true
unfolding visit
visit-has_loaded p duplicates e m m' once listed is_required h =
    elim (load_entry-Appends (elem e.name p.required) p.core_tool_names e m m'
      (rw (once, listed, visit) at h)) [
        | inl (optional, appends) ↦ cc
        | inr loads ↦ ground (
          arith,
          loads,
          has_loaded-append e.name m.statuses (success e.name (elem e.name p.required) ∷ []),
          eq_refl e.name,
        )
      ]

visit_all-Kept :
    (p : Policy) (duplicates : List String) (n : String) (es : List EntryPoint)
    (m m' : PluginManager)
    → visit_all p duplicates es m ≡ ok m'
    → Kept n m m'
unfolding visit_all
visit_all-Kept p duplicates n [] m m' h held = let same : m ≡ m' = cc h in rw (← same) held
visit_all-Kept p duplicates n (e ∷ es) m m' h held =
    let (next, visited, others) = bind-ok (visit p duplicates e m) _ h in
    visit_all-Kept p duplicates n es next m' others
      (Appends-Kept n m next (visit-Appends p duplicates e m next visited) held)

visit_all-has_loaded :
    (p : Policy) (duplicates : List String) (n : String) (es : List EntryPoint)
    (m m' : PluginManager)
    → elem n duplicates ≡ false
    → elem n p.allowlist ≡ true
    → elem n p.required ≡ true
    → elem n (names es) ≡ true
    → visit_all p duplicates es m ≡ ok m'
    → has_loaded n m'.statuses ≡ true
unfolding visit_all
visit_all-has_loaded p duplicates n [] m m' once listed is_required found h = cc
visit_all-has_loaded p duplicates n (e ∷ es) m m' once listed is_required found h =
    let (next, visited, others) = bind-ok (visit p duplicates e m) _ h in
    elim (Bool-cases (str_eq e.name n)) [
      | inr apart ↦
          visit_all-has_loaded p duplicates n es next m' once listed is_required
            (ground (arith, found, apart)) others
      | inl hit ↦
          let named : e.name ≡ n = ground (arith, hit, eq_iff e.name n) in
          visit_all-Kept p duplicates n es next m' others (
            rw (← named) (
              visit-has_loaded p duplicates e m next (rw named once) (rw named listed)
                (rw named is_required) visited))
    ]

elem-within :
    (n : String) (xs ys : List String) → within xs ys ≡ true → elem n xs ≡ true → elem n ys ≡ true
unfolding within
elem-within n [] ys h k = cc
elem-within n (x ∷ xs) ys h k = ground (arith, h, k, eq_iff x n, elem-within n xs ys)

elem-intersects :
    (n : String) (xs ys : List String)
    → intersects xs ys ≡ false
    → elem n ys ≡ true
    → elem n xs ≡ false
unfolding intersects
elem-intersects n [] ys h k = refl
elem-intersects n (x ∷ xs) ys h k = ground (arith, h, k, eq_iff x n, elem-intersects n xs ys)

-- When loading returns, every required plugin that is allowlisted is loaded: it was found, found
-- once, imported, of the right version, and registered. (The settings refuse a required plugin that
-- is not allowlisted.)
pub load-has_loaded :
    (p : Policy) (discovered : List EntryPoint) (m : PluginManager)
    → load p discovered ≡ ok m
    → (n : String) → elem n p.required ≡ true
    → elem n p.allowlist ≡ true
    → has_loaded n m.statuses ≡ true
unfolding load
load-has_loaded p discovered m h n is_required listed =
    let duplicates = duplicates_of discovered p.allowlist in
    let (_, once, h1) =
      bind-ok (raise_if (intersects duplicates p.required) required_duplicated) _ h in
    let (m', visited, h2) =
      bind-ok
        (visit_all p duplicates discovered
          (record { registry = empty_registry; statuses = duplicate_statuses duplicates }))
        _ h1 in
    let (_, found, h3) =
      bind-ok (raise_if (not (within p.required (names discovered))) required_missing) _ h2 in
    let same : m' ≡ m = cc h3 in
    rw (← same) (
      visit_all-has_loaded p duplicates n discovered _ m'
        (elem-intersects n duplicates p.required (ground (arith, once)) is_required) listed
        is_required
        (elem-within n p.required (names discovered) (ground (arith, found)) is_required) visited)
