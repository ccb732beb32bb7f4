-- ===== src/Qos/Plans.antt =====
-- What a plan is after its creation.
use unifi_mcp.Base.{
  ℕ, ◌+◌, ◌≤◌, ◌<◌, String, ◌≡◌, refl, sym, ap, ◌∙◌, ◌≢◌, true, false, not, ◌||◌, Option, none,
  some, List, [], ◌∷◌, ◌++◌, arith, eq_iff, eq_refl, ltb, leb, ◌==◌, str_eq, if◌then◌else◌, ok, err,
  raise_if, bind-ok, length, All-map, All-append, elem, sorted_set,
}
use unifi_mcp.Base.Table.{
  count_where, find_where, count_where-append, find_where-append_none, find_where-append_miss,
}
use unifi_mcp.Qos.{
  Plan, Target, Db, bad_selector, bad_rate, no_targets, too_many_targets, integrity_error, expired,
  Shown, stable_keys, insert_targets, targets_of, get, Request, in_range, hour, planned_row, create,
  get_for_apply,
}
use unifi_mcp.Qos.Targets.{
  numbered, insert_targets-numbered, Owned, no_target, All-numbered, targets_of-with_plan,
  targets_of-with_other,
}

-- The tables after a creation.
abbrev pub with_plan : (hash token : String) (now : ℕ) → Request → List String → Db → Db
with_plan hash token now r targets db = record {
  plans = db.plans ++ planned_row r targets hash token now ∷ [];
  targets = db.targets ++ numbered token 0 targets;
}

-- What is known of the arguments of a creation that succeeds, and what it does.
pub record Created (stable : String → Option String) (hash_of : List String → String)
    (token : String) (now : ℕ) (r : Request) (db db' : Db) : Type 0 where
  pub keys : List String
  pub stabilized : stable_keys stable r.client_keys ≡ ok keys
  pub some_target : 1 ≤ length (sorted_set keys)
  pub few_targets : length (sorted_set keys) ≤ 1000
  pub download : (1 ≤ r.download_kbps) × (r.download_kbps ≤ 100000000)
  pub upload : (1 ≤ r.upload_kbps) × (r.upload_kbps ≤ 100000000)
  pub is_new : count_where (λ p. str_eq token p.token) db.plans ≡ 0
  pub tables : db' ≡ with_plan (hash_of (sorted_set keys)) token now r (sorted_set keys) db

create-Created :
    (stable : (controller site identity : String) → Option String) (hash_of : List String → String)
    (token : String) (now : ℕ) (r : Request) (db db' : Db)
    → create stable hash_of token now r db ≡ ok db'
    → Created (stable r.controller r.site) hash_of token now r db db'
unfolding create
create-Created stable hash_of token now r db db' h =
    let (_, selector, h1) =
      bind-ok (raise_if (not (elem r.selector_type ("client" ∷ "tag" ∷ "group" ∷ []))) bad_selector)
        _ h in
    let (_, rates, h2) =
      bind-ok (raise_if (not (in_range r.download_kbps) || not (in_range r.upload_kbps)) bad_rate) _
        h1 in
    let (keys, stabilized, h3) =
      bind-ok (stable_keys (stable r.controller r.site) r.client_keys) _ h2 in
    let (_, found, h4) = bind-ok (raise_if (length (sorted_set keys) == 0) no_targets) _ h3 in
    let (_, few, h5) =
      bind-ok (raise_if (ltb 1000 (length (sorted_set keys))) too_many_targets) _ h4 in
    let (_, new, h6) =
      bind-ok (raise_if (ltb 0 (count_where (λ p. str_eq token p.token) db.plans)) integrity_error)
        _ h5 in
    let (table, inserted, h7) =
      bind-ok (insert_targets token 0 (sorted_set keys) db.targets) _ h6 in
    let same : record {
      plans =
          db.plans ++ planned_row r (sorted_set keys) (hash_of (sorted_set keys)) token now ∷ [];
      targets = table;
    }
        ≡ db' =
      cc h7 in
    let rows = insert_targets-numbered token 0 (sorted_set keys) db.targets table inserted in
    record {
      keys = keys;
      stabilized = stabilized;
      some_target = ground (arith, found);
      few_targets = ground (arith, few);
      download = ground (arith, rates);
      upload = ground (arith, rates);
      is_new = ground (arith, new);
      tables =
          sym same
          ∙ ap
              (λ t. record {
                plans =
                    db.plans
                    ++ planned_row r (sorted_set keys) (hash_of (sorted_set keys)) token now ∷ [];
                targets = t;
              })
              rows;
    }

-- What is shown of a plan that was created with these targets.
abbrev pub new_plan : (hash token : String) (now : ℕ) → Request → List String → Shown
new_plan hash token now r targets = record {
  plan = planned_row r targets hash token now;
  targets = numbered token 0 targets;
}

module _ (hash token : String) (now : ℕ) (r : Request) (targets : List String) (db : Db)
    (owned : Owned db) where
  get-with_plan :
      count_where (λ p. str_eq token p.token) db.plans ≡ 0
      → get token (with_plan hash token now r targets db) ≡ some (new_plan hash token now r targets)
  unfolding get
  get-with_plan fresh =
      let row = planned_row r targets hash token now in
      let found : find_where (λ p. str_eq token p.token) (db.plans ++ row ∷ []) ≡ some row =
        find_where-append_none (λ p. str_eq token p.token) db.plans (row ∷ []) fresh
        ∙ (unfold find_where in ground (arith, eq_refl token)) in
      rw (found, get)
        (ap (λ ts. some (record { plan = row; targets = ts }))
          (targets_of-with_plan token targets db.targets (no_target token db owned fresh)))

  get-with_other :
      (other : String)
      → other ≢ token
      → get other (with_plan hash token now r targets db) ≡ get other db
  unfolding get
  get-with_other other apart =
      let row = planned_row r targets hash token now in
      let miss : str_eq other token ≡ false = ground (arith, apart, eq_iff other token) in
      let shown_with : List Target → Option Plan → Option Shown = λ ts found. elim found [
        | none ↦ none
        | some p ↦ some (record { plan = p; targets = ts })
      ] in
      ap (shown_with (targets_of other (db.targets ++ numbered token 0 targets)))
        (find_where-append_miss (λ p. str_eq other p.token) db.plans row miss)
      ∙ ap (λ ts. shown_with ts (find_where (λ p. str_eq other p.token) db.plans))
          (targets_of-with_other token other targets db.targets miss)

  Owned-with_plan : Owned (with_plan hash token now r targets db)
  Owned-with_plan =
      All-append _ db.targets (numbered token 0 targets)
        (All-map _ _
          (λ t h. omega (
            arith,
            h,
            count_where-append (λ p. str_eq t.plan_token p.token) db.plans
                (planned_row r targets hash token now ∷ []),
          ))
          db.targets owned)
        (All-map _ _
          (λ t h. omega (
            arith,
            count_where-append (λ p. str_eq t.plan_token p.token) db.plans
                (planned_row r targets hash token now ∷ []),
            counted t h,
          ))
          (numbered token 0 targets) (All-numbered token token true (eq_refl token) 0 targets))
    where
      counted :
          (t : Target)
          → str_eq token t.plan_token ≡ true
          → 0
            < count_where
                (λ p. str_eq t.plan_token p.token)
                (planned_row r targets hash token now ∷ [])
      counted t h =
          unfold count_where in
          ground (arith, h, eq_iff token t.plan_token, eq_iff t.plan_token token)

get_for_apply-some :
    (token : String) (later : ℕ) (db : Db) (shown : Shown)
    → get token db ≡ some shown
    → get_for_apply token later db
      ≡ (if leb shown.plan.expires_at later then err expired else ok shown)
unfolding get_for_apply
get_for_apply-some token later db shown h = rw (h, get_for_apply) refl

-- A plan that is created has between one and 1000 targets, the sorted set of the stable keys of
-- the requested clients; its token gives it, with these targets in order, for application until an
-- hour has passed, and not after; every other plan is given as before; and targets without a plan
-- are as impossible after it as before.
pub create-get :
    (stable : (controller site identity : String) → Option String) (hash_of : List String → String)
    (token : String) (now : ℕ) (r : Request) (db db' : Db)
    → Owned db
    → create stable hash_of token now r db ≡ ok db'
    → (keys : List String) × (stable_keys (stable r.controller r.site) r.client_keys ≡ ok keys)
      × (1 ≤ length (sorted_set keys))
      × (length (sorted_set keys) ≤ 1000)
      × (get token db' ≡ some (new_plan (hash_of (sorted_set keys)) token now r (sorted_set keys)))
      × ((later : ℕ)
          → get_for_apply token later db' ≡ (
              if leb (now + hour) later
              then err expired
              else ok (new_plan (hash_of (sorted_set keys)) token now r (sorted_set keys))))
      × ((other : String) → other ≢ token → get other db' ≡ get other db)
      × Owned db'
create-get stable hash_of token now r db db' owned h =
    let c = create-Created stable hash_of token now r db db' h in
    let targets = sorted_set c.keys in
    let hash = hash_of targets in
    let mine = get-with_plan hash token now r targets db owned c.is_new in
    rw (c.tables) (
      c.keys,
      c.stabilized,
      c.some_target,
      c.few_targets,
      mine,
      λ later. get_for_apply-some token later _ _ mine,
      λ other apart. get-with_other hash token now r targets db owned other apart,
      Owned-with_plan hash token now r targets db owned,
    )
