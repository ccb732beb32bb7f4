-- ===== src/Qos/Targets.antt =====
-- The rows of a plan's targets in the table, and how they are found again.
use unifi_mcp.Base.{
  ℕ, ◌+◌, ◌<◌, String, ◌≡◌, refl, sym, ap, subst, ◌∙◌, inl, inr, Bool, true, false, List, [], ◌∷◌,
  ◌++◌, arith, eq_iff, eq_refl, ltb, str_eq, Bool-cases, ok, raise_if, bind-ok, append_nil, All,
  All-map,
}
use unifi_mcp.Base.Table.{
  select_where, count_where, insert_by, order_by, select_where-append, select_where-miss,
  select_where-hit,
}
use unifi_mcp.Qos.{
  Target, pending, Db, integrity_error, clashes, insert_targets, earlier, targets_of,
}

-- The rows of the targets, numbered from `position` on.
abbrev pub numbered : (token : String) (position : ℕ) → List String → List Target
numbered token position [] = []
numbered token position (key ∷ keys) =
    record { plan_token = token; client_key = key; position = position; status = pending }
    ∷ numbered token (position + 1) keys

append_assoc : {A : Type 0} (xs ys zs : List A) → (xs ++ ys) ++ zs ≡ xs ++ (ys ++ zs)
append_assoc [] ys zs = refl
append_assoc (x ∷ xs) ys zs = ap (λ l. x ∷ l) (append_assoc xs ys zs)

pub insert_targets-numbered :
    (token : String) (position : ℕ) (keys : List String) (table table' : List Target)
    → insert_targets token position keys table ≡ ok table'
    → table' ≡ table ++ numbered token position keys
unfolding insert_targets
insert_targets-numbered token position [] table table' h =
    let same : table ≡ table' = cc h in sym same ∙ sym (append_nil table)
insert_targets-numbered token position (key ∷ keys) table table' h =
    let row : Target = record {
      plan_token = token;
      client_key = key;
      position = position;
      status = pending;
    } in
    let (_, clear, h1) =
      bind-ok (raise_if (ltb 0 (count_where (clashes row) table)) integrity_error) _ h in
    insert_targets-numbered token (position + 1) keys (table ++ row ∷ []) table' h1
    ∙ append_assoc table (row ∷ []) (numbered token (position + 1) keys)

pub All-numbered :
    (token other : String) (b : Bool)
    → str_eq other token ≡ b
    → (position : ℕ) (keys : List String)
    → All (λ t. str_eq other t.plan_token ≡ b) (numbered token position keys)
All-numbered token other b e position [] = tt
All-numbered token other b e position (key ∷ keys) =
    (e, All-numbered token other b e (position + 1) keys)

order_by-numbered :
    (token : String) (position : ℕ) (keys : List String)
    → order_by earlier (numbered token position keys) ≡ numbered token position keys
unfolding order_by insert_by earlier
order_by-numbered token position [] = refl
order_by-numbered token position (key ∷ []) = refl
order_by-numbered token position (key ∷ key' ∷ keys) =
    rw (order_by-numbered token (position + 1) (key' ∷ keys)) (ground arith)

-- Every target belongs to a plan.
abbrev pub Owned : Db → Type 0
Owned db = All (λ t. 0 < count_where (λ p. str_eq t.plan_token p.token) db.plans) db.targets

pub no_target :
    (token : String) (db : Db)
    → Owned db
    → count_where (λ p. str_eq token p.token) db.plans ≡ 0
    → All (λ t. str_eq token t.plan_token ≡ false) db.targets
no_target token db owned fresh =
    All-map _ _
      (λ t h. elim (Bool-cases (str_eq token t.plan_token)) [
        | inr apart ↦ apart
        | inl hit ↦
            let same : token ≡ t.plan_token = ground (arith, hit, eq_iff token t.plan_token) in
            absurd (
              omega (
                arith,
                subst (λ k. count_where (λ p. str_eq k p.token) db.plans ≡ 0) same fresh,
                h,
              ))
      ])
      db.targets owned

pub targets_of-with_plan :
    (token : String) (keys : List String) (table : List Target)
    → All (λ t. str_eq token t.plan_token ≡ false) table
    → targets_of token (table ++ numbered token 0 keys) ≡ numbered token 0 keys
unfolding targets_of
targets_of-with_plan token keys table none_there =
    rw
      (
        select_where-append,
        select_where-miss _ table none_there,
        select_where-hit (λ t. str_eq token t.plan_token) (numbered token 0 keys)
            (All-numbered token token true (eq_refl token) 0 keys),
      )
      (order_by-numbered token 0 keys)

pub targets_of-with_other :
    (token other : String) (keys : List String) (table : List Target)
    → str_eq other token ≡ false
    → targets_of other (table ++ numbered token 0 keys) ≡ targets_of other table
unfolding targets_of
targets_of-with_other token other keys table apart =
    rw
      (
        select_where-append,
        select_where-miss (λ t. str_eq other t.plan_token) (numbered token 0 keys)
            (All-numbered token other false apart 0 keys),
        append_nil (select_where (λ t. str_eq other t.plan_token) table),
      )
      refl
