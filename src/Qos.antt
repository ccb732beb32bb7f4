-- ===== src/Qos.antt =====
-- runtime/qos.py: the plans of `QoSPlanRepository`. The stable key of a client, the hash and the token
-- are arguments.
pub mod Targets
pub mod Plans
mod Examples
use unifi_mcp.Base.{
  ℕ, ◌+◌, String, Bool, not, ◌&&◌, ◌||◌, Option, none, some, List, [], ◌∷◌, ◌++◌, ltb, leb, ◌==◌,
  str_eq, if◌then◌else◌, Result, ok, err, ◌>>=◌, ◌>>◌, raise_if, length, elem, sorted_set,
}
use unifi_mcp.Base.Table.{select_where, count_where, find_where, order_by}

pub data PlanStatus : Type 0 where
  planned applying complete partial : PlanStatus

pub data TargetStatus : Type 0 where
  pending applied failed : TargetStatus

-- A row of `client_qos_plans`.
pub record Plan : Type 0 where
  pub token : String
  pub controller : String
  pub site : String
  pub selector_type : String
  pub selector_value : String
  pub download_kbps : ℕ
  pub upload_kbps : ℕ
  pub targets_hash : String
  pub status : PlanStatus
  pub created_at : ℕ
  pub expires_at : ℕ

-- A row of `client_qos_targets`.
pub record Target : Type 0 where
  pub plan_token : String
  pub client_key : String
  pub position : ℕ
  pub status : TargetStatus

pub record Db : Type 0 where
  pub plans : List Plan
  pub targets : List Target

pub data QosError : Type 0 where
  bad_selector bad_rate bad_client_key no_targets too_many_targets integrity_error no_plan expired :
      QosError

-- What `get` shows of a plan: its row, and its targets in their order.
pub record Shown : Type 0 where
  pub plan : Plan
  pub targets : List Target

-- {stable_client_key(controller, site, client_key) for client_key in client_keys}
unfoldable pub stable_keys :
    (stable : String → Option String) → List String → Result QosError (List String)
stable_keys stable [] = ok []
stable_keys stable (k ∷ ks) = do
  key ← elim (stable k) [ none ↦ err bad_client_key | some s ↦ ok s ]
  keys ← stable_keys stable ks
  ok (key ∷ keys)

-- PRIMARY KEY (plan_token, client_key), UNIQUE (plan_token, position)
clashes : Target → Target → Bool
clashes t row =
    str_eq t.plan_token row.plan_token
    && (str_eq t.client_key row.client_key || t.position == row.position)

-- The `executemany`, from one position on.
unfoldable pub insert_targets :
    (token : String) (position : ℕ) → List String → List Target → Result QosError (List Target)
unfolding clashes
insert_targets token position [] table = ok table
insert_targets token position (key ∷ keys) table = do
  let row : Target = record {
    plan_token = token;
    client_key = key;
    position = position;
    status = pending;
  }
  raise_if (ltb 0 (count_where (clashes row) table)) integrity_error
  insert_targets token (position + 1) keys (table ++ row ∷ [])

earlier : Target → Target → Bool
earlier a b = leb a.position b.position

-- ORDER BY position
unfoldable pub targets_of : (token : String) → List Target → List Target
unfolding earlier
targets_of token table = order_by earlier (select_where (λ t. str_eq token t.plan_token) table)

unfoldable pub get : (token : String) → Db → Option Shown
unfolding targets_of
get token db = elim (find_where (λ p. str_eq token p.token) db.plans) [
  | none ↦ none
  | some plan ↦ some (record { plan = plan; targets = targets_of token db.targets })
]

-- The arguments of `create`.
pub record Request : Type 0 where
  pub controller : String
  pub site : String
  pub selector_type : String
  pub selector_value : String
  pub download_kbps : ℕ
  pub upload_kbps : ℕ
  pub client_keys : List String

abbrev pub in_range : ℕ → Bool
in_range rate = leb 1 rate && leb rate 100000000

-- `targets[0]`, for the selector of one client
abbrev pub selected : Request → List String → String
selected r [] = r.selector_value
selected r (t ∷ ts) = if str_eq r.selector_type "client" then t else r.selector_value

abbrev hour : ℕ
hour = 3600000000

abbrev pub planned_row : Request → List String → (hash token : String) (now : ℕ) → Plan
planned_row r targets hash token now = record {
  token = token;
  controller = r.controller;
  site = r.site;
  selector_type = r.selector_type;
  selector_value = selected r targets;
  download_kbps = r.download_kbps;
  upload_kbps = r.upload_kbps;
  targets_hash = hash;
  status = planned;
  created_at = now;
  expires_at = now + hour;
}

-- The tables after the transaction of `create`; it returns what `get` shows of the new plan.
unfoldable pub create :
    (stable : (controller site identity : String) → Option String) (hash_of : List String → String)
    (token : String) (now : ℕ)
    → Request
    → Db
    → Result QosError Db
unfolding stable_keys insert_targets
create stable hash_of token now r db = do
  raise_if (not (elem r.selector_type ("client" ∷ "tag" ∷ "group" ∷ []))) bad_selector
  raise_if (not (in_range r.download_kbps) || not (in_range r.upload_kbps)) bad_rate
  keys ← stable_keys (stable r.controller r.site) r.client_keys
  let targets = sorted_set keys
  raise_if (length targets == 0) no_targets
  raise_if (ltb 1000 (length targets)) too_many_targets
  raise_if (ltb 0 (count_where (λ p. str_eq token p.token) db.plans)) integrity_error
  table ← insert_targets token 0 targets db.targets
  ok (record {
    plans = db.plans ++ planned_row r targets (hash_of targets) token now ∷ [];
    targets = table;
  })

-- `get_for_apply`, at the time `now`
unfoldable pub get_for_apply : (token : String) (now : ℕ) → Db → Result QosError Shown
unfolding get
get_for_apply token now db = elim (get token db) [
  | none ↦ err no_plan
  | some shown ↦ if leb shown.plan.expires_at now then err expired else ok shown
]
