-- ===== src/Authorization/Policy.antt =====
-- What a tool call must bring, and what the audit of the tools adds.
use unifi_mcp.Base.{
  String, ◌≡◌, refl, ap, ◌⊎◌, inl, inr, Bool, true, false, ◌&&◌, ◌||◌, Option, none, some, List, [],
  ◌∷◌, ◌++◌, arith, eq_iff, eq_refl, str_eq, if◌then◌else◌, Bool-cases, Option-cases, ok, All,
  All-map, elem,
}
use unifi_mcp.Base.Dict.{get_item, set_item, get_item-set_item}
use unifi_mcp.Authorization.{
  is_write_tool, ScopeAuthorizer, add_plugin_tool, add, needs_write, needs_admin, required_scopes,
  Tool, says_read_only, is_unclassified, unclassified, audit_tools, Context, tool_name, subset,
  insufficient, call,
}

elem-append : (k : String) (xs ys : List String) → elem k (xs ++ ys) ≡ (elem k xs || elem k ys)
elem-append k [] ys = refl
elem-append k (x ∷ xs) ys = ground (arith, elem-append k xs ys)

elem-subset :
    (s : String) (required scopes : List String)
    → subset required scopes ≡ true
    → elem s required ≡ true
    → elem s scopes ≡ true
unfolding subset
elem-subset s [] scopes h k = cc
elem-subset s (r ∷ rs) scopes h k = ground (arith, eq_iff r s, elem-subset s rs scopes)

elem-add :
    (b : Bool) (k x : String) (xs : List String)
    → elem k (if b then add x xs else xs) ≡ (elem k xs || (b && str_eq x k))
elem-add b k x xs = ground (arith, elem-append k xs (x ∷ []), eq_iff x k)

-- A tool requires a scope if and only if the scope is the read scope, or it is the write scope and
-- the tool is one of the write tools or a plugin's for write or admin, or it is the admin scope and
-- the tool is one of the admin tools or a plugin's for admin.
pub elem-required_scopes :
    (auth : ScopeAuthorizer) (name scope : String)
    → elem scope (required_scopes auth name) ≡ (
        str_eq auth.read_scope scope
        || ((needs_write auth name && str_eq auth.write_scope scope)
            || (needs_admin auth name && str_eq auth.admin_scope scope)))
unfolding required_scopes
elem-required_scopes auth name scope =
    let read = auth.read_scope ∷ [] in
    ground (
      arith,
      elem-add (needs_write auth name) scope auth.write_scope read,
      elem-add (needs_admin auth name) scope auth.admin_scope
          (if needs_write auth name then add auth.write_scope read else read),
    )

-- What a call has shown when it goes on: it is none of a tool, or its token has all that the tool
-- requires.
pub data Authorized (auth : ScopeAuthorizer) (token : Option (List String)) (ctx : Context)
    : Type 0 where
  no_tool : tool_name ctx ≡ none → Authorized auth token ctx
  has_scopes :
      (name : String) (scopes : List String)
      → tool_name ctx ≡ some name
      → token ≡ some scopes
      → ((scope : String)
          → elem scope (required_scopes auth name) ≡ true
          → elem scope scopes ≡ true)
      → Authorized auth token ctx

insufficient-false :
    (token : Option (List String)) (required : List String)
    → insufficient token required ≡ false
    → (scopes : List String) × (token ≡ some scopes) × (subset required scopes ≡ true)
insufficient-false none required h = cc
insufficient-false (some scopes) required h = (scopes, refl, ground (arith, h))

-- A request goes on only if it calls no tool by name, or its token has every scope that the tool
-- requires; what it returns is then what the rest of the server returns for it.
pub call-Authorized :
    {A : Type 0} (auth : ScopeAuthorizer) (token : Option (List String)) (call_next : Context → A)
    (ctx : Context) (answer : A)
    → call auth token call_next ctx ≡ ok answer
    → Authorized auth token ctx × (call_next ctx ≡ answer)
unfolding call
call-Authorized auth token call_next ctx answer h = elim (Option-cases (tool_name ctx)) [
  | inl unnamed ↦ (no_tool unnamed, cc (rw (unnamed, call) at h))
  | inr (name, named) ↦ elim (Bool-cases (insufficient token (required_scopes auth name))) [
    | inl refused ↦ cc (rw (named, refused, call) at h)
    | inr allowed ↦
        let (scopes, given, within) =
          insufficient-false token (required_scopes auth name) allowed in
        (
          has_scopes name scopes named given
              (λ scope. elem-subset scope (required_scopes auth name) scopes within),
          cc (rw (named, allowed, call) at h),
        )
  ]
]

unclassified-nil :
    (auth : ScopeAuthorizer) (tools : List Tool)
    → unclassified auth tools ≡ []
    → All (λ tool. is_unclassified auth tool ≡ false) tools
unfolding unclassified
unclassified-nil auth [] h = tt
unclassified-nil auth (tool ∷ tools) h = elim (Bool-cases (is_unclassified auth tool)) [
  | inl unknown ↦ cc (rw (unknown, unclassified) at h)
  | inr known ↦ (known, unclassified-nil auth tools (rw (known, unclassified) at h))
]

read_only-true : (o : Option Bool) → says_read_only o ≡ true → o ≡ some true
read_only-true none h = cc
read_only-true (some b) h = ap some h

write_tool-needs_write :
    (auth : ScopeAuthorizer) (name : String)
    → is_write_tool name ≡ true
    → needs_write auth name ≡ true
unfolding needs_write
write_tool-needs_write auth name h = ground (arith, h)

requires :
    (auth : ScopeAuthorizer) (tool : Tool)
    → is_unclassified auth tool ≡ false
    → (tool.read_only ≡ some true)
      ⊎ (((scope : String) × (get_item tool.name auth.plugin_scopes ≡ some scope))
          ⊎ (elem auth.write_scope (required_scopes auth tool.name) ≡ true))
unfolding is_unclassified
requires auth tool h = elim (Option-cases (get_item tool.name auth.plugin_scopes)) [
  | inr declared ↦ inr (inl declared)
  | inl built_in ↦ elim (Bool-cases (says_read_only tool.read_only)) [
    | inl reads ↦ inl (read_only-true tool.read_only reads)
    | inr writes ↦
        let listed : is_write_tool tool.name ≡ true =
          ground (arith, rw (built_in, is_unclassified) at h, writes) in
        inr (
          inr (
            ground (
              arith,
              elem-required_scopes auth tool.name auth.write_scope,
              write_tool-needs_write auth tool.name listed,
              eq_refl auth.write_scope,
            )))
  ]
]

-- After the audit has passed, every tool of the server is read only by its annotation, or is a
-- plugin's with a declared scope, or requires the write scope.
pub audit_tools-Requires :
    (auth : ScopeAuthorizer) (tools : List Tool)
    → audit_tools auth tools ≡ ok tt
    → All
        (λ tool.
          (tool.read_only ≡ some true)
          ⊎ (((scope : String) × (get_item tool.name auth.plugin_scopes ≡ some scope))
              ⊎ (elem auth.write_scope (required_scopes auth tool.name) ≡ true)))
        tools
unfolding audit_tools
audit_tools-Requires auth tools h =
    All-map _ _ (requires auth) tools
      (unclassified-nil auth tools (none_left (unclassified auth tools) refl))
  where
    none_left :
        (names : List String) → unclassified auth tools ≡ names → unclassified auth tools ≡ []
    none_left [] e = e
    none_left (n ∷ ns) e = cc (rw (e, audit_tools) at h)

-- A plugin's tool is registered with one of the scopes read, write and admin and for itself alone:
-- it has that scope from then on, whatever it had before, and every other tool has its old one.
pub add_plugin_tool-get_item :
    (name scope : String) (auth auth' : ScopeAuthorizer)
    → add_plugin_tool name scope auth ≡ ok auth'
    → (elem scope ("read" ∷ "write" ∷ "admin" ∷ []) ≡ true)
      × ((n : String)
          → get_item n auth'.plugin_scopes
            ≡ (if str_eq name n then some scope else get_item n auth.plugin_scopes))
unfolding add_plugin_tool
add_plugin_tool-get_item name scope auth auth' h =
    elim (Bool-cases (elem scope ("read" ∷ "write" ∷ "admin" ∷ []))) [
      | inr bad ↦ cc (rw (bad, add_plugin_tool) at h)
      | inl good ↦
          let same : record auth { plugin_scopes = set_item name scope auth.plugin_scopes }
              ≡ auth' =
            cc (rw (good, add_plugin_tool) at h) in
          (good, rw (← same) (λ n. get_item-set_item name scope n auth.plugin_scopes))
    ]
