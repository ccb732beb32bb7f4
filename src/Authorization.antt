-- ===== src/Authorization.antt =====
-- auth/authorization.py: the scopes that a tool requires, and the middleware that asks for them.
pub mod Policy
mod Examples
use unifi_mcp.Base.{
  String, Bool, true, false, not, ◌&&◌, ◌||◌, Option, none, some, List, [], ◌∷◌, ◌++◌, ◌==◌, str_eq,
  if◌then◌else◌, Result, ok, err, elem,
}
use unifi_mcp.Base.Dict.{get_item, set_item}
use unifi_mcp.Base.Json.{Json, text, Fields, get_field}

abbrev write_tools : List String
write_tools =
    "apply_client_qos_policy" ∷ "archive_all_alarms" ∷ "assign_client_group" ∷ "block_client"
    ∷ "capture_observations_now" ∷ "create_client_group" ∷ "create_firewall_policy"
    ∷ "create_interval_schedule" ∷ "create_network" ∷ "create_port_forward"
    ∷ "create_webhook_destination" ∷ "create_wlan" ∷ "delete_client_group"
    ∷ "delete_firewall_policy" ∷ "delete_network" ∷ "delete_port_forward" ∷ "delete_schedule"
    ∷ "delete_webhook_destination" ∷ "delete_wlan" ∷ "export_network_report"
    ∷ "export_portable_snapshot" ∷ "export_camera_clip" ∷ "forget_client" ∷ "kick_client"
    ∷ "locate_device" ∷ "plan_client_qos_policy" ∷ "poll_events_now" ∷ "provision_device"
    ∷ "reserve_client_ip" ∷ "restart_device" ∷ "run_schedule_now" ∷ "run_speed_test"
    ∷ "set_client_tags" ∷ "set_device_port" ∷ "set_firewall_policy_enabled" ∷ "set_schedule_enabled"
    ∷ "set_webhook_destination_enabled" ∷ "test_webhook_destination" ∷ "unblock_client"
    ∷ "update_network" ∷ "update_wlan" ∷ "upgrade_device" ∷ []

abbrev admin_mutations : List String
admin_mutations =
    "capture_observations_now" ∷ "create_interval_schedule" ∷ "create_webhook_destination"
    ∷ "delete_schedule" ∷ "delete_webhook_destination" ∷ "poll_events_now" ∷ "run_schedule_now"
    ∷ "set_schedule_enabled" ∷ "set_webhook_destination_enabled" ∷ "test_webhook_destination" ∷ []

abbrev admin_reads : List String
admin_reads = "get_plugin_status" ∷ []

-- name in _WRITE_TOOLS
unfoldable pub is_write_tool : String → Bool
is_write_tool name = elem name write_tools

-- name in _ADMIN_MUTATIONS or name in _ADMIN_READS
unfoldable pub is_admin_tool : String → Bool
is_admin_tool name = elem name admin_mutations || elem name admin_reads

-- `_plugin_scopes` is a dict from tools to scopes.
pub record ScopeAuthorizer : Type 0 where
  pub read_scope : String
  pub write_scope : String
  pub admin_scope : String
  pub plugin_scopes : List (String × String)

pub data PolicyError : Type 0 where
  unknown_scope missing_classifications : PolicyError

unfoldable pub add_plugin_tool :
    (name scope : String) → ScopeAuthorizer → Result PolicyError ScopeAuthorizer
add_plugin_tool name scope auth =
    if elem scope ("read" ∷ "write" ∷ "admin" ∷ [])
    then ok (record auth { plugin_scopes = set_item name scope auth.plugin_scopes })
    else err unknown_scope

-- set.add
abbrev pub add : String → List String → List String
add x xs = if elem x xs then xs else xs ++ x ∷ []

-- plugin_scope == scope
abbrev pub is_scope : String → Option String → Bool
is_scope scope none = false
is_scope scope (some s) = str_eq s scope

unfoldable pub needs_write : ScopeAuthorizer → String → Bool
needs_write auth name =
    let plugin_scope = get_item name auth.plugin_scopes in
    is_scope "write" plugin_scope || is_scope "admin" plugin_scope || is_write_tool name

unfoldable pub needs_admin : ScopeAuthorizer → String → Bool
needs_admin auth name = is_scope "admin" (get_item name auth.plugin_scopes) || is_admin_tool name

unfoldable pub required_scopes : ScopeAuthorizer → String → List String
unfolding needs_write needs_admin
required_scopes auth name =
    let read = auth.read_scope ∷ [] in
    let write = if needs_write auth name then add auth.write_scope read else read in
    if needs_admin auth name then add auth.admin_scope write else write

-- A tool of the server; `read_only` is `annotations.read_only_hint`, if it has annotations.
pub record Tool : Type 0 where
  pub name : String
  pub read_only : Option Bool

abbrev pub says_read_only : Option Bool → Bool
says_read_only none = false
says_read_only (some b) = b

unfoldable pub is_unclassified : ScopeAuthorizer → Tool → Bool
is_unclassified auth tool = elim (get_item tool.name auth.plugin_scopes) [
  | some scope ↦ false
  | none ↦ not (says_read_only tool.read_only) && not (is_write_tool tool.name)
]

-- The names that the exception lists.
unfoldable pub unclassified : ScopeAuthorizer → List Tool → List String
unfolding is_unclassified
unclassified auth [] = []
unclassified auth (tool ∷ tools) =
    let rest = unclassified auth tools in
    if is_unclassified auth tool then tool.name ∷ rest else rest

unfoldable pub audit_tools : ScopeAuthorizer → List Tool → Result PolicyError (Unit {0})
unfolding unclassified
audit_tools auth tools = elim (unclassified auth tools) [
  | [] ↦ ok tt
  | name ∷ names ↦ err missing_classifications
]

-- `ctx.params`: none, a mapping, or an object without `get`.
pub data Params : Type 0 where
  absent opaque_object : Params
  mapping : Fields → Params

pub record Context : Type 0 where
  pub method : String
  pub params : Params

text_of : Option Json → Option String
text_of none = none
text_of (some (text s)) = some s
text_of (some _) = none

param_name : Params → Option String
unfolding text_of
param_name absent = none
param_name opaque_object = none
param_name (mapping fields) = text_of (get_field "name" fields)

-- The tool that a request calls, as the middleware reads it.
unfoldable pub tool_name : Context → Option String
unfolding param_name
tool_name ctx = if str_eq ctx.method "tools/call" then param_name ctx.params else none

-- required <= set(scopes)
unfoldable pub subset : List String → List String → Bool
subset [] scopes = true
subset (s ∷ ss) scopes = elem s scopes && subset ss scopes

-- token is None or not required <= set(token.scopes)
abbrev insufficient : Option (List String) → List String → Bool
insufficient none required = true
insufficient (some scopes) required = not (subset required scopes)

pub data McpError : Type 0 where
  insufficient_scope : McpError

-- `ScopeMiddleware.__call__`; `token` is the scopes of the token that the getter gives.
unfoldable pub call :
    {A : Type 0}
    → ScopeAuthorizer
    → (token : Option (List String)) → (call_next : Context → A) → Context
    → Result McpError A
unfolding tool_name required_scopes subset
call auth token call_next ctx = elim (tool_name ctx) [
  | none ↦ ok (call_next ctx)
  | some name ↦
      if insufficient token (required_scopes auth name)
      then err insufficient_scope
      else ok (call_next ctx)
]
