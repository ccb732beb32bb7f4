-- ===== src/Authorization/Examples.antt =====
-- The policy with one plugin tool, at a token that may read and write.
use unifi_mcp.Base.{String, ◌≡◌, refl, ◌⊎◌, true, Option, none, some, List, [], ◌∷◌, All, elem}
use unifi_mcp.Base.Json.{text, end, field, get_field}
use unifi_mcp.Base.Dict.{get_item}
use unifi_mcp.Authorization.{
  ScopeAuthorizer, required_scopes, Tool, audit_tools, Context, mapping, call, is_write_tool,
  is_admin_tool,
}
use unifi_mcp.Authorization.Policy.{Authorized, call-Authorized, audit_tools-Requires}

abbrev bare : ScopeAuthorizer
bare = record { read_scope = "r"; write_scope = "w"; admin_scope = "a"; plugin_scopes = [] }

abbrev auth : ScopeAuthorizer
auth = record bare { plugin_scopes = ("dump", "admin") ∷ [] }

abbrev token : Option (List String)
token = some ("r" ∷ "w" ∷ [])

abbrev ctx : Context
ctx = record { method = "tools/call"; params = mapping (field "name" (text "block_client") end) }

abbrev tools : List Tool
tools =
    record { name = "list_devices"; read_only = some true }
    ∷ record { name = "block_client"; read_only = none }
    ∷ record { name = "dump"; read_only = none }
    ∷ []

call-Authorized_example : Authorized auth token ctx × (ctx.method ≡ "tools/call")
unfolding call is_write_tool is_admin_tool get_field get_item
call-Authorized_example = call-Authorized auth token (λ c. c.method) ctx "tools/call" refl

audit_tools-Requires_example :
    All
      (λ tool.
        (tool.read_only ≡ some true)
        ⊎ (((scope : String) × (get_item tool.name auth.plugin_scopes ≡ some scope))
            ⊎ (elem auth.write_scope (required_scopes auth tool.name) ≡ true)))
      tools
unfolding audit_tools is_write_tool get_item
audit_tools-Requires_example = audit_tools-Requires auth tools refl
