-- ===== src/Plugins/Examples.antt =====
-- A server with one trusted plugin, and an entry point that nobody asked for.
use unifi_mcp.Base.{◌≡◌, refl, true, false, Option, none, some, [], ◌∷◌}
use unifi_mcp.Plugins.{Extension, PluginTool, PluginRegistry, empty_registry}
use unifi_mcp.Plugins.Load.{Plugin, EntryPoint, PluginManager, Policy, success, skip, load}
use unifi_mcp.Plugins.Load.Trust.{empty, same, untrusted, load-Alike}

abbrev function : Extension
function = record {
  identity = "f";
  is_callable = true;
  sdk_accepts = true;
  has_collector_fields = false;
  collect_parameters = none;
  has_async_send = false;
  job = none;
}

abbrev tool : PluginTool
tool = record {
  name = "dump";
  function = function;
  scope = "read";
  description = none;
  annotations = none;
}

abbrev staged : PluginRegistry
staged = record empty_registry { tools = ("dump", tool) ∷ [] }

abbrev plugin : Plugin
plugin = record { api_version = some 1; register = λ r. some r }

abbrev trusted : EntryPoint
trusted = record { name = "good"; load = some plugin }

abbrev stranger : Option Plugin → EntryPoint
stranger p = record { name = "evil"; load = p }

abbrev policy : Policy
policy = record {
  allowlist = "good" ∷ [];
  required = "good" ∷ [];
  core_tool_names = "block_client" ∷ [];
}

load-Alike_example :
    load policy (stranger none ∷ trusted ∷ []) ≡ load policy (stranger (some plugin) ∷ trusted ∷ [])
load-Alike_example =
    load-Alike policy (stranger none ∷ trusted ∷ []) (stranger (some plugin) ∷ trusted ∷ [])
      (untrusted (stranger none) (stranger (some plugin)) refl refl (same trusted empty))

abbrev manager : PluginManager
manager = record {
  registry = empty_registry;
  statuses = skip "evil" false ∷ success "good" true ∷ [];
}
