-- ===== src/Plugins.antt =====
-- plugins.py: the registry of extensions, and the loading of allowlisted entry points.
pub mod Registry
pub mod Load
mod Examples
use unifi_mcp.Base.{
  ℕ, suc, String, Bool, true, false, not, ◌&&◌, ◌||◌, Option, none, some, List, [], ◌∷◌, leb, ◌==◌,
  str_eq, Result, ok, err, ◌>>=◌, ◌>>◌, raise_if, elem,
}
use unifi_mcp.Base.Table.{}
use unifi_mcp.Base.Json.{Json, text}
use unifi_mcp.Base.Dict.{has_key, set_item, update, overlaps}
use Prim.Native.Char.{code}

abbrev lower : ℕ → Bool
lower c = leb b'a' c && leb c b'z'

-- [a-z0-9_.-]
abbrev name_rest : ℕ → Bool
name_rest c = lower c || (leb b'0' c && leb c b'9') || c == b'_' || c == b'.' || c == b'-'

abbrev all_rest : String → Bool
all_rest String.[] = true
all_rest (String.◌∷◌ c s) = name_rest (code c) && all_rest s

abbrev characters : String → ℕ
characters String.[] = 0
characters (String.◌∷◌ c s) = suc (characters s)

-- `_NAME.fullmatch(name)`
unfoldable pub is_name : String → Bool
is_name String.[] = false
is_name (String.◌∷◌ c s) = lower (code c) && (all_rest s && leb (characters s) 63)

-- What the checks find out about a job definition.
pub record JobFacts : Type 0 where
  pub name : String
  pub arguments_is_model : Bool
  -- the number of parameters, if the handler is async
  pub handler_parameters : Option ℕ

-- An object that a plugin registers: its identity, and what the checks find out about it.
pub record Extension : Type 0 where
  pub identity : String
  pub is_callable : Bool
  pub sdk_accepts : Bool
  pub has_collector_fields : Bool
  pub collect_parameters : Option ℕ
  pub has_async_send : Bool
  pub job : Option JobFacts

pub record PluginTool : Type 0 where
  pub name : String
  pub function : Extension
  pub scope : String
  pub description : Option String
  pub annotations : Option Json

pub record PluginRegistry : Type 0 where
  pub tools : List (String × PluginTool)
  pub collectors : List (String × Extension)
  pub jobs : List (String × Extension)
  pub notification_sinks : List (String × Extension)
  pub report_renderers : List (String × Extension)

abbrev pub empty_registry : PluginRegistry
empty_registry = record {
  tools = [];
  collectors = [];
  jobs = [];
  notification_sinks = [];
  report_renderers = [];
}

-- One per text of a `PluginError`; the exception of the SDK, which is another, comes last.
pub data PluginError : Type 0 where
  bad_name bad_scope duplicate_tool not_callable duplicate_name bad_collector bad_collect
        collect_arity :
      PluginError
  core_job not_a_job job_name arguments_model job_handler no_send core_renderer
        renderer_not_callable :
      PluginError
  tool_conflict extension_conflict required_duplicated required_load required_version : PluginError
  required_registration required_missing sdk_error : PluginError

validate_name : String → Result PluginError (Unit {0})
unfolding is_name
validate_name name = raise_if (not (is_name name)) bad_name

unfoldable pub register_tool : PluginTool → PluginRegistry → Result PluginError PluginRegistry
unfolding validate_name
register_tool tool r = do
  validate_name tool.name
  raise_if (not (elem tool.scope ("read" ∷ "write" ∷ "admin" ∷ []))) bad_scope
  raise_if (has_key tool.name r.tools) duplicate_tool
  raise_if (not tool.function.is_callable) not_callable
  raise_if (not tool.function.sdk_accepts) sdk_error
  ok (record r { tools = set_item tool.name tool r.tools })

-- `_register_named`, on one of the dictionaries.
unfoldable pub register_named :
    List (String × Extension)
    → (name : String) → Extension
    → Result PluginError (List (String × Extension))
unfolding validate_name
register_named target name extension = do
  validate_name name
  raise_if (has_key name target) duplicate_name
  ok (set_item name extension target)

is_arity_one : Option ℕ → Bool
is_arity_one none = false
is_arity_one (some n) = n == 1

is_async : Option ℕ → Bool
is_async none = false
is_async (some n) = true

unfoldable pub register_collector :
    String → Extension → PluginRegistry → Result PluginError PluginRegistry
unfolding register_named is_arity_one is_async
register_collector name x r = do
  raise_if (not x.has_collector_fields) bad_collector
  raise_if (not (is_async x.collect_parameters)) bad_collect
  raise_if (not (is_arity_one x.collect_parameters)) collect_arity
  target ← register_named r.collectors name x
  ok (record r { collectors = target })

abbrev core_job_names : List String
core_job_names =
    "capture_observations" ∷ "poll_events" ∷ "prune_runtime_data" ∷ "retry_webhook_deliveries" ∷ []

check_job : String → Option JobFacts → Result PluginError (Unit {0})
unfolding is_arity_one
check_job name none = err not_a_job
check_job name (some job) = do
  raise_if (not (str_eq job.name name)) job_name
  raise_if (not job.arguments_is_model) arguments_model
  raise_if (not (is_arity_one job.handler_parameters)) job_handler

unfoldable pub register_job :
    String → Extension → PluginRegistry → Result PluginError PluginRegistry
unfolding register_named check_job
register_job name x r = do
  raise_if (elem name core_job_names) core_job
  check_job name x.job
  target ← register_named r.jobs name x
  ok (record r { jobs = target })

unfoldable pub register_notification_sink :
    String → Extension → PluginRegistry → Result PluginError PluginRegistry
unfolding register_named
register_notification_sink name x r = do
  raise_if (not x.has_async_send) no_send
  target ← register_named r.notification_sinks name x
  ok (record r { notification_sinks = target })

unfoldable pub register_report_renderer :
    String → Extension → PluginRegistry → Result PluginError PluginRegistry
unfolding register_named
register_report_renderer name x r = do
  raise_if (elem name ("html" ∷ "csv" ∷ [])) core_renderer
  raise_if (not x.is_callable) renderer_not_callable
  target ← register_named r.report_renderers name x
  ok (record r { report_renderers = target })

-- core_tool_names & set(tools)
core_overlaps : {A : Type 0} → List String → List (String × A) → Bool
core_overlaps core [] = false
core_overlaps core ((name, t) ∷ tools) = elem name core || core_overlaps core tools

-- `self.merged(staged, core_tool_names)`: the registry that it leaves in `self`.
unfoldable pub merged :
    (self staged : PluginRegistry) (core_tool_names : List String)
    → Result PluginError PluginRegistry
unfolding core_overlaps
merged self staged core = do
  raise_if (overlaps self.tools staged.tools || core_overlaps core staged.tools) tool_conflict
  raise_if (overlaps self.collectors staged.collectors) extension_conflict
  raise_if (overlaps self.jobs staged.jobs) extension_conflict
  raise_if (overlaps self.notification_sinks staged.notification_sinks) extension_conflict
  raise_if (overlaps self.report_renderers staged.report_renderers) extension_conflict
  ok (record {
    tools = update self.tools staged.tools;
    collectors = update self.collectors staged.collectors;
    jobs = update self.jobs staged.jobs;
    notification_sinks = update self.notification_sinks staged.notification_sinks;
    report_renderers = update self.report_renderers staged.report_renderers;
  })
