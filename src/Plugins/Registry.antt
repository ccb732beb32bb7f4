-- ===== src/Plugins/Registry.antt =====
-- The registration of a tool, and the merge of a plugin's registry into the server's.
use unifi_mcp.Base.{
  String, ◌≡◌, refl, ◌⊎◌, inl, inr, true, false, not, ◌||◌, some, List, [], ◌∷◌, arith, eq_iff,
  str_eq, if◌then◌else◌, Bool-cases, ok, raise_if, bind-ok, elem,
}
use unifi_mcp.Base.Dict.{
  get_item, has_key, set_item, update, overlaps, get_item-set_item, has_key-update,
  get_item-update_other, overlaps-key,
}
use unifi_mcp.Plugins.{
  is_name, validate_name, PluginTool, PluginRegistry, bad_name, bad_scope, duplicate_tool,
  not_callable, sdk_error, tool_conflict, extension_conflict, register_tool, core_overlaps, merged,
}

-- What has been checked of a tool that is registered.
pub record Registered (tool : PluginTool) (r r' : PluginRegistry) : Type 0 where
  pub well_named : is_name tool.name ≡ true
  pub known_scope : elem tool.scope ("read" ∷ "write" ∷ "admin" ∷ []) ≡ true
  pub is_new : has_key tool.name r.tools ≡ false
  pub is_callable : tool.function.is_callable ≡ true
  pub stored :
      (n : String)
      → get_item n r'.tools ≡ (if str_eq tool.name n then some tool else get_item n r.tools)

-- A tool is registered under a well-formed name that is new, with a known scope and a callable
-- function; then its name gives it, and every other name what it gave before.
pub register_tool-Registered :
    (tool : PluginTool) (r r' : PluginRegistry)
    → register_tool tool r ≡ ok r'
    → Registered tool r r'
unfolding register_tool validate_name
register_tool-Registered tool r r' h =
    let (_, named, h1) = bind-ok (raise_if (not (is_name tool.name)) bad_name) _ h in
    let (_, scoped, h2) =
      bind-ok (raise_if (not (elem tool.scope ("read" ∷ "write" ∷ "admin" ∷ []))) bad_scope) _ h1 in
    let (_, new, h3) = bind-ok (raise_if (has_key tool.name r.tools) duplicate_tool) _ h2 in
    let (_, callable, h4) = bind-ok (raise_if (not tool.function.is_callable) not_callable) _ h3 in
    let (_, accepted, h5) = bind-ok (raise_if (not tool.function.sdk_accepts) sdk_error) _ h4 in
    let same : record r { tools = set_item tool.name tool r.tools } ≡ r' = cc h5 in
    record {
      well_named = ground (arith, named);
      known_scope = ground (arith, scoped);
      is_new = ground (arith, new);
      is_callable = ground (arith, callable);
      stored = rw (← same) (λ n. get_item-set_item tool.name tool n r.tools);
    }

-- An extension dictionary after a merge: nothing that was there is lost or replaced.
abbrev pub Extends :
    {A : Type 0} → List (String × A) → List (String × A) → List (String × A) → Type 0
Extends old staged new =
    (n : String)
    → (has_key n new ≡ (has_key n old || has_key n staged))
      × ((has_key n old ≡ false) ⊎ ((has_key n staged ≡ false) × (get_item n new ≡ get_item n old)))

Extends-update :
    {A : Type 0} (old staged : List (String × A))
    → overlaps old staged ≡ false
    → Extends old staged (update old staged)
Extends-update old staged h n = elim (Bool-cases (has_key n old)) [
  | inr missing ↦ (has_key-update n old staged, inl missing)
  | inl held ↦
      let apart = overlaps-key n old staged h held in
      (has_key-update n old staged, inr (apart, get_item-update_other n old staged apart))
]

core_overlaps-key :
    {A : Type 0} (n : String) (core : List String) (tools : List (String × A))
    → core_overlaps core tools ≡ false
    → elem n core ≡ true
    → has_key n tools ≡ false
unfolding core_overlaps has_key
core_overlaps-key n core [] h k = refl
core_overlaps-key n core ((name, t) ∷ tools) h k =
    ground (arith, h, k, eq_iff name n, core_overlaps-key n core tools)

-- What a merge leaves.
pub record Merged (self staged : PluginRegistry) (core : List String) (r : PluginRegistry)
    : Type 0 where
  pub tools : Extends self.tools staged.tools r.tools
  pub collectors : Extends self.collectors staged.collectors r.collectors
  pub jobs : Extends self.jobs staged.jobs r.jobs
  pub notification_sinks :
      Extends self.notification_sinks staged.notification_sinks r.notification_sinks
  pub report_renderers : Extends self.report_renderers staged.report_renderers r.report_renderers
  pub no_core : (n : String) → elem n core ≡ true → has_key n staged.tools ≡ false

-- A plugin's registry that is merged has no tool named as a core tool, and adds its names to every
-- dictionary without taking or changing a name that was there.
pub merged-Merged :
    (self staged : PluginRegistry) (core : List String) (r : PluginRegistry)
    → merged self staged core ≡ ok r
    → Merged self staged core r
unfolding merged
merged-Merged self staged core r h =
    let (_, tools, h1) =
      bind-ok
        (raise_if (overlaps self.tools staged.tools || core_overlaps core staged.tools)
          tool_conflict)
        _ h in
    let (_, collectors, h2) =
      bind-ok (raise_if (overlaps self.collectors staged.collectors) extension_conflict) _ h1 in
    let (_, jobs, h3) =
      bind-ok (raise_if (overlaps self.jobs staged.jobs) extension_conflict) _ h2 in
    let (_, sinks, h4) =
      bind-ok
        (raise_if (overlaps self.notification_sinks staged.notification_sinks) extension_conflict) _
        h3 in
    let (_, renderers, h5) =
      bind-ok (raise_if (overlaps self.report_renderers staged.report_renderers) extension_conflict)
        _ h4 in
    let same : record {
      tools = update self.tools staged.tools;
      collectors = update self.collectors staged.collectors;
      jobs = update self.jobs staged.jobs;
      notification_sinks = update self.notification_sinks staged.notification_sinks;
      report_renderers = update self.report_renderers staged.report_renderers;
    }
        ≡ r =
      cc h5 in
    rw (← same) (record {
      tools = Extends-update self.tools staged.tools (ground (arith, tools));
      collectors = Extends-update self.collectors staged.collectors (ground (arith, collectors));
      jobs = Extends-update self.jobs staged.jobs (ground (arith, jobs));
      notification_sinks =
          Extends-update self.notification_sinks staged.notification_sinks (ground (arith, sinks));
      report_renderers =
          Extends-update self.report_renderers staged.report_renderers (ground (arith, renderers));
      no_core = λ n listed. core_overlaps-key n core staged.tools (ground (arith, tools)) listed;
    })
