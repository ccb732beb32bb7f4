-- ===== src/Plugins/Load.antt =====
-- plugins.py: `PluginManager.load`.
pub mod Required
pub mod Trust
use unifi_mcp.Base.{
  ℕ, String, Bool, true, false, not, ◌&&◌, ◌||◌, Option, none, some, List, [], ◌∷◌, ◌++◌, ltb, ◌==◌,
  str_eq, if◌then◌else◌, Result, ok, err, ◌>>=◌, ◌>>◌, raise_if, elem, sorted_set,
}
use unifi_mcp.Base.Table.{count_where}
use unifi_mcp.Plugins.{
  PluginRegistry, empty_registry, PluginError, required_duplicated, required_load, required_version,
  required_registration, required_missing, merged,
}

-- What an entry point loads. Its `register` leaves a registry in `staged`, or raises: `none`.
pub record Plugin : Type 0 where
  pub api_version : Option ℕ
  pub register : PluginRegistry → Option PluginRegistry

-- `load()`, which imports the plugin's code, gives the plugin or raises: `none`.
pub record EntryPoint : Type 0 where
  pub name : String
  pub load : Option Plugin

pub data State : Type 0 where
  loaded skipped failed : State

pub data Reason : Type 0 where
  duplicate_entry_point not_allowlisted load_failed incompatible_api_version registration_failed :
      Reason

pub record PluginStatus : Type 0 where
  pub name : String
  pub state : State
  pub reason : Option Reason
  pub required : Bool

pub record PluginManager : Type 0 where
  pub registry : PluginRegistry
  pub statuses : List PluginStatus

abbrev pub names : List EntryPoint → List String
names [] = []
names (e ∷ es) = e.name ∷ names es

-- {name for name, count in counts.items() if count > 1 and name in allowlist}, of the names `ns`
duplicates_among : (discovered : List EntryPoint) (allowlist ns : List String) → List String
duplicates_among discovered allowlist [] = []
duplicates_among discovered allowlist (n ∷ ns) =
    let rest = duplicates_among discovered allowlist ns in
    if ltb 1 (count_where (λ e. str_eq n e.name) discovered) && elem n allowlist
    then n ∷ rest
    else rest

unfoldable pub duplicates_of : List EntryPoint → (allowlist : List String) → List String
unfolding duplicates_among
duplicates_of discovered allowlist =
    sorted_set (duplicates_among discovered allowlist (names discovered))

-- set(xs) & set(ys)
unfoldable pub intersects : List String → List String → Bool
intersects [] ys = false
intersects (x ∷ xs) ys = elem x ys || intersects xs ys

-- set(xs) <= set(ys)
unfoldable pub within : List String → List String → Bool
within [] ys = true
within (x ∷ xs) ys = elem x ys && within xs ys

abbrev pub failure : String → Reason → PluginStatus
failure name reason = record { name = name; state = failed; reason = some reason; required = false }

abbrev pub success : String → Bool → PluginStatus
success name required = record { name = name; state = loaded; reason = none; required = required }

abbrev pub skip : String → Bool → PluginStatus
skip name required = record {
  name = name;
  state = skipped;
  reason = some not_allowlisted;
  required = required;
}

abbrev pub duplicate_statuses : List String → List PluginStatus
duplicate_statuses [] = []
duplicate_statuses (n ∷ ns) = failure n duplicate_entry_point ∷ duplicate_statuses ns

-- A failure of a plugin: raised if it is required, else recorded.
unfoldable pub failing :
    (is_required : Bool)
    → PluginError
    → String
    → Reason
    → PluginManager
    → Result PluginError PluginManager
failing is_required e name reason m =
    if is_required
    then err e
    else ok (record m { statuses = m.statuses ++ failure name reason ∷ [] })

-- plugin.register(staged), and registry.merged(staged, core_tool_names)
staged_and_merged : Plugin → PluginRegistry → List String → Option PluginRegistry
staged_and_merged plugin registry core = elim (plugin.register empty_registry) [
  | none ↦ none
  | some staged ↦ elim (merged registry staged core) [ err e ↦ none | ok r ↦ some r ]
]

-- plugin.api_version == PLUGIN_API_VERSION
is_compatible : Plugin → Bool
is_compatible plugin = elim plugin.api_version [ none ↦ false | some v ↦ v == 1 ]

-- The part of the loop's body that runs the plugin's code.
unfoldable pub load_entry :
    (is_required : Bool) (core : List String)
    → EntryPoint
    → PluginManager
    → Result PluginError PluginManager
unfolding failing staged_and_merged is_compatible
load_entry is_required core e m = elim e.load [
  | none ↦ failing is_required required_load e.name load_failed m
  | some plugin ↦
      if not (is_compatible plugin)
      then failing is_required required_version e.name incompatible_api_version m
      else elim (staged_and_merged plugin m.registry core) [
        | none ↦ failing is_required required_registration e.name registration_failed m
        | some r ↦
            ok (record { registry = r; statuses = m.statuses ++ success e.name is_required ∷ [] })
      ]
]

-- The sets that the loop reads.
pub record Policy : Type 0 where
  pub allowlist : List String
  pub required : List String
  pub core_tool_names : List String

-- The loop's body.
unfoldable pub visit :
    Policy
    → (duplicates : List String) → EntryPoint
    → PluginManager
    → Result PluginError PluginManager
unfolding load_entry
visit p duplicates e m =
    if elem e.name duplicates
    then ok m
    else if not (elem e.name p.allowlist)
    then ok (record m { statuses = m.statuses ++ skip e.name (elem e.name p.required) ∷ [] })
    else load_entry (elem e.name p.required) p.core_tool_names e m

unfoldable pub visit_all :
    Policy → List String → List EntryPoint → PluginManager → Result PluginError PluginManager
unfolding visit
visit_all p duplicates [] m = ok m
visit_all p duplicates (e ∷ es) m = do m' ← visit p duplicates e m; visit_all p duplicates es m'

unfoldable pub load : Policy → (discovered : List EntryPoint) → Result PluginError PluginManager
unfolding duplicates_of intersects visit_all within
load p discovered = do
  let duplicates = duplicates_of discovered p.allowlist
  raise_if (intersects duplicates p.required) required_duplicated
  m ←
      visit_all p duplicates discovered
        (record { registry = empty_registry; statuses = duplicate_statuses duplicates })
  raise_if (not (within p.required (names discovered))) required_missing
  ok m
