-- ===== src/Jobs.antt =====
-- runtime/jobs.py: the allowlist of background jobs.
pub mod Allowlist
mod Examples
use unifi_mcp.Base.{
  ◌-◌, String, Bool, false, not, ◌||◌, Option, none, some, List, [], ◌∷◌, str_eq, if◌then◌else◌,
  Result, ok, err, ◌>>=◌, ◌>>◌, raise_if, elem,
}
use unifi_mcp.Base.Json.{Json}

-- A dict of arguments, and its keys.
abbrev pub Arguments : Type 0
Arguments = List (String × Json)

-- `arguments_model` is a pydantic model: its field names, and its validation to the dumped model,
-- which refuses some arguments. The handler enters where a job is executed.
pub record JobDefinition : Type 0 where
  pub name : String
  pub model_fields : List String
  pub model_validate : Arguments → Option Arguments
  pub retryable : Bool

-- Every one is a `ValueError`.
pub data JobError : Type 0 where
  no_jobs not_allowlisted unknown_arguments validation_error : JobError

-- The dict of a `JobRegistry`.
abbrev pub JobRegistry : Type 0
JobRegistry = List (String × JobDefinition)

unfoldable pub insert : JobRegistry → String → JobDefinition → JobRegistry
insert [] k d = (k, d) ∷ []
insert ((j, e) ∷ r) k d = if str_eq j k then (j, d) ∷ r else (j, e) ∷ insert r k d

-- {definition.name: definition for definition in definitions}
unfoldable pub collect : JobRegistry → List JobDefinition → JobRegistry
collect r [] = r
collect r (d ∷ ds) = collect (insert r d.name d) ds

-- JobRegistry(definitions)
unfoldable pub registry : List JobDefinition → Result JobError JobRegistry
unfolding collect insert
registry ds = elim (collect [] ds) [ [] ↦ err no_jobs | e ∷ r ↦ ok (e ∷ r) ]

unfoldable pub get : JobRegistry → String → Result JobError JobDefinition
get [] name = err not_allowlisted
get ((j, d) ∷ r) name = if str_eq j name then ok d else get r name

-- set(arguments) - set(model_fields) is not empty
unfoldable pub has_unknown : List String → Arguments → Bool
has_unknown fields [] = false
has_unknown fields ((k, v) ∷ arguments) = not (elem k fields) || has_unknown fields arguments

or_invalid : Option Arguments → Result JobError Arguments
or_invalid none = err validation_error
or_invalid (some a) = ok a

unfoldable pub validate : JobRegistry → String → Arguments → Result JobError Arguments
unfolding or_invalid
validate r name arguments = do
  definition ← get r name
  raise_if (has_unknown definition.model_fields arguments) unknown_arguments
  or_invalid (definition.model_validate arguments)
