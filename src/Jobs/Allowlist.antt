-- ===== src/Jobs/Allowlist.antt =====
-- Only what was registered can be scheduled, and only with the arguments that it declares.
use unifi_mcp.Base.{
  String, ◌≡◌, refl, ap, ◌∙◌, true, false, some, List, [], ◌∷◌, arith, eq_iff, str_eq,
  if◌then◌else◌, Result, ok, err, raise_if, bind-ok, All, elem,
}
use unifi_mcp.Jobs.{
  Arguments, JobDefinition, JobRegistry, JobError, not_allowlisted, unknown_arguments, insert,
  collect, registry, get, has_unknown, validate,
}

-- The definition that the list of definitions gives a name: the last one.
abbrev pub last_named :
    String → Result JobError JobDefinition → List JobDefinition → Result JobError JobDefinition
last_named name found [] = found
last_named name found (d ∷ ds) = last_named name (if str_eq d.name name then ok d else found) ds

pub get-insert :
    (r : JobRegistry) (k name : String) (d : JobDefinition)
    → get (insert r k d) name ≡ (if str_eq k name then ok d else get r name)
unfolding get insert
get-insert [] k name d = refl
get-insert ((j, e) ∷ r) k name d =
    ground (arith, eq_iff j k, eq_iff j name, eq_iff k name, get-insert r k name d)

get-collect :
    (r : JobRegistry) (ds : List JobDefinition) (name : String)
    → get (collect r ds) name ≡ last_named name (get r name) ds
unfolding collect
get-collect r [] name = refl
get-collect r (d ∷ ds) name =
    get-collect (insert r d.name d) ds name
    ∙ ap (λ f. last_named name f ds) (get-insert r d.name name d)

registry-ok : (ds : List JobDefinition) (r : JobRegistry) → registry ds ≡ ok r → r ≡ collect [] ds
unfolding registry
registry-ok ds r h = ground arith

-- A registry resolves a name to the last definition registered under it, and raises for every
-- name under which none was registered.
pub get-registry :
    (ds : List JobDefinition) (r : JobRegistry) (name : String)
    → registry ds ≡ ok r
    → get r name ≡ last_named name (err not_allowlisted) ds
get-registry ds r name h =
    rw (registry-ok ds r h)
      (get-collect [] ds name ∙ ap (λ f. last_named name f ds) (unfold get in refl))

has_unknown-false :
    (fields : List String) (arguments : Arguments)
    → has_unknown fields arguments ≡ false
    → All (λ a. elem a.0 fields ≡ true) arguments
unfolding has_unknown
has_unknown-false fields [] h = tt
has_unknown-false fields ((k, v) ∷ arguments) h = ground (arith, has_unknown-false fields arguments)

-- Validated arguments belong to an allowlisted job, have only names that its model declares, and
-- are what its model makes of them.
pub validate-ok :
    (r : JobRegistry) (name : String) (arguments validated : Arguments)
    → validate r name arguments ≡ ok validated
    → (d : JobDefinition) × (get r name ≡ ok d)
      × All (λ a. elem a.0 d.model_fields ≡ true) arguments
      × (d.model_validate arguments ≡ some validated)
unfolding validate
validate-ok r name arguments validated h =
    let (d, found, rest) = bind-ok (get r name) _ h in
    let (u, known, last) =
      bind-ok (raise_if (has_unknown d.model_fields arguments) unknown_arguments) _ rest in
    (d, found, has_unknown-false d.model_fields arguments (ground arith), ground arith)
