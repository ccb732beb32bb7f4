-- ===== src/Jobs/Examples.antt =====
-- The allowlist at a registry of two jobs.
use unifi_mcp.Base.{◌≡◌, refl, true, false, some, [], ◌∷◌, ok, All, elem}
use unifi_mcp.Base.Json.{int}
use unifi_mcp.Jobs.{Arguments, JobDefinition, JobRegistry, get, validate, has_unknown}
use unifi_mcp.Jobs.Allowlist.{validate-ok}

abbrev prune : JobDefinition
prune = record {
  name = "prune_runtime_data";
  model_fields = [];
  model_validate = λ a. some a;
  retryable = false;
}

abbrev deliver : JobDefinition
deliver = record {
  name = "retry_webhook_deliveries";
  model_fields = "limit" ∷ [];
  model_validate = λ a. some a;
  retryable = true;
}

abbrev jobs : JobRegistry
jobs = ("prune_runtime_data", prune) ∷ ("retry_webhook_deliveries", deliver) ∷ []

abbrev limited : Arguments
limited = ("limit", int 5) ∷ []

validate-ok_example :
    (d : JobDefinition) × (get jobs "retry_webhook_deliveries" ≡ ok d)
    × All (λ a. elem a.0 d.model_fields ≡ true) limited
    × (d.model_validate limited ≡ some limited)
unfolding validate get has_unknown
validate-ok_example = validate-ok jobs "retry_webhook_deliveries" limited limited refl
