-- ===== src/Webhooks.antt =====
-- runtime/webhooks.py: the destinations of `WebhookService`, and the test of one. The tables are
-- those of `Events`; a delivery's claim and outcome are in the children.
pub mod Claim
pub mod Deliver
mod Examples
use unifi_mcp.Base.{
  ℕ, suc, min, max, String, Bool, true, false, not, ◌&&◌, ◌||◌, Option, none, some, List, [], ◌∷◌,
  ◌++◌, ltb, leb, ◌==◌, str_eq, str_leb, if◌then◌else◌, Result, ok, err, ◌>>=◌, ◌>>◌, raise_if,
  take, sorted_set,
}
use unifi_mcp.Base.Table.{update_where, delete_where, count_where, find_where, order_by}
use Prim.Native.Char.{code}
use unifi_mcp.Destinations.{PostError, rejected, transport_error, assertion_error, unexpected}
use unifi_mcp.Events.{Db, Destination, Delivery, ErrorCode, http}
use unifi_mcp.Destinations

-- The ASCII classes of `^[A-Z][A-Z0-9_]{0,127}$`.
abbrev upper : ℕ → Bool
upper c = leb b'A' c && leb c b'Z'

abbrev name_rest : ℕ → Bool
name_rest c = upper c || (leb b'0' c && leb c b'9') || c == b'_'

abbrev all_rest : String → Bool
all_rest String.[] = true
all_rest (String.◌∷◌ c s) = name_rest (code c) && all_rest s

abbrev pub characters : String → ℕ
characters String.[] = 0
characters (String.◌∷◌ c s) = suc (characters s)

abbrev pub is_env_name : String → Bool
is_env_name String.[] = false
is_env_name (String.◌∷◌ c s) = upper (code c) && (all_rest s && leb (characters s) 127)

pub data WebhookError : Type 0 where
  bad_destination : Destinations.DestinationError → WebhookError
  bad_env_name bad_category not_found integrity_error : WebhookError

-- secret_env_name is not None and not _ENV_NAME.fullmatch(secret_env_name)
refused_env : Option String → Bool
refused_env none = false
refused_env (some name) = not (is_env_name name)

any_refused : List String → Bool
any_refused [] = false
any_refused (c ∷ cs) = str_eq c "" || ltb 128 (characters c) || any_refused cs

checked : {A : Type 0} → Result Destinations.DestinationError A → Result WebhookError (Unit {0})
checked (ok a) = ok tt
checked (err e) = err (bad_destination e)

-- `validated` is the outcome of `validate_webhook_url` for the URL.
unfoldable pub create_destination :
    (validated : Result Destinations.DestinationError Destinations.ValidatedWebhookDestination)
    (name url : String) (secret_env_name : Option String) (categories : List String) (now : ℕ)
    (id : String)
    → Db
    → Result WebhookError (Db × Destination)
unfolding refused_env any_refused checked
create_destination validated name url secret_env_name categories now id db = do
  checked validated
  raise_if (refused_env secret_env_name) bad_env_name
  raise_if (any_refused (sorted_set categories)) bad_category
  raise_if (ltb 0 (count_where (λ d. str_eq id d.id || str_eq name d.name) db.destinations))
      integrity_error
  let row : Destination = record {
    id = id;
    name = name;
    url = url;
    secret_env_name = secret_env_name;
    categories = sorted_set categories;
    enabled = true;
    created_at = now;
    updated_at = now;
  }
  ok (record db { destinations = db.destinations ++ row ∷ [] }, row)

-- SELECT … ORDER BY name
unfoldable pub list_destinations : Db → List Destination
list_destinations db = order_by (λ a b. str_leb a.name b.name) db.destinations

unfoldable pub set_destination_enabled : (id : String) (enabled : Bool) (now : ℕ) → Db → Db × Bool
set_destination_enabled id enabled now db = (
  record db {
    destinations =
        update_where (λ d. str_eq id d.id) (λ d. record d { enabled = enabled; updated_at = now })
          db.destinations;
  },
  count_where (λ d. str_eq id d.id) db.destinations == 1,
)

-- A deleted destination takes its deliveries along (ON DELETE CASCADE).
unfoldable pub delete_destination : (id : String) → Db → Db × Bool
delete_destination id db =
    let deleted = count_where (λ d. str_eq id d.id) db.destinations in
    (
      record db {
        destinations = delete_where (λ d. str_eq id d.id) db.destinations;
        deliveries =
            if deleted == 0
            then db.deliveries
            else delete_where (λ d. str_eq id d.destination_id) db.deliveries;
      },
      deleted == 1,
    )

newer : Delivery → Delivery → Bool
newer a b = ltb b.created_at a.created_at || (a.created_at == b.created_at && str_leb b.id a.id)

-- ORDER BY created_at DESC, id DESC LIMIT ?
unfoldable pub list_deliveries : (limit : ℕ) → Db → List Delivery
unfolding newer
list_deliveries limit db = take (max 1 (min limit 1000)) (order_by newer db.deliveries)

-- `if secret_env_name:`, and the lookup of the secret: no secret wanted, one found, or one missing.
pub data Secret : Type 0 where
  unsigned unavailable : Secret
  signed_with : String → Secret

unfoldable pub secret_for : (String → Option String) → Option String → Secret
secret_for secret_lookup none = unsigned
secret_for secret_lookup (some name) =
    if str_eq name ""
    then unsigned
    else elim (secret_lookup name) [ none ↦ unavailable | some s ↦ signed_with s ]

pub data TestStatus : Type 0 where
  test_succeeded test_failed : TestStatus

pub record WebhookTestResult : Type 0 where
  pub status : TestStatus
  pub http_status : Option ℕ
  pub error_code : Option ErrorCode

abbrev pub is_success : ℕ → Bool
is_success status = leb 200 status && ltb status 300

abbrev pub failed_test : ErrorCode → WebhookTestResult
failed_test c = record { status = test_failed; http_status = none; error_code = some c }

-- An AssertionError would leave the call: `none`.
test_posted : Result PostError ℕ → Option WebhookTestResult
test_posted (ok status) =
    if is_success status
    then some (record { status = test_succeeded; http_status = some status; error_code = none })
    else some (record {
      status = test_failed;
      http_status = some status;
      error_code = some (http status);
    })
test_posted (err (rejected e)) = some (failed_test (ErrorCode.code "destination_rejected"))
test_posted (err transport_error) = some (failed_test (ErrorCode.code "transport_error"))
test_posted (err assertion_error) = none
test_posted (err unexpected) = none

-- `post url secret` is the outcome of `_post_validated` for the test's body.
unfoldable pub test_destination :
    (secret_lookup : String → Option String) (post : String → Secret → Result PostError ℕ)
    (destination_id : String)
    → Db
    → Result WebhookError (Option WebhookTestResult)
unfolding secret_for test_posted
test_destination secret_lookup post destination_id db =
    elim (find_where (λ d. str_eq destination_id d.id) db.destinations) [
      | none ↦ err not_found
      | some d ↦ elim (secret_for secret_lookup d.secret_env_name) [
        | unavailable ↦ ok (some (failed_test (ErrorCode.code "secret_unavailable")))
        | unsigned ↦ ok (test_posted (post d.url unsigned))
        | signed_with s ↦ ok (test_posted (post d.url (signed_with s)))
      ]
    ]
