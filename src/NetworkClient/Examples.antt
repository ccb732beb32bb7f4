-- ===== src/NetworkClient/Examples.antt =====
-- A client with a session, and one of the Integration API, on a controller with one switch.
use unifi_mcp.Base.{
  ℕ, String, ◌≡◌, refl, true, false, none, some, List, [], ◌∷◌, str_eq, if◌then◌else◌, ok, All,
}
use unifi_mcp.Base.Json.{
  Json, null, int, text, arr, obj, nil, cons, Fields, end, get_field, get_or, nat, fields, dict,
}
use unifi_mcp.Base.Dict.{get_item, set_item, update}
use unifi_mcp.Base.Table.{select_where}
use unifi_mcp.Verification.Compare.{Python}
use unifi_mcp.NetworkClient.Monad.{State, Controller}
use unifi_mcp.Http.Cache.{AppContext}
use unifi_mcp.NetworkClient.Answers.{data_of, find_site, find_in}
use unifi_mcp.NetworkClient.Site.{
  Client, site_endpoint, get_sites, remember, look_up, known_or_look_up, get_site_id,
}
use unifi_mcp.NetworkClient.Devices.{get_devices, find_device, get_device}
use unifi_mcp.NetworkClient.Merge.{
  Record, whole, key_of, Indexed, indexed, all_indexed, records_of, has_index, has_duplicates,
  with_index, writable, new_override, merge_change, merge_changes, refusal, entries,
  merged_overrides,
}
use unifi_mcp.NetworkClient.Merged.{override_at, change_for, expected, merged_overrides-expected}
use unifi_mcp.Settings.{Texts, UniFiSettings, local}
use unifi_mcp.NetworkClient.Guard.{Args, Refused, session_methods, session_methods-Refused}

abbrev py : Python
py = record {
  strip = λ s. s;
  lower = λ s. if str_eq s "AA:01" then "aa:01" else s;
  upper = λ s. s;
  str = λ j. "";
  int_of = λ j. some j;
  ip_address = λ s. none;
  ip_interface = λ s. none;
  show_address = λ a. "";
  show_interface = λ i. "";
}

abbrev session : Client
session = record { site = "default"; is_cloud = false; is_integration_api = false }

abbrev modern : Client
modern = record { site = "default"; is_cloud = false; is_integration_api = true }

abbrev start : State
start = record { sent = []; site_ids = [] }

abbrev port : ℕ → String → Json
port n name = dict (("port_idx", int n) ∷ ("name", text name) ∷ [])

abbrev switch : Fields
switch = fields (
    ("_id", text "d1")
    ∷ ("mac", text "aa-01")
    ∷ ("port_table", arr (cons (port 1 "a") (cons (port 2 "b") nil)))
    ∷ ("port_overrides", arr (cons (port 1 "a") nil))
    ∷ [])

-- It lists the switch, or its one site.
abbrev controller : Controller
controller sent s =
    if str_eq s.endpoint "/v1/sites"
    then ok (
        dict (
          ("data", arr (cons (dict (("id", text "s1") ∷ ("name", text "default") ∷ [])) nil)) ∷ []))
    else ok (dict (("data", arr (cons (obj switch) nil)) ∷ []))

abbrev args : Args
args = record {
  site = none;
  mac = "AA:01";
  id = "n1";
  data' = obj end;
  settings = end;
  ports = [];
  fixed_ip = none;
  limit = nat 5000;
  enabled = true;
  fresh = false;
}

abbrev changes : List Record
changes =
    (("port_idx", int 1) ∷ ("poe_mode", text "off") ∷ [])
    ∷ (("port_idx", int 2) ∷ ("name", text "uplink") ∷ [])
    ∷ []

abbrev written : List Indexed
written =
    record {
      key = whole 1;
      entry = ("port_idx", int 1) ∷ ("name", text "a") ∷ ("poe_mode", text "off") ∷ [];
    }
    ∷ record { key = whole 2; entry = ("port_idx", int 2) ∷ ("name", text "uplink") ∷ [] }
    ∷ []

merged : merged_overrides switch changes ≡ ok written
unfolding merged_overrides entries records_of all_indexed indexed key_of has_duplicates has_index
    with_index select_where merge_changes merge_change new_override writable get_item update
    set_item get_or get_field
merged = refl

merged_overrides-expected_example :
    (overrides : List Indexed) × (cs : List Indexed) × (entries
        (get_or "port_overrides" (arr nil) switch)
        (refusal "Device port overrides are not a writable collection")
      ≡ ok overrides)
    × (all_indexed changes ≡ ok cs)
    × (override_at (whole 2) written
        ≡ expected (change_for (whole 2) cs) (override_at (whole 2) overrides))
merged_overrides-expected_example =
    merged_overrides-expected switch changes (whole 2) written merged refl

session_methods-Refused_example :
    All (λ m. Refused start (m controller start)) (session_methods py modern args)
session_methods-Refused_example = session_methods-Refused modern controller start refl py args

abbrev texts : Texts
texts = record {
  strip = λ s. s;
  lower = λ s. s;
  upper = λ s. s;
  split_commas = λ s. s ∷ [];
  split_slashes = λ s. s ∷ [];
  starts_with_slash = λ s. str_eq s "/mcp";
  has_space = λ s. false;
  rstrip_slash = λ s. s;
  is_alnum_or_underscore = λ s. true;
}

abbrev settings : UniFiSettings
settings = record {
  listed_devices = [];
  mode = local;
  controller_url = some "https://c";
  cloud_api_key = none;
  site = "default";
  is_udm = true;
  default_device_name = "default";
  mutation_verify_initial_delay = 500;
  mutation_verify_max_delay = 2000;
  prometheus_enabled = true;
  prometheus_host = "0.0.0.0";
  prometheus_allow_remote = true;
  prometheus_bearer_token_env = some "TOKEN";
  plugin_allowlist = "extra";
  plugin_required = "extra";
  streamable_http = true;
  http_host = "127.0.0.1";
  http_path = "/mcp";
  http_allow_remote = false;
  http_public_url = some "https://id/mcp";
  oidc_issuer = some "https://id";
  oidc_audience = some "unifi";
  oidc_algorithms = "RS256";
  oidc_read_scope = "unifi:read";
  oidc_write_scope = "unifi:write";
  oidc_admin_scope = "unifi:admin";
}

abbrev cached : AppContext
cached = record { cache = ("k", null) ∷ []; cache_generation = 3 }

site_found :
    get_site_id py modern none controller start
    ≡ (ok (text "s1"), (get_site_id py modern none controller start).1)
unfolding get_site_id known_or_look_up look_up get_sites find_in find_site remember get_item get_or
    get_field
site_found = refl

device_found :
    get_device py session "AA:01" none true controller start
    ≡ (ok (obj switch), (get_device py session "AA:01" none true controller start).1)
unfolding get_device get_devices find_device data_of site_endpoint get_or get_field
device_found = refl
