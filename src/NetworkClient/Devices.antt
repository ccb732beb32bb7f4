-- ===== src/NetworkClient/Devices.antt =====
-- clients/network.py: the methods on sites' settings and on devices.
use unifi_mcp.Base.{
  ℕ, ◌+◌, ◌-◌, String, Bool, true, false, ◌||◌, Option, none, some, List, [], ◌∷◌, ◌==◌, str_eq,
  if◌then◌else◌, Result, ok, err, concat,
}
use unifi_mcp.Base.Json.{
  Json, null, bool, int, text, arr, obj, Items, nil, cons, Fields, end, truthy, get_or, equals,
  dict,
}
use unifi_mcp.Exceptions.{literal, api_error, not_found_error, Raised, unifi}
use unifi_mcp.Verification.Compare.{Python}
use unifi_mcp.NetworkClient.Monad.{Action, pure, raise, of_result, ◌>>=◌}
use unifi_mcp.NetworkClient.Answers.{
  attribute_error, data_of, extract_list_data, first_item, elements, record_of, either, bare_mac,
}
use unifi_mcp.NetworkClient.Site.{
  Client, get_fresh, post, session_only, site_endpoint, integration_site_endpoint,
}

-- `is_device_online`
unfoldable pub is_device_online : Python → Fields → Bool
is_device_online py device = elim (get_or "state" null device) [
  | text s ↦ str_eq (py.upper s) "ONLINE"
  | state ↦ equals state (int 1)
]

-- `response.get("data", [])` of a GET
abbrev pub get_data : Client → (no_cache : Bool) (path : String) → Option String → Action Json
get_data self no_cache path site = do
  response ← get_fresh no_cache (site_endpoint self path site)
  of_result (data_of response)

unfoldable pub get_devices : Python → Client → Option String → (fresh : Bool) → Action Json
get_devices py self site fresh =
    if self.is_integration_api
    then (do
      endpoint ← integration_site_endpoint py self "devices" site
      response ← get_fresh fresh endpoint
      pure (extract_list_data response))
    else if self.is_cloud
    then (do response ← get_fresh fresh "/v1/devices"; pure (extract_list_data response))
    else get_data self fresh "stat/device" site

-- How many devices there are, and how many are online.
count_online : Python → Items → Result Raised (ℕ × ℕ)
unfolding is_device_online
count_online py nil = ok (0, 0)
count_online py (cons device devices) =
    let rest = count_online py devices in
    elim (record_of device) [
      | err e ↦ err e
      | ok fs ↦ elim rest [
        | err e ↦ err e
        | ok (all, online) ↦ ok (all + 1, (if is_device_online py fs then online + 1 else online))
      ]
    ]

abbrev counted : Python → Json → Result Raised (ℕ × ℕ)
counted py devices = elim (elements devices) [ err e ↦ err e | ok xs ↦ count_online py xs ]

abbrev health : ℕ × ℕ → Json
health (all, online) = arr (
    cons
      (dict (
        ("subsystem", text "network")
        ∷ ("status", text (if all - online == 0 then "ok" else "degraded"))
        ∷ ("devices_online", int online)
        ∷ ("devices_offline", int (all - online))
        ∷ ("num_adopted", int all)
        ∷ ("note", text "Limited health data available via Integration API")
        ∷ []))
      nil)

unfoldable pub get_site_health : Python → Client → Option String → Action Json
unfolding count_online get_devices
get_site_health py self site =
    if self.is_integration_api || self.is_cloud
    then (do
      devices ← get_devices py self site false
      counts ← of_result (counted py devices)
      pure (health counts))
    else get_data self false "stat/health" site

unfoldable pub get_site_settings : Client → Option String → Action Json
get_site_settings self site =
    session_only self "site settings" (get_data self false "rest/setting" site)

-- The section that the settings name, if it is a text that is not empty.
abbrev pub section : Fields → Option String
section settings = elim (get_or "key" null settings) [
  | text s ↦ if str_eq s "" then none else some s
  | _ ↦ none
]

unfoldable pub update_site_settings : Client → (settings : Fields) → Option String → Action Json
update_site_settings self settings site =
    session_only self "site settings update" (elim (section settings) [
      | none ↦ raise (unifi (api_error (literal "Site settings update requires a key") none))
      | some key ↦
          post (site_endpoint self (concat ("set/setting/" ∷ key ∷ [])) site) (obj settings)
    ])

-- data[0] if data else {}
abbrev first_or_empty : Json → Result Raised Json
first_or_empty data' = if truthy data' then first_item data' else ok (obj end)

unfoldable pub get_sysinfo : Client → Option String → Action Json
get_sysinfo self site =
    session_only self "controller system info"
      (do data' ← get_data self false "stat/sysinfo" site; of_result (first_or_empty data'))

-- One entry of `get_devices_basic`
abbrev basic : Fields → Json
basic d = dict (
    ("name", get_or "name" (text "") d)
    ∷ ("mac", either (get_or "mac" null d) (get_or "macAddress" (text "") d))
    ∷ ("state", get_or "state" null d)
    ∷ ("adopted", get_or "adopted" (bool true) d)
    ∷ [])

basics : Items → Result Raised Items
basics nil = ok nil
basics (cons d ds) =
    let rest = basics ds in
    elim (record_of d) [
      | err e ↦ err e
      | ok fs ↦ elim rest [ err e ↦ err e | ok xs ↦ ok (cons (basic fs) xs) ]
    ]

abbrev basic_list : Json → Result Raised Json
basic_list devices = elim (elements devices) [
  | err e ↦ err e
  | ok xs ↦ elim (basics xs) [ err e ↦ err e | ok ys ↦ ok (arr ys) ]
]

unfoldable pub get_devices_basic : Python → Client → Option String → Action Json
unfolding basics get_devices
get_devices_basic py self site =
    if self.is_integration_api || self.is_cloud
    then (do devices ← get_devices py self site false; of_result (basic_list devices))
    else get_data self false "stat/device-basic" site

-- The mac of a device: device.get("mac") or device.get("macAddress") or ""
abbrev pub device_mac : Fields → Json
device_mac d = either (either (get_or "mac" null d) (get_or "macAddress" null d)) (text "")

unfoldable pub find_device : Python → (mac : String) → Items → Result Raised (Option Json)
find_device py mac nil = ok none
find_device py mac (cons device devices) =
    let rest = find_device py mac devices in
    elim (record_of device) [
      | err e ↦ err e
      | ok fs ↦ elim (device_mac fs) [
        | text s ↦ if str_eq (bare_mac py s) mac then ok (some device) else rest
        | _ ↦ err attribute_error
      ]
    ]

abbrev pub found_in : (Items → Result Raised (Option Json)) → Json → Result Raised (Option Json)
found_in find answer = elim (elements answer) [ err e ↦ err e | ok xs ↦ find xs ]

abbrev pub or_not_found : (kind mac : String) → Option Json → Action Json
or_not_found kind mac none = raise (unifi (not_found_error kind mac))
or_not_found kind mac (some found) = pure found

unfoldable pub get_device : Python → Client → String → Option String → (fresh : Bool) → Action Json
unfolding find_device get_devices
get_device py self mac site fresh = do
  devices ← get_devices py self site fresh
  found ← of_result (found_in (find_device py (bare_mac py mac)) devices)
  or_not_found "Device" mac found

-- A command to a manager of the controller.
abbrev pub command :
    Client → (feature path : String) → List (String × Json) → Option String → Action Json
command self feature path payload site =
    session_only self feature (post (site_endpoint self path site) (dict payload))

abbrev pub on_mac : Python → (cmd mac : String) → List (String × Json)
on_mac py cmd mac = ("cmd", text cmd) ∷ ("mac", text (py.lower mac)) ∷ []

unfoldable pub restart_device : Python → Client → String → Option String → Action Json
restart_device py self mac site =
    command self "device restart" "cmd/devmgr" (on_mac py "restart" mac) site

unfoldable pub locate_device :
    Python → Client → String → (enabled : Bool) → Option String → Action Json
locate_device py self mac enabled site =
    command self "device locate (LED blink)" "cmd/devmgr"
      (on_mac py (if enabled then "set-locate" else "unset-locate") mac) site

unfoldable pub upgrade_device : Python → Client → String → Option String → Action Json
upgrade_device py self mac site =
    command self "device firmware upgrade" "cmd/devmgr" (on_mac py "upgrade" mac) site

unfoldable pub provision_device : Python → Client → String → Option String → Action Json
provision_device py self mac site =
    command self "device provisioning" "cmd/devmgr" (on_mac py "force-provision" mac) site

unfoldable pub get_device_port_table :
    Python → Client → String → Option String → (fresh : Bool) → Action Json
unfolding get_device
get_device_port_table py self mac site fresh = do
  device ← get_device py self mac site fresh
  of_result
      (elim (record_of device) [ err e ↦ err e | ok fs ↦ ok (get_or "port_table" (arr nil) fs) ])
