-- ===== src/NetworkClient/Clients.antt =====
-- clients/network.py: the methods on clients, statistics and events.
use unifi_mcp.Base.{
  min, String, Bool, true, false, not, ◌&&◌, Option, none, some, List, [], ◌∷◌, ◌==◌, str_eq,
  if◌then◌else◌, Result, ok, err, concat,
}
use unifi_mcp.Base.Json.{
  Json, null, bool, text, arr, Items, nil, cons, Fields, truthy, get_field, get_or, Integer, nat,
  number, dict,
}
use unifi_mcp.Exceptions.{ErrorClass, is_instance, status_code, Raised, unifi}
use unifi_mcp.Verification.Compare.{Python}
use unifi_mcp.NetworkClient.Monad.{Action, pure, of_result, ◌>>=◌}
use unifi_mcp.NetworkClient.Answers.{
  attribute_error, data_of, extract_list_data, first_data, record_of, bare_mac,
}
use unifi_mcp.NetworkClient.Site.{
  Client, get_fresh, get, get_with, post, put, session_only, site_endpoint, formatted,
  integration_site_endpoint,
}
use unifi_mcp.NetworkClient.Devices.{get_data, found_in, or_not_found, command, on_mac}

-- `is_wireless_client`
unfoldable pub is_wireless_client : Python → Fields → Bool
is_wireless_client py client =
    let kind = get_or "type" null client in
    if truthy kind
    then str_eq (py.upper (formatted py kind)) "WIRELESS"
    else elim (get_field "is_wired" client) [ none ↦ false | some wired ↦ not (truthy wired) ]

unfoldable pub get_clients : Python → Client → Option String → (fresh : Bool) → Action Json
get_clients py self site fresh =
    if self.is_integration_api
    then (do
      endpoint ← integration_site_endpoint py self "clients" site
      response ← get_fresh fresh endpoint
      pure (extract_list_data response))
    else if self.is_cloud
    then (do response ← get_fresh fresh "/v1/clients"; pure (extract_list_data response))
    else get_data self fresh "stat/sta" site

unfoldable pub get_all_clients : Client → Option String → (fresh : Bool) → Action Json
get_all_clients self site fresh =
    session_only self "known (offline) clients list" (get_data self fresh "stat/alluser" site)

-- The loops of `get_client`
unfoldable pub find_client : Python → (mac : String) → Items → Result Raised (Option Json)
find_client py mac nil = ok none
find_client py mac (cons client clients) =
    let rest = find_client py mac clients in
    elim (record_of client) [
      | err e ↦ err e
      | ok fs ↦ elim (get_or "mac" (text "") fs) [
        | text s ↦ if str_eq (bare_mac py s) mac then ok (some client) else rest
        | _ ↦ err attribute_error
      ]
    ]

abbrev is_api : Raised → Bool
is_api (unifi e) = is_instance e ErrorClass.api
is_api e = false

-- try: action; except UniFiAPIError: []
abbrev or_empty : Action Json → Action Json
or_empty action c st =
    let (r, st') = action c st in
    elim r [ ok a ↦ (ok a, st') | err e ↦ if is_api e then (ok (arr nil), st') else (err e, st') ]

unfoldable pub get_client : Python → Client → String → Option String → Action Json
unfolding find_client get_clients get_all_clients is_instance
get_client py self mac site = do
  clients ← get_clients py self site false
  connected ← of_result (found_in (find_client py (bare_mac py mac)) clients)
  elim connected [
    | some client ↦ pure client
    | none ↦ (do
      all_clients ← or_empty (get_all_clients self site false)
      known ← of_result (found_in (find_client py (bare_mac py mac)) all_clients)
      or_not_found "Client" mac known)
  ]

unfoldable pub block_client : Python → Client → String → Option String → Action Json
block_client py self mac site =
    command self "client blocking" "cmd/stamgr" (on_mac py "block-sta" mac) site

unfoldable pub unblock_client : Python → Client → String → Option String → Action Json
unblock_client py self mac site =
    command self "client unblocking" "cmd/stamgr" (on_mac py "unblock-sta" mac) site

unfoldable pub kick_client : Python → Client → String → Option String → Action Json
kick_client py self mac site =
    command self "client kick/disconnect" "cmd/stamgr" (on_mac py "kick-sta" mac) site

unfoldable pub forget_client : Python → Client → String → Option String → Action Json
forget_client py self mac site =
    command self "client removal" "cmd/stamgr" (on_mac py "forget-sta" mac) site

-- The payload of `set_client_fixed_ip`
abbrev pub fixed_ip_data : Option String → Json
fixed_ip_data none = dict (("use_fixedip", bool false) ∷ [])
fixed_ip_data (some ip) =
    if str_eq ip ""
    then dict (("use_fixedip", bool false) ∷ [])
    else dict (("use_fixedip", bool true) ∷ ("fixed_ip", text ip) ∷ [])

unfoldable pub set_client_fixed_ip :
    Client → (client_id : String) (fixed_ip : Option String) → Option String → Action Json
set_client_fixed_ip self client_id fixed_ip site =
    let endpoint = site_endpoint self (concat ("rest/user/" ∷ client_id ∷ [])) site in
    session_only self "DHCP reservations" (do
      response ← put endpoint (fixed_ip_data fixed_ip)
      updated ← of_result (first_data response)
      (if truthy updated
          then pure updated
          else (do record' ← get endpoint; of_result (first_data record'))))

abbrev is_404 : Raised → Bool
is_404 (unifi e) =
    is_instance e ErrorClass.api && (elim (status_code e) [ none ↦ false | some s ↦ s == 404 ])
is_404 e = false

-- `response.get("data", [])` of a GET, or [] where the controller has no such endpoint
unfoldable pub data_or_404 : Action Json → Action Json
unfolding is_instance status_code
data_or_404 request' c st =
    let (r, st') = request' c st in
    elim r [
      | ok response ↦ (data_of response, st')
      | err e ↦ if is_404 e then (ok (arr nil), st') else (err e, st')
    ]

-- min(limit, 3000)
abbrev capped : Integer → Integer
capped (nat n) = nat (min n 3000)
capped n = n

unfoldable pub get_events : Client → (limit : Integer) → Option String → Action Json
unfolding data_or_404
get_events self limit site = session_only self "network events" (
    data_or_404 (
      get_with (dict (("_limit", number (capped limit)) ∷ []))
        (site_endpoint self "stat/event" site)))

unfoldable pub get_alarms : Client → Option String → Action Json
unfolding data_or_404
get_alarms self site =
    session_only self "alarms" (data_or_404 (get (site_endpoint self "stat/alarm" site)))

unfoldable pub archive_alarms : Client → Option String → Action Json
archive_alarms self site =
    command self "alarm archiving" "cmd/evtmgr" (("cmd", text "archive-all-alarms") ∷ []) site

-- `response.get("data", [])` of a POST
abbrev post_data : Client → (path : String) → List (String × Json) → Option String → Action Json
post_data self path payload site = do
  response ← post (site_endpoint self path site) (dict payload)
  of_result (data_of response)

unfoldable pub get_dpi_stats : Client → Option String → Action Json
get_dpi_stats self site =
    session_only self "DPI statistics"
      (post_data self "stat/sitedpi" (("type", text "by_app") ∷ []) site)

unfoldable pub get_client_dpi_stats : Python → Client → String → Option String → Action Json
get_client_dpi_stats py self mac site = session_only self "per-client DPI statistics" (
    post_data self "stat/stadpi"
      (("type", text "by_app") ∷ ("macs", arr (cons (text (py.lower mac)) nil)) ∷ []) site)

unfoldable pub run_speed_test : Client → Option String → Action Json
run_speed_test self site =
    command self "speed tests" "cmd/devmgr" (("cmd", text "speedtest") ∷ []) site

unfoldable pub get_speed_test_status : Client → Option String → Action Json
get_speed_test_status self site =
    command self "speed test status" "cmd/devmgr" (("cmd", text "speedtest-status") ∷ []) site
