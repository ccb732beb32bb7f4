-- ===== src/NetworkClient/Site.antt =====
-- clients/network.py: the client, its endpoints, and the sites that they name.
use unifi_mcp.Base.{
  String, Bool, false, not, ◌||◌, Option, none, some, [], ◌∷◌, str_eq, if◌then◌else◌, Result, ok,
  err, concat,
}
use unifi_mcp.Base.Json.{Json, null, text, arr, obj, nil, get_or}
use unifi_mcp.Base.Dict.{get_item, set_item}
use unifi_mcp.Exceptions.{Message, literal, api_error, not_found_error, unifi}
use unifi_mcp.Verification.Compare.{Python}
use unifi_mcp.Settings as Settings
use unifi_mcp.Settings.{
  Texts, UniFiSettings, Device, head, has_network, is_local, get_network_devices,
}
use unifi_mcp.NetworkClient.Monad.{
  Method, get_method, post_method, put_method, delete_method, Action, pure, raise, of_result,
  request, ◌>>=◌,
}
use unifi_mcp.NetworkClient.Answers.{data_of, find_site, find_in}

-- The fields of `UniFiNetworkClient`.
pub record Client : Type 0 where
  pub site : String
  pub is_cloud : Bool
  pub is_integration_api : Bool

-- self.get, self.post, self.put and self.delete
abbrev pub get_fresh : (no_cache : Bool) → String → Action Json
get_fresh no_cache endpoint = request (record {
  method = get_method;
  endpoint = endpoint;
  params = null;
  payload = null;
  no_cache = no_cache;
})

abbrev pub get : String → Action Json
get endpoint = get_fresh false endpoint

abbrev pub get_with : (params : Json) → String → Action Json
get_with params endpoint = request (record {
  method = get_method;
  endpoint = endpoint;
  params = params;
  payload = null;
  no_cache = false;
})

abbrev change : Method → String → Json → Action Json
change method endpoint payload = request (record {
  method = method;
  endpoint = endpoint;
  params = null;
  payload = payload;
  no_cache = false;
})

abbrev pub post : String → Json → Action Json
post endpoint payload = change post_method endpoint payload

abbrev pub put : String → Json → Action Json
put endpoint payload = change put_method endpoint payload

abbrev pub delete : String → Action Json
delete endpoint = change delete_method endpoint null

-- The device that the client is for.
unfoldable pub device_of : Texts → UniFiSettings → Option String → Result String (Option Device)
device_of t s none = ok (head (get_network_devices s))
device_of t s (some name) = elim (Settings.get_device t s (some name)) [
  | none ↦ err "ValueError"
  | some d ↦ if has_network d then ok (some d) else err "ValueError"
]

unfoldable pub client_of : UniFiSettings → Option Device → Client
client_of s none = record {
  site = s.site;
  is_cloud = Settings.is_cloud s.mode;
  is_integration_api = false;
}
client_of s (some d) = record {
  site = d.site;
  is_cloud = false;
  is_integration_api = not (is_local s.mode);
}

-- `__init__`
unfoldable pub new_client : Texts → UniFiSettings → Option String → Result String Client
unfolding device_of client_of
new_client t s name = elim (device_of t s name) [
  | err e ↦ err e
  | ok device ↦ ok (client_of s device)
]

-- `_require_traditional_api`, under the test that every caller makes
unfoldable pub session_only : Client → (feature : String) → Action Json → Action Json
session_only self feature rest =
    if self.is_integration_api || self.is_cloud
    then raise (unifi (api_error (Message.around feature (literal "unavailable")) none))
    else rest

-- site or self.site
abbrev pub site_or : Client → Option String → String
site_or self none = self.site
site_or self (some s) = if str_eq s "" then self.site else s

-- `_site_endpoint`
unfoldable pub site_endpoint : Client → String → Option String → String
site_endpoint self path site = concat ("/api/s/" ∷ site_or self site ∷ "/" ∷ path ∷ [])

-- `get_sites`
unfoldable pub get_sites : Client → Action Json
unfolding data_of
get_sites self =
    if self.is_cloud || self.is_integration_api
    then (get "/v1/sites" >>= λ response. pure (listed response))
    else (get "/api/self/sites" >>= λ response. of_result (data_of response))
  where
    listed : Json → Json
    listed (arr xs) = arr xs
    listed (obj fs) = get_or "data" (obj fs) fs
    listed response = arr nil

unfoldable pub remember : String → Option Json → Action Json
remember site_name none c st = (err (unifi (not_found_error "Site" site_name)), st)
remember site_name (some id) c st =
    (ok id, record st { site_ids = set_item site_name id st.site_ids })

unfoldable pub look_up : Python → Client → String → Action Json
unfolding find_site remember get_sites
look_up py self site_name =
    get_sites self >>= λ sites. of_result (find_in py site_name sites) >>= remember site_name

-- The id of the cache, or else of the sites.
unfoldable pub known_or_look_up : Python → Client → String → Option Json → Action Json
unfolding look_up
known_or_look_up py self site_name (some id) c st = (ok id, st)
known_or_look_up py self site_name none c st = look_up py self site_name c st

-- `_get_site_id`
unfoldable pub get_site_id : Python → Client → Option String → Action Json
unfolding known_or_look_up
get_site_id py self site c st =
    let site_name = site_or self site in
    known_or_look_up py self site_name (get_item site_name st.site_ids) c st

-- f"{value}" in a path
abbrev pub formatted : Python → Json → String
formatted py (text s) = s
formatted py value = py.str value

-- `_integration_site_endpoint`
unfoldable pub integration_site_endpoint : Python → Client → String → Option String → Action String
unfolding get_site_id
integration_site_endpoint py self path site = get_site_id py self site >>= λ site_id.
    pure (concat ("/v1/sites/" ∷ formatted py site_id ∷ "/" ∷ path ∷ []))
