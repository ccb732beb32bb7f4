-- ===== src/Settings.antt =====
-- config.py: the cross-field checks of the settings, and the devices and URLs that they give.
pub mod Safe
mod Examples
use unifi_mcp.Base.{
  ℕ, String, Bool, true, false, not, ◌&&◌, ◌||◌, Option, none, some, List, [], ◌∷◌, map, ltb, ◌==◌,
  str_eq, if◌then◌else◌, Result, ok, err, ◌>>=◌, ◌>>◌, raise_if, length, elem, concat,
}
use unifi_mcp.Base.Table.{select_where, find_where}

-- Python on texts, and `urlparse`.
pub record Texts : Type 0 where
  pub strip : String → String
  pub lower : String → String
  pub upper : String → String
  pub split_commas : String → List String
  pub split_slashes : String → List String
  pub starts_with_slash : String → Bool
  pub has_space : String → Bool
  pub rstrip_slash : String → String
  pub is_alnum_or_underscore : String → Bool

pub record ParsedUrl : Type 0 where
  pub scheme : String
  pub netloc : String
  pub username : Option String
  pub password : Option String
  pub path : String
  pub query : String
  pub fragment : String

pub data Mode : Type 0 where
  local local_api_key cloud : Mode

-- What of a `UniFiDevice` decides which services it has.
pub record Device : Type 0 where
  pub name : String
  pub url : String
  pub services : List String
  pub site : String

-- The fields of `UniFiSettings` that the checks and the properties read; `listed_devices` is what
-- UNIFI_DEVICES gives: its devices up to the first that cannot be built.
pub record UniFiSettings : Type 0 where
  pub listed_devices : List Device
  pub mode : Mode
  pub controller_url : Option String
  pub cloud_api_key : Option String
  pub site : String
  pub is_udm : Bool
  pub default_device_name : String
  pub mutation_verify_initial_delay : ℕ
  pub mutation_verify_max_delay : ℕ
  pub prometheus_enabled : Bool
  pub prometheus_host : String
  pub prometheus_allow_remote : Bool
  pub prometheus_bearer_token_env : Option String
  pub plugin_allowlist : String
  pub plugin_required : String
  pub streamable_http : Bool
  pub http_host : String
  pub http_path : String
  pub http_allow_remote : Bool
  pub http_public_url : Option String
  pub oidc_issuer : Option String
  pub oidc_audience : Option String
  pub oidc_algorithms : String
  pub oidc_read_scope : String
  pub oidc_write_scope : String
  pub oidc_admin_scope : String

-- One constructor per message of a ValueError.
pub data SettingsError : Type 0 where
  bad_delays remote_prometheus bad_token_env required_not_allowed bad_algorithms incomplete_http :
      SettingsError
  bad_url bad_path bad_scopes remote_http no_device_configured no_controller_url : SettingsError

abbrev pub filled : Option String → Bool
filled none = false
filled (some s) = not (str_eq s "")

abbrev pub nonempty : List String → List String
nonempty [] = []
nonempty (s ∷ ss) = if str_eq s "" then nonempty ss else s ∷ nonempty ss

abbrev pub each : (String → String) → List String → List String
each f [] = []
each f (s ∷ ss) = f s ∷ each f ss

-- {item.strip() for item in value.split(",") if item.strip()}
unfoldable pub comma_items : Texts → String → List String
comma_items t value = nonempty (each t.strip (t.split_commas value))

-- a <= b, of sets
abbrev pub subset : List String → List String → Bool
subset [] b = true
subset (x ∷ a) b = elem x b && subset a b

abbrev pub loopback_hosts : List String
loopback_hosts = "127.0.0.1" ∷ "::1" ∷ "localhost" ∷ []

abbrev pub allowed_algorithms : List String
allowed_algorithms = "RS256" ∷ "RS384" ∷ "RS512" ∷ "ES256" ∷ "ES384" ∷ "ES512" ∷ []

-- A name of an environment variable
abbrev pub bad_env : Texts → Option String → Bool
bad_env t none = false
bad_env t (some name) =
    str_eq name "" || not (t.is_alnum_or_underscore name) || not (str_eq (t.upper name) name)

abbrev pub bad_parsed : ParsedUrl → Bool
bad_parsed u =
    not (str_eq u.scheme "https")
    || str_eq u.netloc ""
    || filled u.username
    || filled u.password
    || not (str_eq u.query "")
    || not (str_eq u.fragment "")

abbrev pub url_of : Option String → String
url_of none = ""
url_of (some s) = s

abbrev pub bad_scope : Texts → String → Bool
bad_scope t scope = str_eq (t.strip scope) "" || t.has_space scope

abbrev pub same_scopes : UniFiSettings → Bool
same_scopes s =
    str_eq s.oidc_read_scope s.oidc_write_scope
    || str_eq s.oidc_read_scope s.oidc_admin_scope
    || str_eq s.oidc_write_scope s.oidc_admin_scope

-- The checks for the HTTP transport
unfoldable pub check_http :
    Texts → (urlparse : String → ParsedUrl) → UniFiSettings → Result SettingsError (Unit {0})
check_http t urlparse s = do
  raise_if
      (not (filled s.oidc_issuer) || not (filled s.oidc_audience) || not (filled s.http_public_url))
      incomplete_http
  raise_if (bad_parsed (urlparse (url_of s.oidc_issuer))) bad_url
  raise_if (bad_parsed (urlparse (url_of s.http_public_url))) bad_url
  raise_if
      (not (t.starts_with_slash s.http_path)
        || elem ".." (t.split_slashes s.http_path)
        || not (str_eq (urlparse (url_of s.http_public_url)).path s.http_path))
      bad_path
  raise_if
      (same_scopes s
        || bad_scope t s.oidc_read_scope
        || bad_scope t s.oidc_write_scope
        || bad_scope t s.oidc_admin_scope)
      bad_scopes
  raise_if (not (elem s.http_host loopback_hosts) && not s.http_allow_remote) remote_http

-- `validate_mutation_verify_delays`, which checks the rest of the settings too
unfoldable pub validate :
    Texts → (urlparse : String → ParsedUrl) → UniFiSettings → Result SettingsError (Unit {0})
unfolding comma_items check_http
validate t urlparse s = do
  raise_if (ltb s.mutation_verify_max_delay s.mutation_verify_initial_delay) bad_delays
  raise_if
      (s.prometheus_enabled
        && not (elem s.prometheus_host loopback_hosts)
        && (not s.prometheus_allow_remote || not (filled s.prometheus_bearer_token_env)))
      remote_prometheus
  raise_if (bad_env t s.prometheus_bearer_token_env) bad_token_env
  raise_if (not (subset (comma_items t s.plugin_required) (comma_items t s.plugin_allowlist)))
      required_not_allowed
  raise_if
      (length (comma_items t s.oidc_algorithms) == 0
        || not (subset (comma_items t s.oidc_algorithms) allowed_algorithms))
      bad_algorithms
  if s.streamable_http then check_http t urlparse s else ok tt

-- `devices`
unfoldable pub devices : UniFiSettings → List Device
devices s = elim s.listed_devices [
  | d ∷ ds ↦ d ∷ ds
  | [] ↦
      if filled s.controller_url && filled s.cloud_api_key
      then record {
        name = s.default_device_name;
        url = url_of s.controller_url;
        services = "network" ∷ [];
        site = s.site;
      }
        ∷ []
      else []
]

abbrev pub head : List Device → Option Device
head [] = none
head (d ∷ ds) = some d

-- `get_device`
unfoldable pub get_device : Texts → UniFiSettings → Option String → Option Device
unfolding devices
get_device t s none = head (devices s)
get_device t s (some name) = find_where (λ d. str_eq (t.lower d.name) (t.lower name)) (devices s)

abbrev pub has_network : Device → Bool
has_network d = elem "network" d.services

-- `get_network_devices`, `get_protect_devices` and `get_device_names`
unfoldable pub get_network_devices : UniFiSettings → List Device
get_network_devices s = select_where has_network (devices s)

unfoldable pub get_protect_devices : UniFiSettings → List Device
get_protect_devices s = select_where (λ d. elem "protect" d.services) (devices s)

unfoldable pub get_device_names : UniFiSettings → List String
get_device_names s = map (λ d. d.name) (devices s)

abbrev pub is_cloud : Mode → Bool
is_cloud cloud = true
is_cloud _ = false

abbrev pub is_local : Mode → Bool
is_local local = true
is_local _ = false

abbrev pub controller_base : Texts → UniFiSettings → (udm other : String) → String
controller_base t s udm other =
    concat (t.rstrip_slash (url_of s.controller_url) ∷ (if s.is_udm then udm else other) ∷ [])

-- `api_base_url`
unfoldable pub api_base_url : Texts → UniFiSettings → Result SettingsError String
unfolding devices
api_base_url t s =
    let legacy =
      if filled s.controller_url
      then ok (controller_base t s "/proxy/network" "")
      else err no_device_configured in
    if is_cloud s.mode then ok "https://api.ui.com" else elim (head (devices s)) [
      | none ↦ legacy
      | some d ↦
          if is_local s.mode
          then legacy
          else ok (concat (t.rstrip_slash d.url ∷ "/proxy/network/integration" ∷ []))
    ]

-- `uses_api_key`
unfoldable pub uses_api_key : UniFiSettings → Bool
unfolding devices
uses_api_key s = elim (devices s) [
  | d ∷ ds ↦ true
  | [] ↦ not (is_local s.mode) && filled s.cloud_api_key
]

-- `auth_url` and `logout_url`
unfoldable pub auth_url : Texts → UniFiSettings → Result SettingsError String
auth_url t s =
    if filled s.controller_url
    then ok (controller_base t s "/api/auth/login" "/api/login")
    else err no_controller_url

unfoldable pub logout_url : Texts → UniFiSettings → Result SettingsError String
logout_url t s =
    if filled s.controller_url
    then ok (controller_base t s "/api/auth/logout" "/api/logout")
    else err no_controller_url
