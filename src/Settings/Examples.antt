-- ===== src/Settings/Examples.antt =====
-- A server behind HTTPS, with one allowlisted plugin.
use unifi_mcp.Base.{String, ◌≡◌, refl, true, false, none, some, [], ◌∷◌, str_eq, ok}
use unifi_mcp.Settings.{Texts, ParsedUrl, UniFiSettings, local, comma_items, check_http, validate}
use unifi_mcp.Settings.Safe.{SafeSettings, validate-SafeSettings}

abbrev texts : Texts
texts = record {
  strip = λ s. s;
  lower = λ s. s;
  upper = λ s. s;
  split_commas = λ s. s ∷ [];
  split_slashes = λ s. s ∷ [];
  starts_with_slash = λ s. str_eq s "/mcp";
  has_space = λ s. false;
  rstrip_slash = λ s. s;
  is_alnum_or_underscore = λ s. true;
}

abbrev urlparse : String → ParsedUrl
urlparse s = record {
  scheme = "https";
  netloc = "id";
  username = none;
  password = none;
  path = "/mcp";
  query = "";
  fragment = "";
}

abbrev settings : UniFiSettings
settings = record {
  listed_devices = [];
  mode = local;
  controller_url = some "https://c";
  cloud_api_key = none;
  site = "default";
  is_udm = true;
  default_device_name = "default";
  mutation_verify_initial_delay = 500;
  mutation_verify_max_delay = 2000;
  prometheus_enabled = true;
  prometheus_host = "0.0.0.0";
  prometheus_allow_remote = true;
  prometheus_bearer_token_env = some "TOKEN";
  plugin_allowlist = "extra";
  plugin_required = "extra";
  streamable_http = true;
  http_host = "127.0.0.1";
  http_path = "/mcp";
  http_allow_remote = false;
  http_public_url = some "https://id/mcp";
  oidc_issuer = some "https://id";
  oidc_audience = some "unifi";
  oidc_algorithms = "RS256";
  oidc_read_scope = "unifi:read";
  oidc_write_scope = "unifi:write";
  oidc_admin_scope = "unifi:admin";
}

valid : validate texts urlparse settings ≡ ok tt
unfolding validate comma_items check_http
valid = refl

validate-SafeSettings_example : SafeSettings texts urlparse settings
validate-SafeSettings_example = validate-SafeSettings texts urlparse settings valid
