-- ===== src/Oidc/Examples.antt =====
-- A verifier whose issuer rotates its keys: the token names "k2", which only the second answer has.
use unifi_mcp.Base.{
  ◌+◌, String, ◌≡◌, refl, true, false, none, some, List, [], ◌∷◌, arith, ◌==◌, if◌then◌else◌, ok,
}
use unifi_mcp.Base.Json.{int, text, arr, obj, Items, nil, cons, Fields, get_field, get_or, fields}
use unifi_mcp.Base.Table.{select_where}
use unifi_mcp.Base.Table.{select_where}
use unifi_mcp.Oidc.{
  World, Config, Verifier, AccessToken, fetch_discovery, get_discovery, store_jwks, fetch_jwks,
  cached_jwks, answer_or_fetch, locked_jwks, get_jwks, key_by_id,
}
use unifi_mcp.Oidc.Verify.{find_key, parse_scopes, accept, claims_of, verify_body, verify_token}
use unifi_mcp.Oidc.Accept.{Shown, verify_token-Shown}
use unifi_mcp.Oidc.Refresh.{Passage, after, forced_refresh-spaced}

abbrev cfg : Config
cfg = record {
  issuer = "https://id";
  audience = "unifi";
  algorithms = "RS256" ∷ [];
  required_scope = "unifi:read";
  cache_ttl = 300;
}

abbrev key : String → Fields
key id = fields (("kid", text id) ∷ ("use", text "sig") ∷ [])

abbrev keys : List Fields → Fields
keys ks = fields (("keys", arr (items ks)) ∷ [])
  where
    items : List Fields → Items
    items [] = nil
    items (k ∷ more) = cons (obj k) (items more)

abbrev claims : Fields
claims =
    fields (
      ("sub", text "alice") ∷ ("scope", arr (cons (text "unifi:read") nil)) ∷ ("exp", int 100) ∷ [])

abbrev world : World
world = record {
  get_unverified_header = λ t. ok (fields (("alg", text "RS256") ∷ ("kid", text "k2") ∷ []));
  decode = λ t k a. ok claims;
  urlparse = λ u. record {
    scheme = "https";
    username = none;
    password = none;
    fragment = "";
    hostname = some "id";
    port = none;
    port_invalid = false;
    netloc = "id";
  };
  split = λ s. s ∷ [];
  has_space = λ s. false;
  clock = λ n. 1000 + n;
  get_json = λ n url.
      if n == 0
      then ok (fields (("issuer", text "https://id/") ∷ ("jwks_uri", text "https://id/k") ∷ []))
      else if n == 1
      then ok (keys (key "k1" ∷ []))
      else ok (keys (key "k2" ∷ key "k1" ∷ []));
}

abbrev start : Verifier
start = record {
  discovery = none;
  jwks = none;
  last_forced_refresh = none;
  ticks = 0;
  requests = 0;
}

abbrev token : AccessToken
token = record {
  token = "t";
  client_id = "alice";
  scopes = "unifi:read" ∷ [];
  expires_at = int 100;
  subject = "alice";
  resource = "unifi";
}

verified :
    verify_token cfg "t" world start ≡ (ok (some token), (verify_token cfg "t" world start).1)
unfolding verify_token verify_body get_discovery fetch_discovery find_key get_jwks locked_jwks
    answer_or_fetch cached_jwks fetch_jwks store_jwks key_by_id claims_of accept parse_scopes get_or
    get_field select_where
verified = refl

verify_token-Shown_example : Shown cfg world start "t" token
verify_token-Shown_example =
    verify_token-Shown cfg "t" world start token (verify_token cfg "t" world start).1 verified

fetched : locked_jwks cfg "https://id/k" true 1000 world (record start { requests = 1 }) ≡ (
  ok (keys (key "k1" ∷ [])),
  record {
    discovery = none;
    jwks = some (1300, keys (key "k1" ∷ []));
    last_forced_refresh = some 1000;
    ticks = 0;
    requests = 2;
  },
)
unfolding locked_jwks answer_or_fetch cached_jwks fetch_jwks store_jwks get_or get_field
fetched = refl

abbrev refreshed_keys : Verifier
refreshed_keys = record {
  discovery = none;
  jwks = some (1300, keys (key "k1" ∷ []));
  last_forced_refresh = some 1000;
  ticks = 0;
  requests = 2;
}

abbrev passages : List Passage
passages = record { uri = "https://id/k"; force = false; now = 1010 } ∷ []

forced_refresh-spaced_example :
    (locked_jwks cfg "https://id/k" true 1059 world (after cfg world passages refreshed_keys)).1
    ≡ after cfg world passages refreshed_keys
forced_refresh-spaced_example =
    forced_refresh-spaced cfg world 1000 "https://id/k" (record start { requests = 1 })
      (keys (key "k1" ∷ [])) refreshed_keys passages "https://id/k" 1059 fetched refl
      (omega arith, tt) (omega arith)
