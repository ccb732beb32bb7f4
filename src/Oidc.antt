-- ===== src/Oidc.antt =====
-- auth/oidc.py: the verifier of bearer tokens, with its cached metadata. JSON Web Tokens, URLs, the
-- clock and the issuer's answers are parameters.
pub mod Verify
mod Metadata
mod Keys
mod Header
pub mod Accept
pub mod Refresh
mod Examples
use unifi_mcp.Base.{
  ℕ, ◌+◌, ◌-◌, ◌/◌, ◌<◌, min, String, Bool, true, false, not, ◌&&◌, Option, none, some, List, [],
  ◌∷◌, ltb, ◌==◌, str_eq, if◌then◌else◌, Result, ok, err, concat,
}
use unifi_mcp.Base.Json.{
  Json, null, text, arr, obj, Items, nil, cons, Fields, get_field, get_or, is_text,
}
use Prim.Native.Char.{code}
use unifi_mcp.Base.Table.{}
use unifi_mcp.Destinations.{SplitResult}

-- What is raised: `caught` by the last `except`, the signature error of `decode`, which `verify_token`
-- retries, or an AttributeError, which it lets through.
pub data Failure : Type 0 where
  caught invalid_signature attribute_error : Failure

-- `jwt`, `urlparse`, `str.split` and `str.isspace`, and the world: the clock at its n-th reading, and
-- the answer to the n-th request, unless `_get_json` raises.
pub record World : Type 0 where
  pub get_unverified_header : String → Result Failure Fields
  pub decode : (token : String) → (jwk : Fields) → (algorithm : String) → Result Failure Fields
  pub urlparse : String → SplitResult
  pub split : String → List String
  pub has_space : String → Bool
  pub clock : ℕ → ℕ
  pub get_json : ℕ → (url : String) → Result Failure Fields

-- `issuer` is without its trailing slashes; times are in seconds.
pub record Config : Type 0 where
  pub issuer : String
  pub audience : String
  pub algorithms : List String
  pub required_scope : String
  pub cache_ttl : ℕ

-- `_refresh_cooldown_seconds`
abbrev pub refresh_cooldown : Config → ℕ
refresh_cooldown cfg = min cfg.cache_ttl 60

-- The caches, each with the time at which it expires; `last_forced_refresh` is `none` for -inf. The
-- counts are of the readings of the clock and of the requests.
pub record Verifier : Type 0 where
  pub discovery : Option (ℕ × Fields)
  pub jwks : Option (ℕ × Fields)
  pub last_forced_refresh : Option ℕ
  pub ticks : ℕ
  pub requests : ℕ

pub record AccessToken : Type 0 where
  pub token : String
  pub client_id : String
  pub scopes : List String
  pub expires_at : Json
  pub subject : String
  pub resource : String

abbrev pub Step : Type 0 → Type 0
Step A = World → Verifier → Result Failure A × Verifier

infixl 5 ◌>>=◌ ◌>>◌
abbrev pub ◌>>=◌ : {A B : Type 0} → Step A → (A → Step B) → Step B
◌>>=◌ m f w v = let (r, v') = m w v in elim r [ ok a ↦ f a w v' | err e ↦ (err e, v') ]

abbrev pub ◌>>◌ : {A B : Type 0} → Step A → Step B → Step B
m >> k = m >>= λ _. k

abbrev pub pure : {A : Type 0} → A → Step A
pure a w v = (ok a, v)

abbrev pub of_result : {A : Type 0} → Result Failure A → Step A
of_result r w v = (r, v)

-- time.monotonic()
abbrev pub monotonic : Step ℕ
monotonic w v = (ok (w.clock v.ticks), record v { ticks = v.ticks + 1 })

-- `_get_json`
abbrev pub get_json : String → Step Fields
get_json url w v = (w.get_json v.requests url, record v { requests = v.requests + 1 })

abbrev raise_unless : Bool → Failure → Result Failure (Unit {0})
raise_unless test e = if test then ok tt else err e

-- s.rstrip("/")
abbrev pub rstrip : String → String
rstrip String.[] = String.[]
rstrip (String.◌∷◌ c s) =
    let rest = rstrip s in if code c == b'/' && str_eq rest "" then String.[] else String.◌∷◌ c rest

-- A cached value that has not expired.
abbrev pub current : ℕ → Option (ℕ × Fields) → Option Fields
current now none = none
current now (some (until, value)) = if ltb now until then some value else none

-- discovery.get("issuer", "").rstrip("/")
abbrev pub issuer_of : Fields → Result Failure String
issuer_of d = elim (get_or "issuer" (text "") d) [
  | text s ↦ ok (rstrip s)
  | _ ↦ err attribute_error
]

abbrev blank : Option String → Bool
blank none = true
blank (some s) = str_eq s ""

abbrev pub valid_uri : World → Json → Bool
valid_uri w (text uri) =
    let parsed = w.urlparse uri in
    str_eq parsed.scheme "https"
    && not (str_eq parsed.netloc "")
    && blank parsed.username
    && blank parsed.password
valid_uri w uri = false

abbrev pub raise_if' : Bool → Failure → Step (Unit {0})
raise_if' test e = of_result (if test then err e else ok tt)

abbrev pub store_discovery : Config → (now : ℕ) → Fields → Step Fields
store_discovery cfg now discovery w v =
    if valid_uri w (get_or "jwks_uri" null discovery)
    then (ok discovery, record v { discovery = some (now + cfg.cache_ttl, discovery) })
    else (err caught, v)

abbrev pub with_issuer : Config → (now : ℕ) → Fields → (issuer : String) → Step Fields
with_issuer cfg now discovery issuer =
    raise_if' (not (str_eq issuer cfg.issuer)) caught >>= λ _. store_discovery cfg now discovery

abbrev pub with_discovered : Config → (now : ℕ) → Fields → Step Fields
with_discovered cfg now discovery =
    of_result (issuer_of discovery) >>= with_issuer cfg now discovery

abbrev pub well_known : Config → String
well_known cfg = concat (cfg.issuer ∷ "/.well-known/openid-configuration" ∷ [])

-- Under the lock of `_get_discovery`, when no cached value is current.
unfoldable pub fetch_discovery : Config → (now : ℕ) → Step Fields
fetch_discovery cfg now = get_json (well_known cfg) >>= with_discovered cfg now

-- `_get_discovery`; without another task, the cache is the same before and under the lock.
unfoldable pub get_discovery : Config → Step Fields
unfolding fetch_discovery
get_discovery cfg = do
  now ← monotonic
  λ w v. elim (current now v.discovery) [
    | some discovery ↦ (ok discovery, v)
    | none ↦ (monotonic >>= λ now'. fetch_discovery cfg now') w v
  ]

-- force and now - last_forced_refresh < cooldown
abbrev pub cooling : Config → (now : ℕ) → Option ℕ → Bool
cooling cfg now none = false
cooling cfg now (some last) = ltb now (last + refresh_cooldown cfg)

abbrev pub is_list : Json → Bool
is_list (arr xs) = true
is_list value = false

-- What the answer leaves in the caches, if it has a list of keys.
unfoldable pub store_jwks :
    Config → (force : Bool) (now : ℕ) → (has_keys : Bool) (jwks : Fields) → Step Fields
store_jwks cfg force now false jwks w v = (err caught, v)
store_jwks cfg force now true jwks w v = (
  ok jwks,
  record v {
    jwks = some (now + cfg.cache_ttl, jwks);
    last_forced_refresh = if force then some now else v.last_forced_refresh;
  },
)

-- The request of `_get_jwks`
unfoldable pub fetch_jwks : Config → (uri : String) (force : Bool) (now : ℕ) → Step Fields
unfolding store_jwks
fetch_jwks cfg uri force now =
    get_json uri >>= λ jwks. store_jwks cfg force now (is_list (get_or "keys" null jwks)) jwks

-- The keys of the cache, where `_get_jwks` answers with them.
unfoldable pub cached_jwks : Config → (force : Bool) (now : ℕ) → Verifier → Option Fields
cached_jwks cfg false now v = current now v.jwks
cached_jwks cfg true now v =
    if cooling cfg now v.last_forced_refresh
    then (elim v.jwks [ none ↦ none | some (until, jwks) ↦ some jwks ])
    else none

unfoldable pub answer_or_fetch :
    Config → (uri : String) (force : Bool) (now : ℕ) → Option Fields → Step Fields
unfolding fetch_jwks
answer_or_fetch cfg uri force now (some jwks) w v = (ok jwks, v)
answer_or_fetch cfg uri force now none w v = fetch_jwks cfg uri force now w v

-- Under the lock of `_get_jwks`.
unfoldable pub locked_jwks : Config → (uri : String) (force : Bool) (now : ℕ) → Step Fields
unfolding answer_or_fetch cached_jwks
locked_jwks cfg uri force now w v =
    answer_or_fetch cfg uri force now (cached_jwks cfg force now v) w v

-- `_get_jwks`
unfoldable pub get_jwks : Config → (uri : String) (force : Bool) → Step Fields
unfolding locked_jwks
get_jwks cfg uri force = do
  now ← monotonic
  λ w v. elim (if force then none else current now v.jwks) [
    | some jwks ↦ (ok jwks, v)
    | none ↦ (monotonic >>= λ now'. locked_jwks cfg uri force now') w v
  ]

abbrev pub search_keys : String → Items → Option Fields
search_keys key_id nil = none
search_keys key_id (cons (obj key) keys) =
    let rest = search_keys key_id keys in
    if is_text (get_or "kid" null key) key_id then some key else rest
search_keys key_id (cons key keys) = search_keys key_id keys

-- `_key_by_id`
unfoldable pub key_by_id : Fields → String → Result Failure (Option Fields)
key_by_id jwks key_id = elim (get_field "keys" jwks) [
  | some (arr keys) ↦ ok (search_keys key_id keys)
  | _ ↦ err caught
]
