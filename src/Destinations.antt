-- ===== src/Destinations.antt =====
-- security/destinations.py: the check of a webhook URL, and the requests to the addresses that it
-- found (`WebhookService._post_validated` of runtime/webhooks.py).
pub mod Ssrf
mod Examples
use unifi_mcp.Base.{
  ℕ, String, Bool, true, false, not, ◌||◌, Option, none, some, List, [], ◌∷◌, map, ◌==◌, str_eq,
  if◌then◌else◌, Result, ok, err, ◌>>=◌, ◌>>◌, raise_if, length, sorted_set,
}
use Prim.Native.Char.{code}

-- `urlsplit` of a URL; it gives the scheme in lower case. Reading the attribute `port` raises a
-- ValueError for a port that is no number of a port: `port_invalid`.
pub record SplitResult : Type 0 where
  pub scheme : String
  pub username : Option String
  pub password : Option String
  pub fragment : String
  pub hostname : Option String
  pub port : Option ℕ
  pub port_invalid : Bool
  pub netloc : String

-- `ipaddress`: the addresses that it reads, how it prints one, and whether one is global.
pub record IpAddress : Type 1 where
  pub Address : Type 0
  pub ip_address : String → Option Address
  pub show : Address → String
  pub is_global : Address → Bool

-- Every one but the last two is raised as a `ValueError` with a text of its own; `invalid_address` is
-- the one of `ipaddress`, `invalid_port` the one of `port`.
pub data DestinationError : Type 0 where
  not_https has_credentials has_fragment no_hostname unresolved no_address private_address :
      DestinationError
  invalid_address invalid_port : DestinationError

pub record ValidatedWebhookDestination : Type 0 where
  pub parsed : SplitResult
  pub addresses : List String

-- What the transport does with a POST to one address: a status, an `httpx.HTTPError`, or another
-- exception, as `httpx.InvalidURL`.
pub data Post : Type 0 where
  responds : ℕ → Post
  http_error other_error : Post

pub data PostError : Type 0 where
  rejected : DestinationError → PostError
  transport_error assertion_error unexpected : PostError

abbrev pub is_some : Option String → Bool
is_some none = false
is_some (some s) = true

module _ (ip : IpAddress) where
  open ip use {Address, ip_address, show, is_global}

  -- `resolver`: the answers for a name, or `none` for an `OSError`.
  addresses_of : (String → Option (List String)) → String → Result DestinationError (List String)
  addresses_of resolver hostname = elim (ip_address hostname) [
    | some literal ↦ ok (show literal ∷ [])
    | none ↦ elim (resolver hostname) [ none ↦ err unresolved | some answers ↦ ok answers ]
  ]

  -- any(not ipaddress.ip_address(address).is_global …), which stops at the first that is private
  check_global : List String → Result DestinationError (Unit {0})
  check_global [] = ok tt
  check_global (a ∷ more) =
      let rest = check_global more in
      elim (ip_address a) [
        | none ↦ err invalid_address
        | some address ↦ if is_global address then rest else err private_address
      ]

  check_hostname : Option String → Result DestinationError String
  check_hostname none = err no_hostname
  check_hostname (some h) = if str_eq h "" then err no_hostname else ok h

  unfoldable pub validate_webhook_url :
      (allow_private : Bool) (resolver : String → Option (List String))
      → SplitResult
      → Result DestinationError ValidatedWebhookDestination
  unfolding addresses_of check_global check_hostname
  validate_webhook_url allow_private resolver parsed = do
    raise_if (not (str_eq parsed.scheme "https")) not_https
    raise_if (is_some parsed.username || is_some parsed.password) has_credentials
    raise_if (not (str_eq parsed.fragment "")) has_fragment
    hostname ← check_hostname parsed.hostname
    addresses ← addresses_of resolver hostname
    raise_if (length addresses == 0) no_address
    _ ← (if allow_private then ok tt else check_global addresses)
    ok (record { parsed = parsed; addresses = sorted_set addresses })

abbrev pub has_colon : String → Bool
has_colon String.[] = false
has_colon (String.◌∷◌ c s) = code c == b':' || has_colon s

-- One URL of `pinned_urls`: the address in the place of the host, in brackets if it has a colon,
-- with the port if there is one.
pub record PinnedUrl : Type 0 where
  pub address : String
  pub bracketed : Bool
  pub port : Option ℕ

abbrev pub pinned : Option ℕ → String → PinnedUrl
pinned port a = record { address = a; bracketed = has_colon a; port = port }

unfoldable pub pinned_urls : ValidatedWebhookDestination → List PinnedUrl
pinned_urls d = map (pinned d.parsed.port) d.addresses

-- The loop over the URLs; it returns the first response, and the URLs that were contacted.
unfoldable pub post_first :
    (PinnedUrl → Post) → List PinnedUrl → Result PostError ℕ → Result PostError ℕ × List PinnedUrl
post_first post [] last = (last, [])
post_first post (u ∷ us) last =
    let rest = post_first post us (err transport_error) in
    elim (post u) [
      | responds status ↦ (ok status, u ∷ [])
      | http_error ↦ (rest.0, u ∷ rest.1)
      | other_error ↦ (err unexpected, u ∷ [])
    ]

-- `_post_validated`; `assertion_error` is the failure of its `assert`, and `unexpected` an exception
-- that it lets through.
unfoldable pub post_validated :
    IpAddress
    → (allow_private : Bool) (resolver : String → Option (List String)) → (PinnedUrl → Post)
    → SplitResult
    → Result PostError ℕ × List PinnedUrl
unfolding post_first pinned_urls
post_validated ip allow_private resolver post parsed =
    elim (validate_webhook_url ip allow_private resolver parsed) [
      | err e ↦ (err (rejected e), [])
      | ok destination ↦
          if parsed.port_invalid
          then (err (rejected invalid_port), [])
          else post_first post (pinned_urls destination) (err assertion_error)
    ]
