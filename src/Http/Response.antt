-- ===== src/Http/Response.antt =====
-- clients/base.py: `_parse_response`, `_handle_error_response`, and `request` from the first
-- answer to the parsed one.
pub mod Outcomes
use unifi_mcp.Base.{
  ℕ, ◌≤◌, ◌<◌, String, ◌≡◌, refl, ◌⊎◌, inl, inr, Bool, true, false, ◌&&◌, not, Option, none, some,
  arith, ltb, leb, ◌==◌, str_eq, if◌then◌else◌, Result, ok, err, ◌>>=◌,
}
use unifi_mcp.Base.Json.{
  Json, null, text, obj, end, field, Fields, truthy, get_field, get_or, is_text,
}
use unifi_mcp.Exceptions.{
  UniFiError, auth_error, connection_error, api_error, rate_limit_error, Message, literal, value,
  shown, around, Raised, unifi, other,
}

-- What `response.json()` does: a value, or a failure on an empty or a nonempty body.
pub data Body : Type 0 where
  json : Json → Body
  unreadable : (empty : Bool) → Body

-- The header `Retry-After`: missing, a number, or a text that `int` refuses.
pub data RetryAfter : Type 0 where
  missing : RetryAfter
  seconds : ℕ → RetryAfter
  malformed : RetryAfter

pub record Response : Type 0 where
  pub status_code : ℕ
  pub body : Body
  pub retry_after : RetryAfter
  -- response.text[:500]
  pub excerpt : String

-- What the transport does with one request.
pub data Transport : Type 0 where
  answer : Response → Transport
  connect_error timeout : Transport
  -- another exception, and no authentication configured, which `_headers` raises before it
  transport_error : String → Transport
  no_authentication : Transport

-- The value returned for an empty body.
abbrev pub empty_ok : Json
empty_ok = obj (field "meta" (obj (field "rc" (text "ok") end)) end)

parse_meta : ℕ → Json → Json → Result Raised Json
parse_meta status data_ (obj meta) =
    if is_text (get_or "rc" null meta) "error"
    then err
        (unifi (api_error (value (get_or "msg" (text "Unknown API error") meta)) (some status)))
    else ok data_
parse_meta status data_ _ = err (other "AttributeError")

parse_data : ℕ → Json → Result Raised Json
unfolding parse_meta get_or
parse_data status (obj fs) =
    if truthy (get_or "error" null fs)
    then err (unifi (api_error (shown (get_or "error" null fs)) (some status)))
    else parse_meta status (obj fs) (get_or "meta" (obj end) fs)
parse_data status v = ok v

unfoldable pub parse_response : Response → Result Raised Json
unfolding parse_data
parse_response r = elim r.body [
  | json v ↦ parse_data r.status_code v
  | unreadable empty ↦
      if empty
      then ok empty_ok
      else err (unifi (api_error (literal "Failed to parse response") none))
]

-- The message of an error response: a JSON field, or the text if reading the fields raises.
error_field : Fields → Json → Json
unfolding get_or get_field
error_field fs msg =
    if truthy msg then msg else get_or "error" (get_or "message" (text "Unknown error") fs) fs

excerpt_message : Response → Message
excerpt_message r = literal (if str_eq r.excerpt "" then "Unknown error" else r.excerpt)

error_message : Response → Message
unfolding error_field get_or excerpt_message
error_message r = elim r.body [
  | json (obj fs) ↦ elim (get_or "meta" (obj end) fs) [
    | obj meta ↦ value (error_field fs (get_or "msg" (text "") meta))
    | _ ↦ excerpt_message r
  ]
  | _ ↦ excerpt_message r
]

-- It raises on every path.
unfoldable pub handle_error_response : Response → UniFiError
unfolding error_message
handle_error_response r =
    let message = error_message r in
    if r.status_code == 401
    then auth_error (around "Authentication required: " message)
    else if r.status_code == 403
    then auth_error (around "Access forbidden - check API key permissions: " message)
    else api_error message (some r.status_code)

-- `_make_request` without its decorator: the transport's errors become connection errors.
unfoldable pub make_request : Transport → Result Raised Response
make_request (answer r) = ok r
make_request connect_error = err (unifi (connection_error (literal "Failed to connect")))
make_request timeout = err (unifi (connection_error (literal "Request timed out")))
make_request (transport_error name) = err (other name)
make_request no_authentication = err (unifi (auth_error (literal "No authentication configured")))

-- int(response.headers.get("Retry-After", 60))
rate_limited : RetryAfter → Raised
rate_limited missing = unifi (rate_limit_error (literal "Rate limited") (some 60))
rate_limited (seconds n) = unifi (rate_limit_error (literal "Rate limited") (some n))
rate_limited malformed = other "ValueError"

-- The tests on the status, in the order of the code.
unfoldable pub settle_response : Response → Result Raised Json
unfolding rate_limited handle_error_response parse_response
settle_response r =
    if r.status_code == 429
    then err (rate_limited r.retry_after)
    else if leb 400 r.status_code
    then err (unifi (handle_error_response r))
    else parse_response r

-- `except UniFiAuthError` round the refresh and the second request.
unfoldable pub refresh_failed : Raised → Raised
refresh_failed (unifi (auth_error m)) =
    unifi (auth_error (literal "Session expired and refresh failed"))
refresh_failed e = e

-- What the world answers to one call: the first request, the refresh of the session (an error, or
-- none), and the request after it.
pub record Exchange : Type 0 where
  pub first : Transport
  pub refresh : Result Raised (Unit {0})
  pub second : Transport

second_response : Result Raised (Unit {0}) → Transport → Result Raised Response
unfolding make_request
second_response refresh second = do _ ← refresh; make_request second

on_auth_error : Result Raised Response → Result Raised Response
unfolding refresh_failed
on_auth_error (ok r) = ok r
on_auth_error (err e) = err (refresh_failed e)

-- The body of `request` between the cache lookup and the cache write. `session` says that the
-- context's authentication is a `UniFiLocalAuth`.
unfoldable pub exchange : (session : Bool) → Exchange → Result Raised Json
unfolding make_request second_response on_auth_error
exchange session x = do
  r ← make_request x.first
  r' ←
      (if r.status_code == 401 && session
        then on_auth_error (second_response x.refresh x.second)
        else ok r)
  settle_response r'
