-- ===== src/LocalAuth.antt =====
-- auth/local.py: the session with a local controller, and the headers of the cloud API.
pub mod Sessions
mod Examples
use unifi_mcp.Base.{
  ℕ, ◌-◌, String, Bool, true, false, not, ◌||◌, Option, none, some, List, [], ◌∷◌, ◌==◌, str_eq,
  if◌then◌else◌, Result, ok, err, ◌>>=◌, ◌>>◌, raise_if,
}
use unifi_mcp.Base.Json.{Json, int, text, obj, end, get_or}
use unifi_mcp.Exceptions.{
  UniFiError, auth_error, connection_error, Message, literal, value, around, Raised, unifi, other,
}
use unifi_mcp.Http.Response.{Body, json, unreadable}

-- `_is_authenticated` and `_csrf_token`.
pub record UniFiLocalAuth : Type 0 where
  pub is_authenticated : Bool
  pub csrf_token : Option String

abbrev pub new_session : UniFiLocalAuth
new_session = record { is_authenticated = false; csrf_token = none }

pub record Settings : Type 0 where
  pub username : Option String
  pub password : Option String

-- What the transport does with a request of the session.
pub record Answer : Type 0 where
  pub status_code : ℕ
  pub csrf_header : Option String
  pub body : Body

pub data Transport : Type 0 where
  answer : Answer → Transport
  connect_error timeout : Transport
  transport_error : String → Transport

-- Python's truth value of an optional text.
abbrev pub given : Option String → Bool
given none = false
given (some s) = not (str_eq s "")

pub data Header : Type 0 where
  accept content_type : Header
  csrf api_key : String → Header

unfoldable pub get_auth_headers : UniFiLocalAuth → List Header
get_auth_headers a = elim a.csrf_token [
  | none ↦ accept ∷ content_type ∷ []
  | some token ↦
      if str_eq token ""
      then accept ∷ content_type ∷ []
      else accept ∷ content_type ∷ csrf token ∷ []
]

-- The block that is tried for the message of a failed login; it raises on every path.
message_of : Json → Raised
message_of (obj meta) = unifi (
    auth_error
      (around "Authentication failed: " (value (get_or "msg" (text "Unknown error") meta))))
message_of _ = other "AttributeError"

unfoldable pub try_message : Body → Raised
unfolding message_of
try_message (json (obj fs)) = message_of (get_or "meta" (obj end) fs)
try_message (json _) = other "AttributeError"
try_message (unreadable is_empty) = other "JSONDecodeError"

-- `except Exception` round it
abbrev pub with_status : ℕ → Raised → UniFiError
with_status status raised =
    auth_error (around "Authentication failed with status" (value (int status)))

abbrev keep_token : Option String → Option String → Option String
keep_token none old = old
keep_token (some token) old = some token

abbrev pub Outcome : Type 0
Outcome = Result Raised (Unit {0})

-- The tests on the status of the answer.
unfoldable pub settle_login : Answer → UniFiLocalAuth → UniFiLocalAuth × Outcome
unfolding try_message
settle_login r a =
    if r.status_code == 200
    then (
      record { is_authenticated = true; csrf_token = keep_token r.csrf_header a.csrf_token },
      ok tt,
    )
    else if r.status_code == 401
    then (a, err (unifi (auth_error (literal "Invalid username or password"))))
    else if r.status_code == 403
    then (a, err (unifi (auth_error (literal "Access forbidden - check user permissions"))))
    else (a, err (unifi (with_status r.status_code (try_message r.body))))

posted : Transport → UniFiLocalAuth → UniFiLocalAuth × Outcome
unfolding settle_login
posted (answer r) a = settle_login r a
posted connect_error a =
    (a, err (unifi (connection_error (literal "Failed to connect to controller"))))
posted timeout a = (a, err (unifi (connection_error (literal "Connection timed out"))))
posted (transport_error name) a = (a, err (other name))

unfoldable pub login : Settings → Transport → UniFiLocalAuth → UniFiLocalAuth × Outcome
unfolding posted
login settings t a =
    if not (given settings.username) || not (given settings.password)
    then (
      a,
      err (
          unifi
            (auth_error (literal "Username and password are required for local authentication"))),
    )
    else posted t a

-- Whatever the POST does: an exception is logged, and `finally` runs.
unfoldable pub logout : Transport → UniFiLocalAuth → UniFiLocalAuth
logout t a = if not a.is_authenticated then a else new_session

unfoldable pub refresh_session : Settings → Transport → UniFiLocalAuth → UniFiLocalAuth × Outcome
unfolding login
refresh_session settings t a = login settings t new_session

unfoldable pub ensure_authenticated :
    Settings → Transport → UniFiLocalAuth → UniFiLocalAuth × Outcome
unfolding login
ensure_authenticated settings t a =
    if not a.is_authenticated then login settings t a else (a, ok tt)

is_ok_answer : Transport → Bool
is_ok_answer (answer r) = r.status_code == 200
is_ok_answer _ = false

unfoldable pub check_session : Transport → UniFiLocalAuth → Bool
unfolding is_ok_answer
check_session t a = if not a.is_authenticated then false else is_ok_answer t

-- `UniFiCloudAuth`
unfoldable pub cloud_headers : (api_key : String) → List Header
cloud_headers key = accept ∷ content_type ∷ api_key key ∷ []

unfoldable pub cloud_is_authenticated : (api_key : String) → Bool
cloud_is_authenticated key = not (str_eq key "")

unfoldable pub cloud_ensure_authenticated : (api_key : String) → Outcome
unfolding cloud_is_authenticated
cloud_ensure_authenticated key =
    raise_if (not (cloud_is_authenticated key))
      (unifi (auth_error (literal "Cloud API key is required")))
