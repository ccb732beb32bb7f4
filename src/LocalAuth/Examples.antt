-- ===== src/LocalAuth/Examples.antt =====
-- Sessions with a controller that accepts a login and then goes away.
use unifi_mcp.Base.{◌≡◌, refl, true, some, [], ◌∷◌}
use unifi_mcp.Base.Json.{null}
use unifi_mcp.Http.Response.{json}
use unifi_mcp.LocalAuth.{
  UniFiLocalAuth, new_session, Settings, Transport, answer, timeout, get_auth_headers, accept,
  content_type, login, refresh_session,
}
use unifi_mcp.LocalAuth.Sessions.{
  Logged, login-Logged, Reachable, start, next, logs_in, refreshes, get_auth_headers-Reachable,
}

abbrev settings : Settings
settings = record { username = some "admin"; password = some "secret" }

abbrev accepted : Transport
accepted = answer (record { status_code = 200; csrf_header = some "token"; body = json null })

abbrev logged_in : UniFiLocalAuth
logged_in = record { is_authenticated = true; csrf_token = some "token" }

login-Logged_example : Logged new_session (login settings accepted new_session)
login-Logged_example = login-Logged settings accepted new_session

abbrev history :
    Reachable settings (refresh_session settings timeout (login settings accepted new_session).0).0
history =
    next (next start (logs_in accepted new_session))
      (refreshes timeout (login settings accepted new_session).0)

get_auth_headers-Reachable_example :
    get_auth_headers (refresh_session settings timeout (login settings accepted new_session).0).0
    ≡ accept ∷ content_type ∷ []
unfolding refresh_session login
get_auth_headers-Reachable_example =
    get_auth_headers-Reachable settings
      (refresh_session settings timeout (login settings accepted new_session).0).0 history refl
