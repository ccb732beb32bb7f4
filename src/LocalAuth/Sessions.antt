-- ===== src/LocalAuth/Sessions.antt =====
-- What a session holds, whatever the controller answers.
use unifi_mcp.Base.{
  ◌≡◌, refl, sym, ap, subst, ◌⊎◌, inl, inr, true, false, not, ◌||◌, none, [], ◌∷◌, ◌==◌,
  if◌then◌else◌, Bool-cases, ok, err,
}
use unifi_mcp.Exceptions.{Raised}
use unifi_mcp.LocalAuth.{
  UniFiLocalAuth, new_session, Settings, Answer, Transport, answer, connect_error, timeout,
  transport_error, given, get_auth_headers, accept, content_type, Outcome, settle_login, posted,
  login, logout, refresh_session, ensure_authenticated,
}

-- One operation on the session.
pub data Step (settings : Settings) : UniFiLocalAuth → UniFiLocalAuth → Type 0 where
  logs_in : (t : Transport) (a : UniFiLocalAuth) → Step settings a (login settings t a).0
  logs_out : (t : Transport) (a : UniFiLocalAuth) → Step settings a (logout t a)
  refreshes :
      (t : Transport) (a : UniFiLocalAuth) → Step settings a (refresh_session settings t a).0
  ensures :
      (t : Transport) (a : UniFiLocalAuth) → Step settings a (ensure_authenticated settings t a).0

pub data Reachable (settings : Settings) : UniFiLocalAuth → Type 0 where
  start : Reachable settings new_session
  next : {a b : UniFiLocalAuth} → Reachable settings a → Step settings a b → Reachable settings b

-- What a login leaves: the session as it was and an exception, or a session that is authenticated.
abbrev pub Logged : UniFiLocalAuth → UniFiLocalAuth × Outcome → Type 0
Logged a r =
    ((r.0 ≡ a) × ((e : Raised) × (r.1 ≡ err e))) ⊎ ((r.0.is_authenticated ≡ true) × (r.1 ≡ ok tt))

settle_login-Logged : (r : Answer) (a : UniFiLocalAuth) → Logged a (settle_login r a)
unfolding settle_login
settle_login-Logged r a = elim (Bool-cases (r.status_code == 200)) [
  | inl good ↦ rw good (inr (refl, refl))
  | inr bad ↦ elim (Bool-cases (r.status_code == 401)) [
    | inl unauthorized ↦ rw (bad, unauthorized) (inl (refl, (_, refl)))
    | inr no_401 ↦ elim (Bool-cases (r.status_code == 403)) [
      | inl forbidden ↦ rw (bad, no_401, forbidden) (inl (refl, (_, refl)))
      | inr no_403 ↦ rw (bad, no_401, no_403) (inl (refl, (_, refl)))
    ]
  ]
]

posted-Logged : (t : Transport) (a : UniFiLocalAuth) → Logged a (posted t a)
unfolding posted
posted-Logged (answer r) a = settle_login-Logged r a
posted-Logged connect_error a = inl (refl, (_, refl))
posted-Logged timeout a = inl (refl, (_, refl))
posted-Logged (transport_error name) a = inl (refl, (_, refl))

-- A login that raises leaves the session as it was; one that returns leaves it authenticated.
pub login-Logged :
    (settings : Settings) (t : Transport) (a : UniFiLocalAuth) → Logged a (login settings t a)
unfolding login
login-Logged settings t a =
    elim (Bool-cases (not (given settings.username) || not (given settings.password))) [
      | inl incomplete ↦ rw incomplete (inl (refl, (_, refl)))
      | inr complete ↦ rw complete (posted-Logged t a)
    ]

-- No token is held while the session is not authenticated.
abbrev pub IsClean : UniFiLocalAuth → Type 0
IsClean a = (a.is_authenticated ≡ true) ⊎ (a.csrf_token ≡ none)

login-IsClean :
    (settings : Settings) (t : Transport) (a : UniFiLocalAuth)
    → IsClean a
    → IsClean (login settings t a).0
login-IsClean settings t a clean = elim (login-Logged settings t a) [
  | inl (same, raised) ↦ rw same clean
  | inr (good, returned) ↦ inl good
]

-- An open session is left alone; a closed one logs in.
ensure-Open :
    (settings : Settings) (t : Transport) (a : UniFiLocalAuth)
    → a.is_authenticated ≡ true
    → ensure_authenticated settings t a ≡ (a, ok tt)
unfolding ensure_authenticated
ensure-Open settings t a e = ap (λ b. if not b then login settings t a else (a, ok tt)) e

ensure-Closed :
    (settings : Settings) (t : Transport) (a : UniFiLocalAuth)
    → a.is_authenticated ≡ false
    → ensure_authenticated settings t a ≡ login settings t a
unfolding ensure_authenticated
ensure-Closed settings t a e = ap (λ b. if not b then login settings t a else (a, ok tt)) e

logout-IsClean : (t : Transport) (a : UniFiLocalAuth) → IsClean a → IsClean (logout t a)
unfolding logout
logout-IsClean t a clean = elim (Bool-cases a.is_authenticated) [
  | inl open_session ↦
      let closes : logout t a ≡ new_session =
        ap (λ b. if not b then a else new_session) open_session in
      subst IsClean (sym closes) (inr refl)
  | inr closed ↦
      let same : logout t a ≡ a = ap (λ b. if not b then a else new_session) closed in
      subst IsClean (sym same) clean
]

Step-IsClean :
    (settings : Settings) (a b : UniFiLocalAuth) → Step settings a b → IsClean a → IsClean b
unfolding refresh_session
Step-IsClean settings a _ (logs_in t _) clean = login-IsClean settings t a clean
Step-IsClean settings a _ (logs_out t _) clean = logout-IsClean t a clean
Step-IsClean settings a _ (refreshes t _) clean = login-IsClean settings t new_session (inr refl)
Step-IsClean settings a _ (ensures t _) clean = elim (Bool-cases a.is_authenticated) [
  | inl open_session ↦ subst (λ r. IsClean r.0) (sym (ensure-Open settings t a open_session)) clean
  | inr closed ↦
      subst (λ r. IsClean r.0) (sym (ensure-Closed settings t a closed))
        (login-IsClean settings t a clean)
]

reachable-IsClean : (settings : Settings) (a : UniFiLocalAuth) → Reachable settings a → IsClean a
reachable-IsClean settings _ start = inr refl
reachable-IsClean settings _ (next r s) =
    Step-IsClean settings _ _ s (reachable-IsClean settings _ r)

-- After any sequence of logins, logouts and refreshes, whatever the controller answers, a session
-- that is not authenticated sends no CSRF token: its headers are those of a new one.
pub get_auth_headers-Reachable :
    (settings : Settings) (a : UniFiLocalAuth)
    → Reachable settings a
    → a.is_authenticated ≡ false
    → get_auth_headers a ≡ accept ∷ content_type ∷ []
unfolding get_auth_headers
get_auth_headers-Reachable settings a r closed = elim (reachable-IsClean settings a r) [
  | inl open_session ↦ cc
  | inr no_token ↦ rw (no_token, get_auth_headers) refl
]

-- A refresh that raises leaves a session that is not authenticated and holds no token, whatever it
-- held before; a refresh that returns leaves one that is authenticated, without the old token.
pub refresh_session-login :
    (settings : Settings) (t : Transport) (a : UniFiLocalAuth)
    → (refresh_session settings t a ≡ login settings t new_session)
      × (((e : Raised) × (refresh_session settings t a ≡ (new_session, err e)))
          ⊎ (((refresh_session settings t a).0.is_authenticated ≡ true)
              × ((refresh_session settings t a).1 ≡ ok tt)))
unfolding refresh_session
refresh_session-login settings t a = elim (login-Logged settings t new_session) [
  | inl (same, (e, raised)) ↦ (refl, inl (e, cc (same, raised)))
  | inr returned ↦ (refl, inr returned)
]

-- When `ensure_authenticated` returns the session is authenticated, and when it already was, it is
-- left alone and nothing is sent: the answer does not matter.
pub ensure_authenticated-ok :
    (settings : Settings) (t t' : Transport) (a : UniFiLocalAuth)
    → let (a', outcome) = ensure_authenticated settings t a in
      ((a'.is_authenticated ≡ true) ⊎ ((e : Raised) × (outcome ≡ err e)))
      × ((a.is_authenticated ≡ false) ⊎ (ensure_authenticated settings t' a ≡ (a, ok tt)))
ensure_authenticated-ok settings t t' a = elim (Bool-cases a.is_authenticated) [
  | inl open_session ↦ (
    subst (λ r. (r.0.is_authenticated ≡ true) ⊎ ((e : Raised) × (r.1 ≡ err e)))
        (sym (ensure-Open settings t a open_session)) (inl open_session),
    inr (ensure-Open settings t' a open_session),
  )
  | inr closed ↦ (
    subst (λ r. (r.0.is_authenticated ≡ true) ⊎ ((e : Raised) × (r.1 ≡ err e)))
        (sym (ensure-Closed settings t a closed))
        (elim (login-Logged settings t a) [
          | inl (same, raised) ↦ inr raised
          | inr (good, returned) ↦ inl good
        ]),
    inl closed,
  )
]
