-- ===== src/Http/Response/Outcomes.antt =====
-- What the callers of `request` may rely on: which answers become values, and which errors.
use unifi_mcp.Base.{
  ℕ, ◌≤◌, ◌<◌, ◌≡◌, ◌≢◌, refl, ap, ◌∙◌, le→leb, ◌⊎◌, inl, inr, Bool, true, false, some, arith, ◌==◌,
  if◌then◌else◌, Result, ok, err, ◌>>=◌, Bool-cases, bind-ok, ◌&&◌,
}
use unifi_mcp.Base.Json.{Json}
use unifi_mcp.Exceptions.{
  auth_error, api_error, rate_limit_error, Message, literal, around, Raised, unifi, other,
}
use unifi_mcp.Http.Response.{
  Response, RetryAfter, missing, seconds, malformed, Transport, answer, connect_error, timeout,
  transport_error, no_authentication, Exchange, exchange, settle_response, parse_response,
  handle_error_response, make_request, second_response, on_auth_error, rate_limited, error_message,
}

-- The answer that a call settles on: the first, or the one after a refreshed session.
pub data Settles (session : Bool) (x : Exchange) (r : Response) : Type 0 where
  at_once : x.first ≡ answer r → (r.status_code ≢ 401) ⊎ (session ≡ false) → Settles session x r
  refreshed :
      (first : Response)
      → x.first ≡ answer first
      → first.status_code ≡ 401
      → session ≡ true
      → x.refresh ≡ ok tt
      → x.second ≡ answer r
      → Settles session x r

-- The error for each status that is refused.
pub data Refuses (r : Response) : Raised → Type 0 where
  unauthenticated : (m : Message) → r.status_code ≡ 401 → Refuses r (unifi (auth_error m))
  forbidden : (m : Message) → r.status_code ≡ 403 → Refuses r (unifi (auth_error m))
  too_many :
      (m : Message) (n : ℕ)
      → r.status_code ≡ 429
      → (r.retry_after ≡ seconds n) ⊎ ((r.retry_after ≡ missing) × (n ≡ 60))
      → Refuses r (unifi (rate_limit_error m (some n)))
  bad_header : r.status_code ≡ 429 → r.retry_after ≡ malformed → Refuses r (other "ValueError")
  failed :
      (m : Message)
      → r.status_code ≢ 401
      → r.status_code ≢ 403
      → r.status_code ≢ 429
      → Refuses r (unifi (api_error m (some r.status_code)))

-- How a call ends whose first answer has status 401.
pub data Renews (session : Bool) (x : Exchange) (first : Response)
    : Result Raised Json → Type 0 where
  no_session : (m : Message) → session ≡ false → Renews session x first (err (unifi (auth_error m)))
  refused :
      (m : Message)
      → session ≡ true
      → (x.refresh ≡ err (unifi (auth_error m)))
        ⊎ ((x.refresh ≡ ok tt) × (x.second ≡ no_authentication))
      → Renews session x first
          (err (unifi (auth_error (literal "Session expired and refresh failed"))))
  broken :
      (e : Raised)
      → session ≡ true
      → ((m : Message) → e ≢ unifi (auth_error m))
      → (x.refresh ≡ err e) ⊎ ((x.refresh ≡ ok tt) × (make_request x.second ≡ err e))
      → Renews session x first (err e)
  again :
      (r : Response)
      → session ≡ true
      → x.refresh ≡ ok tt
      → x.second ≡ answer r
      → Renews session x first (settle_response r)

settle-ok :
    (r : Response) (v : Json)
    → settle_response r ≡ ok v
    → (r.status_code < 400) × (parse_response r ≡ ok v)
unfolding settle_response
settle-ok r v h = ground arith

make_request-ok : (t : Transport) (r : Response) → make_request t ≡ ok r → t ≡ answer r
unfolding make_request
make_request-ok (answer q) r h = cc
make_request-ok connect_error r h = cc
make_request-ok timeout r h = cc
make_request-ok (transport_error name) r h = cc
make_request-ok no_authentication r h = cc

on_auth_error-ok : (m : Result Raised Response) (r : Response) → on_auth_error m ≡ ok r → m ≡ ok r
unfolding on_auth_error
on_auth_error-ok (ok q) r h = h
on_auth_error-ok (err e) r h = cc

second_response-ok :
    (refresh : Result Raised (Unit {0})) (second : Transport) (r : Response)
    → second_response refresh second ≡ ok r
    → (refresh ≡ ok tt) × (second ≡ answer r)
unfolding second_response
second_response-ok refresh second r h =
    let (u, done, rest) = bind-ok refresh _ h in (done, make_request-ok second r rest)

-- A call returns a value only from an answer below status 400 that parses to it: the first one,
-- or, after a 401 with session authentication, the one that follows a successful refresh.
pub exchange-ok :
    (session : Bool) (x : Exchange) (v : Json)
    → exchange session x ≡ ok v
    → (r : Response) × Settles session x r × (r.status_code < 400) × (parse_response r ≡ ok v)
unfolding exchange settle_response error_message
exchange-ok session x v h =
    let (first, e1, h1) = bind-ok (make_request x.first) _ h in
    let (r, e2, h2) = bind-ok _ _ h1 in
    let (low, parsed) = settle-ok r v h2 in
    (r, settles first r (make_request-ok x.first first e1) e2, low, parsed)
  where
    settles :
        (first r : Response)
        → x.first ≡ answer first
        → (if first.status_code == 401 && session
            then on_auth_error (second_response x.refresh x.second)
            else ok first)
          ≡ ok r
        → Settles session x r
    settles first r e e2 = elim (Bool-cases (first.status_code == 401 && session)) [
      | inl renew ↦
          let (done, next) =
            second_response-ok x.refresh x.second r (on_auth_error-ok _ r (rw renew at e2)) in
          refreshed first e (ground arith) (ground arith) done next
      | inr plain ↦
          let same : first ≡ r = cc (rw plain at e2) in
          at_once (e ∙ ap answer same) (rw (← same) (ground arith))
    ]

handle-Refuses : (r : Response) → r.status_code ≢ 429 → Refuses r (unifi (handle_error_response r))
unfolding handle_error_response
handle-Refuses r few = elim (Bool-cases (r.status_code == 401)) [
  | inl same ↦ rw same (unauthenticated _ (ground arith))
  | inr known ↦ elim (Bool-cases (r.status_code == 403)) [
    | inl same ↦ rw (known, same) (forbidden _ (ground arith))
    | inr allowed ↦ rw (known, allowed) (failed _ (ground arith) (ground arith) few)
  ]
]

rate_limited-Refuses :
    (r : Response) (h : RetryAfter)
    → r.status_code ≡ 429
    → r.retry_after ≡ h
    → Refuses r (rate_limited h)
unfolding rate_limited
rate_limited-Refuses r missing many e = too_many _ 60 many (inr (e, refl))
rate_limited-Refuses r (seconds n) many e = too_many _ n many (inl e)
rate_limited-Refuses r malformed many e = bad_header many e

-- Every answer from status 400 on is refused: 401 and 403 with an authentication error, 429 with a
-- rate limit that carries the header's seconds (60 without a header; a `ValueError` if the header
-- is no number), any other with an API error that carries the status.
pub settle-Refuses :
    (r : Response) → 400 ≤ r.status_code → (e : Raised) × (settle_response r ≡ err e) × Refuses r e
unfolding settle_response
settle-Refuses r high = elim (Bool-cases (r.status_code == 429)) [
  | inl many ↦ (_, rw many refl, rate_limited-Refuses r r.retry_after (ground arith) refl)
  | inr few ↦ (_, rw (few, le→leb 400 r.status_code high) refl, handle-Refuses r (ground arith))
]

module _ {session : Bool} {x : Exchange} {first : Response} where
  renewed-Renews :
      (refresh : Result Raised (Unit {0})) (second : Transport)
      → session ≡ true
      → x.refresh ≡ refresh
      → x.second ≡ second
      → Renews session x first (on_auth_error (second_response refresh second) >>= settle_response)
  unfolding second_response on_auth_error make_request
  renewed-Renews (ok u) (answer r) s a b = again r s a b
  renewed-Renews (ok u) connect_error s a b = broken _ s (λ m h. cc) (inr (a, rw b))
  renewed-Renews (ok u) timeout s a b = broken _ s (λ m h. cc) (inr (a, rw b))
  renewed-Renews (ok u) (transport_error name) s a b = broken _ s (λ m h. cc) (inr (a, rw b))
  renewed-Renews (ok u) no_authentication s a b = refused (literal "") s (inr (a, b))
  renewed-Renews (err (unifi (auth_error m))) second s a b = refused m s (inl a)
  renewed-Renews (err e) second s a b = broken _ s (λ m h. cc) (inl a)

exchange-401 :
    (session : Bool) (x : Exchange) (first : Response)
    → x.first ≡ answer first
    → first.status_code ≡ 401
    → exchange session x ≡ (
        if session
        then (on_auth_error (second_response x.refresh x.second) >>= settle_response)
        else err (unifi (auth_error (around "Authentication required: " (error_message first)))))
unfolding exchange settle_response error_message
exchange-401 true x first e unauth = rw (e, unauth)
exchange-401 false x first e unauth = rw (e, unauth)

-- A call whose first answer has status 401 ends in one of four ways: without session
-- authentication in an authentication error; with it in "Session expired and refresh failed" when
-- the refresh is refused, in the error of the refresh or of the second request when one of them
-- raises another error, and otherwise exactly as the second answer settles.
pub exchange-Renews :
    (session : Bool) (x : Exchange) (first : Response)
    → x.first ≡ answer first
    → first.status_code ≡ 401
    → Renews session x first (exchange session x)
exchange-Renews session x first e unauth = elim (Bool-cases session) [
  | inl renew ↦
      rw (exchange-401 session x first e unauth, renew)
        (rw (← renew) (renewed-Renews x.refresh x.second renew refl refl))
  | inr plain ↦
      rw (exchange-401 session x first e unauth, plain)
        (rw (← plain) (no_session (around "Authentication required: " (error_message first)) plain))
]
