-- ===== src/Http/Retry.antt =====
-- clients/base.py: the decorator `@retry` of `_make_request`. The decorator is tenacity's, and
-- enters as a parameter; what is known of it is its documented stop on an exception that
-- `retry_if_exception_type` does not select.
use unifi_mcp.Base.{ℕ, ◌≡◌, refl, Bool, false, ◌||◌, arith, str_eq, Result, ok, err}
use unifi_mcp.Exceptions.{Raised, unifi, other}
use unifi_mcp.Http.Response.{
  Response, Transport, answer, connect_error, timeout, transport_error, no_authentication,
  make_request,
}

-- retry_if_exception_type((httpx.ConnectError, httpx.TimeoutException))
unfoldable pub selected : Raised → Bool
selected (other name) = str_eq name "ConnectError" || str_eq name "TimeoutException"
selected (unifi e) = false

-- tenacity: the outcome of the decorated call, and how many attempts were made, from the
-- exceptions that are retried and the outcome of each attempt.
pub record Tenacity : Type 0 where
  pub call : (Raised → Bool) → (ℕ → Result Raised Response) → Result Raised Response × ℕ
  pub returns_value :
      (p : Raised → Bool) (attempt : ℕ → Result Raised Response) (r : Response)
      → attempt 0 ≡ ok r
      → call p attempt ≡ (ok r, 1)
  pub reraises :
      (p : Raised → Bool) (attempt : ℕ → Result Raised Response) (e : Raised)
      → attempt 0 ≡ err e
      → p e ≡ false
      → call p attempt ≡ (err e, 1)

-- `_make_request`, decorated, against what the transport does at each attempt.
unfoldable pub make_request_retrying : Tenacity → (ℕ → Transport) → Result Raised Response × ℕ
make_request_retrying tenacity transport = tenacity.call selected (λ n. make_request (transport n))

-- An exception that the transport raises is not one of the two that the code converts.
abbrev pub IsDistinct : Transport → Type 0
IsDistinct (transport_error name) = selected (other name) ≡ false
IsDistinct _ = Unit {0}

unselected :
    (t : Transport) → IsDistinct t → (e : Raised) → make_request t ≡ err e → selected e ≡ false
unfolding make_request selected
unselected (answer r) d e h = cc
unselected connect_error d e h = ground arith
unselected timeout d e h = ground arith
unselected (transport_error name) d e h = ground arith
unselected no_authentication d e h = ground arith

-- `_make_request` contacts the controller exactly once, whatever the transport does: a refused or
-- timed out connection has become a `UniFiConnectionError` inside the decorated function, which
-- the decorator does not select.
pub single_attempt :
    (tenacity : Tenacity) (transport : ℕ → Transport)
    → IsDistinct (transport 0)
    → make_request_retrying tenacity transport ≡ (make_request (transport 0), 1)
unfolding make_request_retrying
single_attempt tenacity transport distinct = by_outcome (make_request (transport 0)) refl
  where
    by_outcome :
        (m : Result Raised Response)
        → make_request (transport 0) ≡ m
        → make_request_retrying tenacity transport ≡ (make_request (transport 0), 1)
    by_outcome (ok r) e = rw e (tenacity.returns_value _ _ r e)
    by_outcome (err x) e = rw e (tenacity.reraises _ _ x e (unselected (transport 0) distinct x e))
