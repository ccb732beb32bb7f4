-- ===== src/Http/Examples.antt =====
-- The theorems about the HTTP client at concrete calls.
use unifi_mcp.Base.{◌<◌, String, ◌≡◌, refl, ap, true, false, Option, none, some, [], arith, ok}
use unifi_mcp.Base.Json.{Json, text}
use unifi_mcp.Http.Response.{
  Response, json, unreadable, missing, seconds, answer, connect_error, Exchange, exchange,
  settle_response, parse_response, make_request,
}
use unifi_mcp.Http.Response.Outcomes.{Settles, Renews, exchange-ok, exchange-Renews}
use unifi_mcp.Http.Cache.{AppContext, Call, begin, finish}
use unifi_mcp.Http.Coherence.{
  Flight, System, update, started, finished, Step, start, reads, returns, Reach, here, next, Quiet,
}
use unifi_mcp.Http.Coherence
use unifi_mcp.Http.Coherence.Safety.{boot, lookup_current}
use unifi_mcp.Http.Retry.{Tenacity, make_request_retrying, single_attempt}

abbrev controller : String → Json
controller k = text "site health"

abbrev read_call : Call
read_call = record { cacheable = true; no_cache = false; key = "health" }

abbrev flying : Option Json → Flight
flying v = record { call = read_call; request_generation = 0; answered = v }

abbrev booted : System
booted = boot controller 0

abbrev waiting : System
waiting = started booted 0 read_call

abbrev answered : System
answered = Coherence.answer waiting 0 (flying none)

abbrev settled : System
settled = finished answered 0 (flying (some (text "site health"))) (ok (text "site health"))

settled-Reach : Reach booted settled
unfolding begin
settled-Reach =
    next
      (next (next here (start booted 0 read_call refl refl)) (reads waiting 0 (flying none) refl))
      (returns answered 0 (flying (some (text "site health"))) (text "site health") refl refl)

settled-Quiet : Quiet settled
unfolding begin
settled-Quiet i f e = ground arith

lookup_current_example : controller "health" ≡ text "site health"
unfolding begin finish
lookup_current_example =
    lookup_current controller 0 settled settled-Reach settled-Quiet "health" (text "site health")
      refl

-- A read that began under generation 3, with a mutation behind it.
abbrev moved_on : AppContext
moved_on = record { cache = []; cache_generation = 5 }

abbrev write_call : Call
write_call = record { cacheable = false; no_cache = false; key = "" }

abbrev ok_response : Response
ok_response = record {
  status_code = 200;
  body = json (text "data");
  retry_after = missing;
  excerpt = "data";
}

abbrev expired : Response
expired = record {
  status_code = 401;
  body = unreadable false;
  retry_after = missing;
  excerpt = "login";
}

abbrev renewed : Exchange
renewed = record { first = answer expired; refresh = ok tt; second = answer ok_response }

exchange-ok_example :
    (r : Response) × Settles true renewed r
    × (r.status_code < 400)
    × (parse_response r ≡ ok (text "data"))
unfolding exchange settle_response
exchange-ok_example = exchange-ok true renewed (text "data") refl

abbrev limited : Response
limited = record {
  status_code = 429;
  body = unreadable true;
  retry_after = seconds 7;
  excerpt = "";
}

exchange-Renews_example : Renews true renewed expired (exchange true renewed)
exchange-Renews_example = exchange-Renews true renewed expired refl refl

-- A decorator that makes one attempt.
abbrev once : Tenacity
once = record {
  call = λ p attempt. (attempt 0, 1);
  returns_value = λ p attempt r e. ap (λ m. (m, 1)) e;
  reraises = λ p attempt x e f. ap (λ m. (m, 1)) e;
}

single_attempt_example :
    make_request_retrying once (λ n. connect_error) ≡ (make_request connect_error, 1)
single_attempt_example = single_attempt once (λ n. connect_error) tt
