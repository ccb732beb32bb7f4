-- ===== src/NetworkClient/Monad.antt =====
-- The actions of the client of clients/network.py: the requests that a method makes one after another,
-- and its result.
use unifi_mcp.Base.{String, Bool, List, ◌∷◌, Result, ok, err}
use unifi_mcp.Base.Json.{Json}
use unifi_mcp.Exceptions.{Raised}

pub data Method : Type 0 where
  get_method post_method put_method delete_method : Method

-- A request of the client: `params` and `payload` are null where the call gives none.
pub record Sent : Type 0 where
  pub method : Method
  pub endpoint : String
  pub params : Json
  pub payload : Json
  pub no_cache : Bool

-- What the client has sent, the last request first, and its `_site_id_cache`.
pub record State : Type 0 where
  pub sent : List Sent
  pub site_ids : List (String × Json)

-- What `UniFiHTTPClient.request` answers, after the requests that were made before.
abbrev pub Controller : Type 0
Controller = List Sent → Sent → Result Raised Json

abbrev pub Action : Type 0 → Type 0
Action A = Controller → State → Result Raised A × State

abbrev pub pure : {A : Type 0} → A → Action A
pure a c st = (ok a, st)

abbrev pub raise : {A : Type 0} → Raised → Action A
raise e c st = (err e, st)

abbrev pub of_result : {A : Type 0} → Result Raised A → Action A
of_result r c st = (r, st)

abbrev pub request : Sent → Action Json
request s c st = (c st.sent s, record st { sent = s ∷ st.sent })

infixl 5 ◌>>=◌
abbrev pub ◌>>=◌ : {A B : Type 0} → Action A → (A → Action B) → Action B
◌>>=◌ m f c st = let (r, st') = m c st in elim r [ ok a ↦ f a c st' | err e ↦ (err e, st') ]
