-- ===== src/NetworkClient/Changes.antt =====
-- clients/network.py: what the methods that change the controller send.
use unifi_mcp.Base.{
  String, ◌≡◌, refl, ap, Bool, true, false, ◌||◌, List, [], ◌∷◌, Result, ok, err, All,
}
use unifi_mcp.Base.Json.{Json}
use unifi_mcp.Exceptions.{Raised}
use unifi_mcp.Http.Cache.{AppContext, Call, begin, invalidate}
use unifi_mcp.Verification.Compare.{Python}
use unifi_mcp.NetworkClient.Monad.{
  get_method, of_result, Method, Sent, ◌>>=◌, State, Controller, Action, request,
}
use unifi_mcp.NetworkClient.Site.{Client, session_only}
use unifi_mcp.NetworkClient.Devices.{
  restart_device, locate_device, upgrade_device, provision_device,
}
use unifi_mcp.NetworkClient.Clients.{
  block_client, unblock_client, kick_client, forget_client, archive_alarms, run_speed_test,
}
use unifi_mcp.NetworkClient.Configuration.{
  create_network, update_network, delete_network, create_firewall_rule, update_firewall_rule,
  delete_firewall_rule, create_wlan, update_wlan, delete_wlan, create_firewall_policy,
  update_firewall_policy, delete_firewall_policy, create_port_forward, delete_port_forward,
}
use unifi_mcp.NetworkClient.Guard.{Args, ◌&◌}

-- Those of them that send one request that changes the controller.
abbrev pub changing_methods : Python → Client → Args → List (Action Json)
changing_methods py self a =
    (restart_device py self a.mac a.site)
    ∷ (locate_device py self a.mac a.enabled a.site)
    ∷ (upgrade_device py self a.mac a.site)
    ∷ (provision_device py self a.mac a.site)
    ∷ (block_client py self a.mac a.site)
    ∷ (unblock_client py self a.mac a.site)
    ∷ (kick_client py self a.mac a.site)
    ∷ (forget_client py self a.mac a.site)
    ∷ (archive_alarms self a.site)
    ∷ (run_speed_test self a.site)
    ∷ (create_network self a.data' a.site)
    ∷ (create_firewall_rule self a.data' a.site)
    ∷ (create_wlan self a.data' a.site)
    ∷ (create_firewall_policy self a.data' a.site)
    ∷ (create_port_forward self a.data' a.site)
    ∷ (update_network self a.id a.data' a.site)
    ∷ (update_firewall_rule self a.id a.data' a.site)
    ∷ (update_wlan self a.id a.data' a.site)
    ∷ (update_firewall_policy self a.id a.data' a.site)
    ∷ (delete_network self a.id a.site)
    ∷ (delete_firewall_rule self a.id a.site)
    ∷ (delete_wlan self a.id a.site)
    ∷ (delete_firewall_policy self a.id a.site)
    ∷ (delete_port_forward self a.id a.site)
    ∷ []

abbrev pub is_get : Method → Bool
is_get get_method = true
is_get _ = false

-- The request as a call of `UniFiHTTPClient.request`, with its cache key.
abbrev pub call_of : (key : String) → Sent → Call
call_of key s = record { cacheable = is_get s.method; no_cache = s.no_cache; key = key }

-- A call that has sent one request, which is no GET, so that `request` empties the read cache for it
-- before it waits for the controller.
pub data Changed (ctx : AppContext) (key : String) (st : State) (r : Result Raised Json × State)
    : Type 0 where
  changed :
      (s : Sent)
      → r.1.sent ≡ s ∷ st.sent
      → is_get s.method ≡ false
      → (begin ctx (call_of key s)).0.cache ≡ []
      → Changed ctx key st r

pub begin_cache :
    (ctx : AppContext) (key : String) (s : Sent)
    → is_get s.method ≡ false
    → (begin ctx (call_of key s)).0.cache ≡ []
unfolding begin invalidate
begin_cache ctx key s h = rw h refl

module _ (self : Client) (c : Controller) (st : State) (ctx : AppContext) (key : String)
    (session : (self.is_integration_api || self.is_cloud) ≡ false) where
  serve :
      (feature : String) (rest : Action Json)
      → Changed ctx key st (rest c st)
      → Changed ctx key st (session_only self feature rest c st)
  unfolding session_only
  serve feature rest h = rw session h

  -- A method that answers with the response, and one that answers with what it reads out of it.
  responds :
      (feature : String) (s : Sent)
      → is_get s.method ≡ false
      → Changed ctx key st (session_only self feature (request s) c st)
  responds feature s h = serve feature _ (changed s refl h (begin_cache ctx key s h))

  reads :
      (feature : String) (s : Sent) (f : Json → Result Raised Json)
      → is_get s.method ≡ false
      → Changed ctx key st (session_only self feature (request s >>= λ r. of_result (f r)) c st)
  reads feature s f h =
      serve feature _
        (changed s (ap (λ st'. st'.sent) (kept (c st.sent s))) h (begin_cache ctx key s h))
    where
      kept :
          (answer : Result Raised Json)
          → (elim answer as (λ _. Result Raised Json × State) [
            | ok a ↦ (f a, record st { sent = s ∷ st.sent })
            | err e ↦ (err e, record st { sent = s ∷ st.sent })
          ]).1
            ≡ record st { sent = s ∷ st.sent }
      kept (ok a) = refl
      kept (err e) = refl

  -- On a session, each method that changes the controller sends exactly one request, which is a POST, PUT
  -- or DELETE, and for which the HTTP client empties its read cache before it waits for the answer.
  pub changing_methods-Changed :
      (py : Python) (a : Args) → All (λ m. Changed ctx key st (m c st)) (changing_methods py self a)
  unfolding restart_device locate_device upgrade_device provision_device block_client unblock_client
      kick_client forget_client archive_alarms run_speed_test create_network create_firewall_rule
      create_wlan create_firewall_policy create_port_forward update_network update_firewall_rule
      update_wlan update_firewall_policy delete_network delete_firewall_rule delete_wlan
      delete_firewall_policy delete_port_forward
  changing_methods-Changed py a =
      responds _ _ refl
      & responds _ _ refl
      & responds _ _ refl
      & responds _ _ refl
      & responds _ _ refl
      & responds _ _ refl
      & responds _ _ refl
      & responds _ _ refl
      & responds _ _ refl
      & responds _ _ refl
      & reads _ _ _ refl
      & reads _ _ _ refl
      & reads _ _ _ refl
      & responds _ _ refl
      & reads _ _ _ refl
      & reads _ _ _ refl
      & reads _ _ _ refl
      & reads _ _ _ refl
      & responds _ _ refl
      & reads _ _ _ refl
      & reads _ _ _ refl
      & reads _ _ _ refl
      & reads _ _ _ refl
      & reads _ _ _ refl
      & tt
