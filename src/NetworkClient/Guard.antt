-- ===== src/NetworkClient/Guard.antt =====
-- clients/network.py: which methods the Integration API and the Cloud API refuse.
use unifi_mcp.Base.{String, ◌≡◌, refl, Bool, true, ◌||◌, Option, List, [], ◌∷◌, Result, err, All}
use unifi_mcp.Base.Json.{Json, Fields, Integer}
use unifi_mcp.Exceptions.{UniFiError, ErrorClass, is_instance, Raised, unifi}
use unifi_mcp.Verification.Compare.{Python}
use unifi_mcp.NetworkClient.Monad.{State, Controller, Action}
use unifi_mcp.NetworkClient.Site.{Client, session_only}
use unifi_mcp.NetworkClient.Devices.{
  get_site_settings, update_site_settings, get_sysinfo, restart_device, locate_device,
  upgrade_device, provision_device,
}
use unifi_mcp.NetworkClient.Clients.{
  get_all_clients, block_client, unblock_client, kick_client, forget_client, set_client_fixed_ip,
  get_events, get_alarms, archive_alarms, get_dpi_stats, get_client_dpi_stats, run_speed_test,
  get_speed_test_status,
}
use unifi_mcp.NetworkClient.Configuration.{
  get_wlans, create_network, update_network, delete_network, get_port_profiles, get_firewall_rules,
  create_firewall_rule, update_firewall_rule, delete_firewall_rule, get_firewall_policies,
  create_wlan, update_wlan, delete_wlan, create_firewall_policy, update_firewall_policy,
  delete_firewall_policy, get_routing, get_port_forwards, create_port_forward, delete_port_forward,
}
use unifi_mcp.NetworkClient.Merge.{Record}
use unifi_mcp.NetworkClient.Ports.{update_device_ports}

-- The arguments of the methods.
pub record Args : Type 0 where
  pub site : Option String
  pub mac : String
  pub id : String
  pub data' : Json
  pub settings : Fields
  pub ports : List Record
  pub fixed_ip : Option String
  pub limit : Integer
  pub enabled : Bool
  pub fresh : Bool

-- The methods that only a session of the traditional API serves.
abbrev pub session_methods : Python → Client → Args → List (Action Json)
session_methods py self a =
    (get_site_settings self a.site)
    ∷ (update_site_settings self a.settings a.site)
    ∷ (get_sysinfo self a.site)
    ∷ (restart_device py self a.mac a.site)
    ∷ (locate_device py self a.mac a.enabled a.site)
    ∷ (upgrade_device py self a.mac a.site)
    ∷ (provision_device py self a.mac a.site)
    ∷ (update_device_ports py self a.mac a.ports a.site)
    ∷ (get_all_clients self a.site a.fresh)
    ∷ (block_client py self a.mac a.site)
    ∷ (unblock_client py self a.mac a.site)
    ∷ (kick_client py self a.mac a.site)
    ∷ (forget_client py self a.mac a.site)
    ∷ (set_client_fixed_ip self a.id a.fixed_ip a.site)
    ∷ (get_events self a.limit a.site)
    ∷ (get_alarms self a.site)
    ∷ (archive_alarms self a.site)
    ∷ (get_dpi_stats self a.site)
    ∷ (get_client_dpi_stats py self a.mac a.site)
    ∷ (run_speed_test self a.site)
    ∷ (get_speed_test_status self a.site)
    ∷ (get_wlans self a.site a.fresh)
    ∷ (create_network self a.data' a.site)
    ∷ (create_firewall_rule self a.data' a.site)
    ∷ (create_wlan self a.data' a.site)
    ∷ (create_firewall_policy self a.data' a.site)
    ∷ (create_port_forward self a.data' a.site)
    ∷ (update_network self a.id a.data' a.site)
    ∷ (update_firewall_rule self a.id a.data' a.site)
    ∷ (update_wlan self a.id a.data' a.site)
    ∷ (update_firewall_policy self a.id a.data' a.site)
    ∷ (delete_network self a.id a.site)
    ∷ (delete_firewall_rule self a.id a.site)
    ∷ (delete_wlan self a.id a.site)
    ∷ (delete_firewall_policy self a.id a.site)
    ∷ (delete_port_forward self a.id a.site)
    ∷ (get_port_profiles self a.site)
    ∷ (get_firewall_rules self a.site)
    ∷ (get_firewall_policies self a.site)
    ∷ (get_routing self a.site)
    ∷ (get_port_forwards self a.site)
    ∷ []

-- A call that has raised a `UniFiAPIError` and done nothing.
pub data Refused (st : State) (r : Result Raised Json × State) : Type 0 where
  refused :
      (e : UniFiError)
      → r.0 ≡ err (unifi e)
      → is_instance e ErrorClass.api ≡ true
      → r.1 ≡ st
      → Refused st r

-- The parts of a statement on each element of a list.
infixr 5 ◌&◌
abbrev pub ◌&◌ : {A B : Type 0} → A → B → A × B
a & b = (a, b)

module _ (self : Client) (c : Controller) (st : State)
    (modern : (self.is_integration_api || self.is_cloud) ≡ true) where
  refuse :
      (feature : String) (rest : Action Json) → Refused st (session_only self feature rest c st)
  unfolding session_only is_instance
  refuse feature rest = rw modern (refused _ refl refl refl)

  -- On the Integration API and the Cloud API, every method that needs a session of the traditional API
  -- raises a `UniFiAPIError` before it sends anything.
  pub session_methods-Refused :
      (py : Python) (a : Args) → All (λ m. Refused st (m c st)) (session_methods py self a)
  unfolding get_site_settings update_site_settings get_sysinfo restart_device locate_device
      upgrade_device provision_device update_device_ports get_all_clients block_client
      unblock_client kick_client forget_client set_client_fixed_ip get_events get_alarms
      archive_alarms get_dpi_stats get_client_dpi_stats run_speed_test get_speed_test_status
      get_wlans create_network create_firewall_rule create_wlan create_firewall_policy
      create_port_forward update_network update_firewall_rule update_wlan update_firewall_policy
      delete_network delete_firewall_rule delete_wlan delete_firewall_policy delete_port_forward
      get_port_profiles get_firewall_rules get_firewall_policies get_routing get_port_forwards
  session_methods-Refused py a =
      refuse _ _
      & refuse _ _
      & refuse _ _
      & refuse _ _
      & refuse _ _
      & refuse _ _
      & refuse _ _
      & refuse _ _
      & refuse _ _
      & refuse _ _
      & refuse _ _
      & refuse _ _
      & refuse _ _
      & refuse _ _
      & refuse _ _
      & refuse _ _
      & refuse _ _
      & refuse _ _
      & refuse _ _
      & refuse _ _
      & refuse _ _
      & refuse _ _
      & refuse _ _
      & refuse _ _
      & refuse _ _
      & refuse _ _
      & refuse _ _
      & refuse _ _
      & refuse _ _
      & refuse _ _
      & refuse _ _
      & refuse _ _
      & refuse _ _
      & refuse _ _
      & refuse _ _
      & refuse _ _
      & refuse _ _
      & refuse _ _
      & refuse _ _
      & refuse _ _
      & refuse _ _
      & tt
