-- ===== src/NetworkClient/Configuration.antt =====
-- clients/network.py: the methods on networks, SSIDs, firewalls, routes and port forwards.
use unifi_mcp.Base.{String, Bool, false, Option, [], ◌∷◌, if◌then◌else◌, concat}
use unifi_mcp.Base.Json.{Json, null}
use unifi_mcp.Verification.Compare.{Python}
use unifi_mcp.NetworkClient.Monad.{Action, pure, of_result, ◌>>=◌}
use unifi_mcp.NetworkClient.Answers.{extract_list_data, first_data}
use unifi_mcp.NetworkClient.Site.{
  Client, get_fresh, get, post, put, delete, session_only, site_or, site_endpoint,
  integration_site_endpoint,
}
use unifi_mcp.NetworkClient.Devices.{get_data}

unfoldable pub get_networks : Python → Client → Option String → (fresh : Bool) → Action Json
get_networks py self site fresh =
    if self.is_integration_api
    then (do
      endpoint ← integration_site_endpoint py self "networks" site
      response ← get_fresh fresh endpoint
      pure (extract_list_data response))
    else session_only self "network configurations" (get_data self fresh "rest/networkconf" site)

unfoldable pub get_wlans : Client → Option String → (fresh : Bool) → Action Json
get_wlans self site fresh =
    session_only self "wireless network (SSID) configurations"
      (get_data self fresh "rest/wlanconf" site)

-- A POST to a collection, and a PUT or a DELETE of one of its members
abbrev add : Client → (feature path : String) → (data' : Json) → Option String → Action Json
add self feature path data' site =
    session_only self feature
      (do response ← post (site_endpoint self path site) data'; of_result (first_data response))

abbrev edit : Client → (feature path id : String) → (data' : Json) → Option String → Action Json
edit self feature path id data' site = session_only self feature (do
  response ← put (site_endpoint self (concat (path ∷ "/" ∷ id ∷ [])) site) data'
  of_result (first_data response))

abbrev remove : Client → (feature path id : String) → Option String → Action Json
remove self feature path id site =
    session_only self feature
      (delete (site_endpoint self (concat (path ∷ "/" ∷ id ∷ [])) site) >>= λ _. pure null)

unfoldable pub create_network : Client → (data' : Json) → Option String → Action Json
create_network self data' site = add self "network (VLAN) creation" "rest/networkconf" data' site

unfoldable pub update_network :
    Client → (network_id : String) (data' : Json) → Option String → Action Json
update_network self network_id data' site =
    edit self "network (VLAN) updates" "rest/networkconf" network_id data' site

unfoldable pub delete_network : Client → (network_id : String) → Option String → Action Json
delete_network self network_id site =
    remove self "network (VLAN) deletion" "rest/networkconf" network_id site

unfoldable pub get_port_profiles : Client → Option String → Action Json
get_port_profiles self site =
    session_only self "switch port profiles" (get_data self false "rest/portconf" site)

unfoldable pub get_firewall_rules : Client → Option String → Action Json
get_firewall_rules self site =
    session_only self "firewall rules" (get_data self false "rest/firewallrule" site)

unfoldable pub create_firewall_rule : Client → (data' : Json) → Option String → Action Json
create_firewall_rule self data' site =
    add self "firewall rule creation" "rest/firewallrule" data' site

unfoldable pub update_firewall_rule :
    Client → (rule_id : String) (data' : Json) → Option String → Action Json
update_firewall_rule self rule_id data' site =
    edit self "firewall rule updates" "rest/firewallrule" rule_id data' site

unfoldable pub delete_firewall_rule : Client → (rule_id : String) → Option String → Action Json
delete_firewall_rule self rule_id site =
    remove self "firewall rule deletion" "rest/firewallrule" rule_id site

-- f"/v2/api/site/{site_name}/firewall-policies"
abbrev policies : Client → Option String → String
policies self site = concat ("/v2/api/site/" ∷ site_or self site ∷ "/firewall-policies" ∷ [])

abbrev policy : Client → (policy_id : String) → Option String → String
policy self policy_id site = concat (policies self site ∷ "/" ∷ policy_id ∷ [])

unfoldable pub get_firewall_policies : Client → Option String → Action Json
get_firewall_policies self site =
    session_only self "zone-based firewall policies" (get (policies self site))

unfoldable pub create_wlan : Client → (data' : Json) → Option String → Action Json
create_wlan self data' site = add self "wireless network creation" "rest/wlanconf" data' site

unfoldable pub update_wlan :
    Client → (wlan_id : String) (data' : Json) → Option String → Action Json
update_wlan self wlan_id data' site =
    edit self "wireless network updates" "rest/wlanconf" wlan_id data' site

unfoldable pub delete_wlan : Client → (wlan_id : String) → Option String → Action Json
delete_wlan self wlan_id site = remove self "wireless network deletion" "rest/wlanconf" wlan_id site

unfoldable pub create_firewall_policy : Client → (policy' : Json) → Option String → Action Json
create_firewall_policy self policy' site =
    session_only self "firewall policy creation" (post (policies self site) policy')

unfoldable pub update_firewall_policy :
    Client → (policy_id : String) (data' : Json) → Option String → Action Json
update_firewall_policy self policy_id data' site =
    session_only self "firewall policy updates" (put (policy self policy_id site) data')

unfoldable pub delete_firewall_policy : Client → (policy_id : String) → Option String → Action Json
delete_firewall_policy self policy_id site =
    session_only self "firewall policy deletion"
      (delete (policy self policy_id site) >>= λ _. pure null)

unfoldable pub get_routing : Client → Option String → Action Json
get_routing self site = session_only self "routing table" (get_data self false "stat/routing" site)

unfoldable pub get_port_forwards : Client → Option String → Action Json
get_port_forwards self site =
    session_only self "port forwarding rules" (get_data self false "rest/portforward" site)

unfoldable pub create_port_forward : Client → (data' : Json) → Option String → Action Json
create_port_forward self data' site =
    add self "port forwarding rule creation" "rest/portforward" data' site

unfoldable pub delete_port_forward : Client → (rule_id : String) → Option String → Action Json
delete_port_forward self rule_id site =
    remove self "port forwarding rule deletion" "rest/portforward" rule_id site
