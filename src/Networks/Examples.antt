-- ===== src/Networks/Examples.antt =====
-- A site with the networks "Main" (id "a") and "IoT" (id "b"), on which the tools act.
use unifi_mcp.Base.{
  String, ◌≡◌, refl, true, false, Option, none, some, List, [], ◌∷◌, ◌==◌, str_eq, if◌then◌else◌,
  ok, err,
}
use unifi_mcp.Base.Json.{Json, bool, int, text, equals}
use unifi_mcp.Base.Dict.{get_item}
use unifi_mcp.Base.Table.{select_where, find_where}
use unifi_mcp.Verification.{verify_eventually, verify_from, read, sleep}
use unifi_mcp.Verification.Compare.{
  Record, Address, Interface, Python, compared, all_match, normalize_address, normalize_cidr,
  normalize_integer, requested_observation, normalize_field, field_matches,
}
use unifi_mcp.Networks.{
  network_id, named, matching, find_network, normalize_network, check_range, validate_dhcp_range,
}
use unifi_mcp.Networks.Find.{Found, find_network-Found}
use unifi_mcp.Networks.Range.{ValidPool, validate_dhcp_range-ValidPool}
use unifi_mcp.Networks.Settle.{
  posts, puts, deletes, Controller, success, dispatch, evaluate, verification, summary, settle_read,
  settle,
}
use unifi_mcp.Networks.Settle.Answers.{Confirmed}
use unifi_mcp.Networks.Create.{
  NewNetwork, unreadable, check_pool, check_create, nonempty, lease_time, pool_data, create_data,
  created_summary, answered, created, create_network,
}
use unifi_mcp.Networks.Update.{
  Changes, blank, unreadable_address, check_update, found_network, resolve, check_existing,
  vlan_data, dhcp_data, update_data, effective, check_effective, prepare_update, updated,
  update_network,
}
use unifi_mcp.Networks.Delete.{
  evaluate_gone, deleted_reply, deleted, prepare_delete, delete_network,
}
use unifi_mcp.Networks.Outcomes.{Outcome, networks-Outcome}
use unifi_mcp.Networks.Confirm.{
  Gone, create_network-Confirmed, update_network-Confirmed, delete_network-Gone,
}
use unifi_mcp.Networks.Pools.{PoolAfter, prepare_update-PoolAfter}

abbrev addresses : String → Option Address
addresses s =
    if str_eq s "10.0.1.10"
    then some (record { v6 = false; number = 167772426 })
    else if str_eq s "10.0.1.99"
    then some (record { v6 = false; number = 167772515 })
    else none

abbrev interfaces : String → Option Interface
interfaces s =
    if str_eq s "10.0.1.1/24"
    then some (record { ip = record { v6 = false; number = 167772417 }; prefix = 24 })
    else none

-- Texts that are stripped and in lower case already, and that `ipaddress` prints as they are.
abbrev py : Python
py = record {
  strip = λ s. s;
  lower = λ s. if str_eq s "IoT" then "iot" else if str_eq s "Main" then "main" else s;
  upper = λ s. s;
  str = λ j. "";
  int_of = λ j. some j;
  ip_address = addresses;
  ip_interface = interfaces;
  show_address = λ a. if a.number == 167772426 then "10.0.1.10" else "10.0.1.99";
  show_interface = λ i. "10.0.1.1/24";
}

abbrev main : Record
main = ("_id", text "a") ∷ ("name", text "Main") ∷ []

abbrev iot : Record
iot =
    ("_id", text "b")
    ∷ ("name", text "IoT")
    ∷ ("ip_subnet", text "10.0.1.1/24")
    ∷ ("dhcpd_start", text "10.0.1.10")
    ∷ []

abbrev iot_after : Record
iot_after =
    ("_id", text "b")
    ∷ ("name", text "IoT")
    ∷ ("ip_subnet", text "10.0.1.1/24")
    ∷ ("dhcpd_start", text "10.0.1.10")
    ∷ ("dhcpd_stop", text "10.0.1.99")
    ∷ []

-- The first fresh read fails, the second shows the answer.
abbrev controller : List Record → Controller
controller after = record {
  mutation_verify_attempts = 3;
  mutation_verify_initial_delay = 1;
  mutation_verify_max_delay = 4;
  get_networks = ok (main ∷ iot ∷ []);
  send = λ _. ok (("_id", text "b") ∷ []);
  get_networks_fresh = λ n. if n == 0 then err "UniFiConnectionError" else ok after;
}

abbrev new_network : NewNetwork
new_network = record {
  name = "IoT";
  subnet = some "10.0.1.1/24";
  vlan = none;
  purpose = "corporate";
  domain_name = none;
  dhcp_start = some "10.0.1.10";
  dhcp_stop = some "10.0.1.99";
  dhcp_lease_time = none;
  confirm = true;
}

abbrev created_after : Record
created_after =
    ("_id", text "b")
    ∷ ("name", text "IoT")
    ∷ ("purpose", text "corporate")
    ∷ ("vlan_enabled", bool false)
    ∷ ("ip_subnet", text "10.0.1.1/24")
    ∷ ("dhcpd_enabled", bool true)
    ∷ ("dhcpd_start", text "10.0.1.10")
    ∷ ("dhcpd_stop", text "10.0.1.99")
    ∷ ("dhcpd_leasetime", int 86400)
    ∷ []

abbrev new_stop : Changes
new_stop = record {
  name = "iot";
  name_new = none;
  subnet = none;
  vlan = none;
  domain_name = none;
  dhcp_start = none;
  dhcp_stop = some "10.0.1.99";
  dhcp_lease_time = none;
  enabled = none;
  confirm = true;
}

pool_read : validate_dhcp_range py "10.0.1.10" "10.0.1.99" (some "10.0.1.1/24") ≡ ok tt
unfolding validate_dhcp_range check_range
pool_read = refl

validate_dhcp_range-ValidPool_example :
    (s : String) × (some "10.0.1.1/24" ≡ some s) × ValidPool py "10.0.1.10" "10.0.1.99" s
validate_dhcp_range-ValidPool_example =
    validate_dhcp_range-ValidPool py "10.0.1.10" "10.0.1.99" (some "10.0.1.1/24") pool_read

find_network-Found_example :
    Found py "iot" (main ∷ iot ∷ []) (find_network py (ok (main ∷ iot ∷ [])) "iot")
find_network-Found_example = find_network-Found py (main ∷ iot ∷ []) "iot"

networks-Outcome_example :
    Outcome
      (controller (iot ∷ []))
      (check_create py new_network)
      (λ _. posts (create_data py new_network))
      (create_network py (controller (iot ∷ [])) new_network)
    × Outcome
        (controller (iot ∷ []))
        (prepare_update py (controller (iot ∷ [])) new_stop)
        (λ f. puts f.1 (update_data py new_stop))
        (update_network py (controller (iot ∷ [])) new_stop)
    × Outcome
        (controller (iot ∷ []))
        (prepare_delete py (controller (iot ∷ [])) "iot" true)
        (λ f. deletes f.1)
        (delete_network py (controller (iot ∷ [])) "iot" true)
networks-Outcome_example =
    networks-Outcome py (controller (iot ∷ [])) new_network new_stop "iot" true

created_checked : check_create py new_network ≡ ok tt
unfolding check_create check_pool unreadable validate_dhcp_range check_range
created_checked = refl

update_prepared : prepare_update py (controller (iot_after ∷ [])) new_stop ≡ ok (iot, text "b")
unfolding prepare_update check_update resolve found_network check_existing check_effective effective
    find_network matching named find_where get_item network_id validate_dhcp_range check_range
    unreadable blank unreadable_address
update_prepared = refl

prepare_update-PoolAfter_example : PoolAfter py new_stop iot
prepare_update-PoolAfter_example =
    prepare_update-PoolAfter py (controller (iot_after ∷ [])) new_stop iot (text "b")
      update_prepared

update_succeeds :
    (update_network py (controller (iot_after ∷ [])) new_stop).reply
    ≡ success (normalize_network py iot_after)
unfolding update_network dispatch updated update_data vlan_data dhcp_data settle verification
    evaluate settle_read summary verify_eventually verify_from read sleep requested_observation
    compared all_match select_where field_matches normalize_field equals normalize_address
    prepare_update check_update resolve found_network check_existing check_effective effective
    find_network matching named find_where get_item network_id validate_dhcp_range check_range
    unreadable blank unreadable_address
update_succeeds = refl

update_network-Confirmed_example :
    (network : Record) × (id : Json) × (r : Record) × (prepare_update py
        (controller (iot_after ∷ []))
        new_stop
      ≡ ok (network, id))
    × Confirmed py (controller (iot_after ∷ [])) id (update_data py new_stop) r
    × (normalize_network py iot_after ≡ normalize_network py r)
update_network-Confirmed_example =
    update_network-Confirmed py (controller (iot_after ∷ [])) new_stop
      (normalize_network py iot_after) update_succeeds

create_succeeds :
    (create_network py (controller (created_after ∷ [])) new_network).reply
    ≡ success (created_summary py created_after)
unfolding create_network dispatch create_data nonempty pool_data lease_time created answered
    check_create check_pool settle verification evaluate settle_read summary verify_eventually
    verify_from read sleep requested_observation compared all_match select_where field_matches
    normalize_field equals normalize_address normalize_cidr normalize_integer find_where get_item
    network_id validate_dhcp_range check_range unreadable
create_succeeds = refl

create_network-Confirmed_example :
    (check_create py new_network ≡ ok tt)
    × ((network : Record) × (id : Json) × (r : Record) × ((controller (created_after ∷ [])).send
            (posts (create_data py new_network))
          ≡ ok network)
        × (network_id network ≡ some id)
        × Confirmed py (controller (created_after ∷ [])) id (create_data py new_network) r
        × (created_summary py created_after ≡ created_summary py r))
create_network-Confirmed_example =
    create_network-Confirmed py (controller (created_after ∷ [])) new_network
      (created_summary py created_after) create_succeeds

delete_succeeds :
    (delete_network py (controller (main ∷ [])) "iot" true).reply
    ≡ success (("name", text "IoT") ∷ [])
unfolding delete_network prepare_delete dispatch deleted deleted_reply evaluate_gone verification
    verify_eventually verify_from read sleep resolve found_network find_network matching named
    find_where get_item network_id equals
delete_succeeds = refl

delete_network-Gone_example :
    (network : Record) × (id : Json) × (prepare_delete py (controller (main ∷ [])) "iot" true
      ≡ ok (network, id))
    × Gone (controller (main ∷ [])) id
delete_network-Gone_example =
    delete_network-Gone py (controller (main ∷ [])) "iot" true (("name", text "IoT") ∷ [])
      delete_succeeds
