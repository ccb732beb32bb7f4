-- ===== src/Networks/Update.antt =====
-- `update_network` of tools/network/sites.py.
use unifi_mcp.Base.{
  String, Bool, true, false, not, ◌&&◌, ◌||◌, Option, none, some, List, [], ◌∷◌, ◌++◌, leb, ◌==◌,
  str_eq, if◌then◌else◌, Result, ok, err, ◌>>=◌, ◌>>◌, raise_if,
}
use unifi_mcp.Base.Json.{
  Json, null, bool, text, truthy, Integer, truth, nat, minus, number, positive,
}
use unifi_mcp.Verification.Compare.{Record, Python, get, str_of}
use unifi_mcp.Networks.{
  Refusal, unconfirmed, blank_name, blank_name_new, bad_vlan, bad_subnet, bad_lease_time, no_pool,
  bad_address, half_disabled, no_fields, ambiguous_name, unresolved, not_found, no_stable_id,
  incomplete_pool, attribute_error, rejected, FindError, ambiguous, raised, find_network,
  network_id, validate_dhcp_range, normalize_network, parsed,
}
use unifi_mcp.Networks.Settle.{
  given, entry, puts, dispatch, CallError, connection_error, other_error, Controller, Reply,
  refused, delivery_unknown, Run, settle,
}
use unifi_mcp.Networks.Create.{unreadable, bad_time}

-- The arguments of `update_network`, less the site and the device.
pub record Changes : Type 0 where
  pub name : String
  pub name_new : Option String
  pub subnet : Option String
  pub vlan : Option Integer
  pub domain_name : Option String
  pub dhcp_start : Option String
  pub dhcp_stop : Option String
  pub dhcp_lease_time : Option Integer
  pub enabled : Option Bool
  pub confirm : Bool

-- vlan is not None and (isinstance(vlan, bool) or vlan != -1 and not 1 <= vlan <= 4094)
abbrev pub bad_new_tag : Option Integer → Bool
bad_new_tag none = false
bad_new_tag (some (truth b)) = true
bad_new_tag (some (nat n)) = not (leb 1 n && leb n 4094)
bad_new_tag (some (minus n)) = not (n == 0)

unfoldable pub blank : Python → Option String → Bool
blank py none = false
blank py (some s) = str_eq (py.strip s) ""

-- An end of the pool that is neither empty nor an address
unfoldable pub unreadable_address : Python → Option String → Bool
unreadable_address py none = false
unreadable_address py (some s) = not (str_eq s "") && not (given (py.ip_address (py.strip s)))

-- text == ""
abbrev pub emptied : Option String → Bool
emptied none = false
emptied (some s) = str_eq s ""

unfoldable pub check_update : Python → Changes → Result Refusal (Unit {0})
unfolding unreadable blank unreadable_address
check_update py a = do
  raise_if (not a.confirm) unconfirmed
  raise_if (str_eq (py.strip a.name) "") blank_name
  raise_if (blank py a.name_new) blank_name_new
  raise_if (bad_new_tag a.vlan) bad_vlan
  raise_if (unreadable py a.subnet) bad_subnet
  raise_if (bad_time a.dhcp_lease_time) bad_lease_time
  raise_if (unreadable_address py a.dhcp_start) bad_address
  raise_if (unreadable_address py a.dhcp_stop) bad_address
  raise_if (if emptied a.dhcp_start then not (emptied a.dhcp_stop) else emptied a.dhcp_stop)
      half_disabled
  raise_if
      (not (
        given a.name_new
        || given a.subnet
        || given a.vlan
        || given a.domain_name
        || given a.dhcp_start
        || given a.dhcp_stop
        || given a.dhcp_lease_time
        || given a.enabled))
      no_fields

-- The network that `_find_network` resolves, with its id.
unfoldable pub found_network : Option Record → Result Refusal (Record × Json)
found_network none = err not_found
found_network (some network) = elim (network_id network) [
  | none ↦ err no_stable_id
  | some id ↦ ok (network, id)
]

-- `_find_network(client, name, site, fresh=True)`, and the checks of what it finds
unfoldable pub resolve : Python → Controller → (name : String) → Result Refusal (Record × Json)
unfolding found_network
resolve py c name =
    let answer : Result FindError (List Record) = elim c.get_networks [
      | err e ↦ err raised
      | ok networks ↦ ok networks
    ] in
    elim (find_network py answer name) [
      | err ambiguous ↦ err ambiguous_name
      | err raised ↦ err unresolved
      | ok found ↦ found_network found
    ]

-- The pool of the network, which a new subnet must hold.
unfoldable pub check_existing : Python → Changes → Record → Result Refusal (Unit {0})
check_existing py a network =
    let start = get "dhcpd_start" network in
    let stop = get "dhcpd_stop" network in
    if given a.subnet
      && not (given a.dhcp_start || given a.dhcp_stop)
      && (truthy (get "dhcpd_enabled" network) || truthy start || truthy stop)
    then (if truthy start && truthy stop
        then validate_dhcp_range py (str_of py start) (str_of py stop) a.subnet
        else err incomplete_pool)
    else ok tt

unfoldable pub vlan_data : Option Integer → Record
vlan_data none = []
vlan_data (some n) =
    ("vlan_enabled", bool (positive n)) ∷ (if positive n then ("vlan", number n) ∷ [] else [])

unfoldable pub dhcp_data : Option String → Option String → Record
dhcp_data (some start) (some stop) =
    if not (str_eq start "") && not (str_eq stop "")
    then ("dhcpd_enabled", bool true) ∷ []
    else if str_eq start "" && str_eq stop ""
    then ("dhcpd_enabled", bool false) ∷ []
    else []
dhcp_data _ _ = []

-- `data`
unfoldable pub update_data : Python → Changes → Record
unfolding vlan_data dhcp_data
update_data py a =
    entry "name" (λ s. text (py.strip s)) a.name_new
    ++ entry "ip_subnet" text a.subnet
    ++ vlan_data a.vlan
    ++ entry "domain_name" text a.domain_name
    ++ entry "dhcpd_start" text a.dhcp_start
    ++ entry "dhcpd_stop" text a.dhcp_stop
    ++ entry "dhcpd_leasetime" number a.dhcp_lease_time
    ++ dhcp_data a.dhcp_start a.dhcp_stop
    ++ entry "enabled" bool a.enabled

-- value if value is not None else network.get(key)
unfoldable pub effective : Option String → (key : String) → Record → Json
effective none key network = get key network
effective (some s) key network = text s

-- `_validate_dhcp_range` with the subnet of a record: one that is no text fails where it is stripped,
-- after the addresses are read.
unfoldable pub effective_pool :
    Python → (start stop : String) (subnet : Json) → Result Refusal (Unit {0})
effective_pool py start stop null = validate_dhcp_range py start stop none
effective_pool py start stop (text s) = validate_dhcp_range py start stop (some s)
effective_pool py start stop subnet = do
  _ ← parsed (py.ip_address (py.strip start))
  _ ← parsed (py.ip_address (py.strip stop))
  err attribute_error

-- The pool that the network has after the change, if an end of it changes.
unfoldable pub check_effective : Python → Changes → Record → Result Refusal (Unit {0})
unfolding effective effective_pool
check_effective py a network =
    let start = effective a.dhcp_start "dhcpd_start" network in
    let stop = effective a.dhcp_stop "dhcpd_stop" network in
    let subnet = effective a.subnet "ip_subnet" network in
    if (given a.dhcp_start || given a.dhcp_stop)
      && not (emptied a.dhcp_start && emptied a.dhcp_stop)
    then (if truthy start && truthy stop
        then effective_pool py (str_of py start) (str_of py stop) subnet
        else err no_pool)
    else ok tt

-- All that precedes the mutation: its id and its data.
unfoldable pub prepare_update : Python → Controller → Changes → Result Refusal (Record × Json)
unfolding check_update resolve check_existing check_effective
prepare_update py c a = do
  check_update py a
  found ← resolve py c a.name
  check_existing py a found.0
  check_effective py a found.0
  ok found

unfoldable pub updated :
    Python → Controller → (id : Json) (data' : Record) → Result CallError Record → Reply
updated py c id data' (err connection_error) = delivery_unknown false
updated py c id data' (err other_error) = refused rejected
updated py c id data' (ok answer) = settle py c (normalize_network py) id data'

unfoldable pub update_network : Python → Controller → Changes → Run
unfolding prepare_update updated update_data dispatch
update_network py c a =
    let data' = update_data py a in
    dispatch c (prepare_update py c a) (λ f. puts f.1 data') (λ f. updated py c f.1 data')
