-- ===== src/Networks/Create.antt =====
-- `create_network` of tools/network/sites.py.
use unifi_mcp.Base.{
  String, ◌≡◌, refl, sym, subst, inl, inr, Bool, true, false, not, ◌&&◌, ◌||◌, Option, none, some,
  [], ◌∷◌, ◌++◌, leb, str_eq, if◌then◌else◌, Option-cases, Result, ok, err, ◌>>◌, raise_if, elem,
}
use unifi_mcp.Base.Json.{Json, null, bool, int, text, Integer, truth, nat, minus, number, positive}
use unifi_mcp.Verification.Compare.{Record, Python, get, normalize_field}
use unifi_mcp.Networks.{
  Refusal, unconfirmed, blank_name, bad_purpose, bad_vlan, bad_subnet, bad_lease_time, no_pool,
  rejected, network_id, validate_dhcp_range,
}
use unifi_mcp.Networks.Settle.{
  given, filled, entry, posts, dispatch, CallError, connection_error, other_error, Controller,
  Reply, refused, delivery_unknown, accepted_unverified, success, Run, settle,
}
use unifi_mcp.Networks.Settle.Answers.{
  Answered, unsettled, settle-Answered, Confirmed, settle-Confirmed,
}

-- The arguments of `create_network`, less the site and the device.
pub record NewNetwork : Type 0 where
  pub name : String
  pub subnet : Option String
  pub vlan : Option Integer
  pub purpose : String
  pub domain_name : Option String
  pub dhcp_start : Option String
  pub dhcp_stop : Option String
  pub dhcp_lease_time : Option Integer
  pub confirm : Bool

-- vlan is not None and (isinstance(vlan, bool) or not 1 <= vlan <= 4094)
abbrev pub bad_tag : Option Integer → Bool
bad_tag none = false
bad_tag (some (truth b)) = true
bad_tag (some (nat n)) = not (leb 1 n && leb n 4094)
bad_tag (some (minus n)) = true

-- subnet is not None, and `_parse_subnet` raises a ValueError
unfoldable pub unreadable : Python → Option String → Bool
unreadable py none = false
unreadable py (some s) = not (given (py.ip_interface (py.strip s)))

abbrev pub bad_time : Option Integer → Bool
bad_time none = false
bad_time (some n) = not (positive n)

-- The check of the two ends, if both are given.
unfoldable pub check_pool : Python → (start stop subnet : Option String) → Result Refusal (Unit {0})
check_pool py (some start) (some stop) subnet =
    if str_eq start "" || str_eq stop "" then ok tt else validate_dhcp_range py start stop subnet
check_pool py _ _ subnet = ok tt

-- The checks, in their order.
unfoldable pub check_create : Python → NewNetwork → Result Refusal (Unit {0})
unfolding unreadable check_pool
check_create py a = do
  raise_if (not a.confirm) unconfirmed
  raise_if (str_eq (py.strip a.name) "") blank_name
  raise_if (not (elem a.purpose ("corporate" ∷ "guest" ∷ "wan" ∷ []))) bad_purpose
  raise_if (bad_tag a.vlan) bad_vlan
  raise_if (unreadable py a.subnet) bad_subnet
  raise_if (bad_time a.dhcp_lease_time) bad_lease_time
  raise_if
      ((given a.dhcp_start || given a.dhcp_stop || given a.dhcp_lease_time)
        && not (filled a.dhcp_start && filled a.dhcp_stop))
      no_pool
  check_pool py a.dhcp_start a.dhcp_stop a.subnet

-- `text` of an option, if it is not empty
unfoldable pub nonempty : Option String → Option String
nonempty none = none
nonempty (some s) = if str_eq s "" then none else some s

unfoldable pub lease_time : Option Integer → Json
lease_time none = int 86400
lease_time (some n) = number n

unfoldable pub pool_data : NewNetwork → Option String → Option String → Record
unfolding lease_time
pool_data a (some start) (some stop) =
    ("dhcpd_enabled", bool true)
    ∷ ("dhcpd_start", text start)
    ∷ ("dhcpd_stop", text stop)
    ∷ ("dhcpd_leasetime", lease_time a.dhcp_lease_time)
    ∷ []
pool_data a _ _ = ("dhcpd_enabled", bool false) ∷ []

-- `data`
unfoldable pub create_data : Python → NewNetwork → Record
unfolding nonempty pool_data
create_data py a =
    ("name", text (py.strip a.name))
      ∷ ("purpose", text a.purpose)
      ∷ ("vlan_enabled", bool (given a.vlan))
      ∷ entry "vlan" number a.vlan
    ++ entry "ip_subnet" text (nonempty a.subnet)
    ++ entry "domain_name" text (nonempty a.domain_name)
    ++ pool_data a (nonempty a.dhcp_start) (nonempty a.dhcp_stop)

-- The summary of a network that was created.
unfoldable pub created_summary : Python → Record → Record
unfolding network_id
created_summary py r =
    let normalized = λ (key : String). normalize_field py key (get key r) in
    ("name", normalized "name")
    ∷ ("network_id", elim (network_id r) [ none ↦ null | some id ↦ id ])
    ∷ ("purpose", normalized "purpose")
    ∷ ("vlan", normalized "vlan")
    ∷ ("subnet", normalized "ip_subnet")
    ∷ []

unfoldable pub answered : Python → Controller → (data' : Record) → Option Json → Reply
answered py c data' none = accepted_unverified data' none
answered py c data' (some id) = settle py c (created_summary py) id data'

-- From the controller's answer on.
unfoldable pub created : Python → Controller → (data' : Record) → Result CallError Record → Reply
unfolding network_id answered
created py c data' (err connection_error) = delivery_unknown true
created py c data' (err other_error) = refused rejected
created py c data' (ok network) = answered py c data' (network_id network)

unfoldable pub create_network : Python → Controller → NewNetwork → Run
unfolding check_create create_data created dispatch
create_network py c a =
    let data' = create_data py a in
    dispatch c (check_create py a) (λ _. posts data') (λ _. created py c data')

pub created-Answered :
    (py : Python) (c : Controller) (data' answer : Record)
    → Answered (created py c data' (ok answer))
unfolding created answered
created-Answered py c data' answer = elim (Option-cases (network_id answer)) [
  | inl no_id ↦ subst (λ o. Answered (answered py c data' o)) (sym no_id) (unsettled data' none)
  | inr (id, has_id) ↦
      subst (λ o. Answered (answered py c data' o)) (sym has_id)
        (settle-Answered py c (created_summary py) id data')
]

-- A creation that succeeds was accepted with an id, and a later read has confirmed its data.
pub created-Confirmed :
    (py : Python) (c : Controller) (data' : Record) (answer : Result CallError Record) {s : Record}
    → created py c data' answer ≡ success s
    → (network : Record) × (id : Json) × (r : Record) × (answer ≡ ok network)
      × (network_id network ≡ some id)
      × Confirmed py c id data' r
      × (s ≡ created_summary py r)
unfolding created answered
created-Confirmed py c data' (err connection_error) h = cc
created-Confirmed py c data' (err other_error) h = cc
created-Confirmed py c data' (ok network) {s} h = elim (Option-cases (network_id network)) [
  | inl no_id ↦
      let h' : accepted_unverified data' none ≡ success s =
        subst (λ o. answered py c data' o ≡ success s) no_id h in
      absurd (cc h')
  | inr (id, has_id) ↦
      let (r, is_confirmed, same) =
        settle-Confirmed py c (created_summary py) id data'
          (subst (λ o. answered py c data' o ≡ success s) has_id h) in
      (network, id, r, refl, has_id, is_confirmed, same)
]
