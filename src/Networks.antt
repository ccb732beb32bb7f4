-- ===== src/Networks.antt =====
-- tools/network/sites.py: the networks (VLANs) of a site, which the tools find by name or id, and the
-- check of a DHCP pool. Create, Update and Delete are the tools that change them.
pub mod Find
pub mod Range
pub mod Settle
pub mod Create
pub mod Update
pub mod Delete
pub mod Outcomes
pub mod Confirm
pub mod Pools
mod Examples
use unifi_mcp.Base.{
  ℕ, ◌+◌, ◌-◌, ◌*◌, ◌/◌, ◌^◌, String, Bool, not, ◌&&◌, ◌||◌, Option, none, some, List, [], ◌∷◌, ltb,
  ◌==◌, str_eq, if◌then◌else◌, Result, ok, err, ◌>>=◌, ◌>>◌, raise_if,
}
use unifi_mcp.Base.Json.{Json, null, text, truthy, is_text, number}
use unifi_mcp.Base.Table.{find_where}
use unifi_mcp.Base.Dict.{get_item}
use unifi_mcp.Verification.Compare.{Record, Address, Interface, Python, get, normalize_field}

-- a or b
abbrev or_else : Json → Json → Json
or_else a b = if truthy a then a else b

-- `_network_id`; a record without an id has `none`.
unfoldable pub network_id : Record → Option Json
network_id network = elim (or_else (get "_id" network) (get "id" network)) [
  | null ↦ none
  | id ↦ some id
]

-- AmbiguousNetworkError, or any other exception
pub data FindError : Type 0 where
  ambiguous raised : FindError

-- raw_name.strip().lower() == normalized, which a name that is no text makes an AttributeError
unfoldable pub named : Python → (normalized : String) → Record → Result FindError Bool
named py normalized network = elim (get_item "name" network) [
  | none ↦ ok (str_eq (py.lower (py.strip "")) normalized)
  | some (text s) ↦ ok (str_eq (py.lower (py.strip s)) normalized)
  | some _ ↦ err raised
]

unfoldable pub matching :
    Python → (normalized : String) → List Record → Result FindError (List Record)
unfolding named
matching py normalized [] = ok []
matching py normalized (n ∷ ns) = do
  hit ← named py normalized n
  matches ← matching py normalized ns
  ok (if hit then n ∷ matches else matches)

-- (network.get("_id") or network.get("id")) == name_or_id
abbrev pub has_id : String → Record → Bool
has_id id network = is_text (or_else (get "_id" network) (get "id" network)) id

abbrev pub only : List Record → Result FindError (Option Record)
only [] = ok none
only (n ∷ []) = ok (some n)
only (n ∷ m ∷ ns) = err ambiguous

-- `_find_network`, on the answer of `get_networks`
unfoldable pub find_network :
    Python
    → Result FindError (List Record)
    → (name_or_id : String) → Result FindError (Option Record)
unfolding matching
find_network py answer name_or_id = do
  networks ← answer
  elim (find_where (has_id name_or_id) networks) [
    | some network ↦ ok (some network)
    | none ↦ matching py (py.lower (py.strip name_or_id)) networks >>= only
  ]

-- `_normalize_network`
unfoldable pub normalize_network : Python → Record → Record
unfolding network_id
normalize_network py network =
    let normalized = λ (key : String). normalize_field py key (get key network) in
    ("name", normalized "name")
    ∷ ("network_id", elim (network_id network) [ none ↦ null | some id ↦ id ])
    ∷ ("purpose", get "purpose" network)
    ∷ ("vlan", normalized "vlan")
    ∷ ("subnet", normalized "ip_subnet")
    ∷ ("domain_name", normalized "domain_name")
    ∷ ("dhcp_enabled", normalized "dhcpd_enabled")
    ∷ ("dhcp_start", normalized "dhcpd_start")
    ∷ ("dhcp_stop", normalized "dhcpd_stop")
    ∷ ("dhcp_lease_time", normalized "dhcpd_leasetime")
    ∷ ("enabled", get "enabled" network)
    ∷ []

-- What a call of the tools answers without success, before the mutation or for its rejection: one
-- constructor per check that fails, whatever the tool and the wording. `attribute_error` is raised, not
-- returned.
pub data Refusal : Type 0 where
  unconfirmed blank_name blank_name_new bad_purpose bad_vlan bad_subnet bad_lease_time no_pool
        bad_address :
      Refusal
  half_disabled no_fields ambiguous_name unresolved not_found no_stable_id : Refusal
  incomplete_pool attribute_error : Refusal
  no_subnet invalid_pool mixed_versions outside_subnet is_gateway is_network is_broadcast : Refusal
  reversed rejected : Refusal

-- `ipaddress`: the network of an interface, as its number over the size of its blocks
abbrev pub block : Interface → ℕ
block i = 2 ^ ((if i.ip.v6 then 128 else 32) - i.prefix)

abbrev pub network_address : Interface → ℕ
network_address i = i.ip.number / block i * block i

abbrev pub broadcast_address : Interface → ℕ
broadcast_address i = network_address i + block i - 1

abbrev pub same_version : Address → Address → Bool
same_version a b = if a.v6 then b.v6 else not b.v6

-- address in interface.network
abbrev pub within : Interface → Address → Bool
within i a = same_version a i.ip && a.number / block i * block i == network_address i

abbrev either : (ℕ → Bool) → Address → Address → Bool
either test a b = test a.number || test b.number

abbrev pub parsed : {A : Type 0} → Option A → Result Refusal A
parsed none = err invalid_pool
parsed (some a) = ok a

-- `_validate_dhcp_range`, from the line after the `try` on
unfoldable pub check_range : Address → Address → Interface → Result Refusal (Unit {0})
check_range start stop interface = do
  raise_if (not (same_version start stop)) mixed_versions
  raise_if (not (within interface start) || not (within interface stop)) outside_subnet
  raise_if (either (λ n. n == interface.ip.number) start stop) is_gateway
  raise_if (not interface.ip.v6 && either (λ n. n == network_address interface) start stop)
      is_network
  raise_if (not interface.ip.v6 && either (λ n. n == broadcast_address interface) start stop)
      is_broadcast
  raise_if (ltb stop.number start.number) reversed

-- `_validate_dhcp_range`; it returns `None` where this is `ok`.
unfoldable pub validate_dhcp_range :
    Python → (start stop : String) (subnet : Option String) → Result Refusal (Unit {0})
unfolding check_range
validate_dhcp_range py start stop none = err no_subnet
validate_dhcp_range py start stop (some subnet) = do
  start_ip ← parsed (py.ip_address (py.strip start))
  stop_ip ← parsed (py.ip_address (py.strip stop))
  interface ← parsed (py.ip_interface (py.strip subnet))
  check_range start_ip stop_ip interface
