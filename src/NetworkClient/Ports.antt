-- ===== src/NetworkClient/Ports.antt =====
-- clients/network.py: `update_device_ports`.
use unifi_mcp.Base.{
  String, Bool, true, false, not, ◌||◌, Option, List, [], ◌∷◌, if◌then◌else◌, ok, err, elem, concat,
}
use unifi_mcp.Base.Json.{Json, null, arr, Items, nil, cons, Fields, truthy, get_or, dict}
use unifi_mcp.Exceptions.{literal, delivery_unknown_error, ErrorClass, is_instance, Raised, unifi}
use unifi_mcp.Verification.Compare.{Python}
use unifi_mcp.NetworkClient.Monad.{Action, raise, of_result, ◌>>=◌}
use unifi_mcp.NetworkClient.Answers.{record_of, either}
use unifi_mcp.NetworkClient.Site.{Client, put, session_only, site_endpoint, formatted}
use unifi_mcp.NetworkClient.Devices.{get_device}
use unifi_mcp.NetworkClient.Merge.{Record, Indexed, refusal, merged_overrides}

abbrev writable_fields : List String
writable_fields =
    "port_idx" ∷ "name" ∷ "native_networkconf_id" ∷ "poe_mode" ∷ "forward" ∷ "enabled"
    ∷ "setting_preference" ∷ []

-- set(change) - writable_fields
outside : Record → Bool
outside [] = false
outside ((k, v) ∷ r) = not (elem k writable_fields) || outside r

-- any(set(change) - writable_fields for change in ports)
unfoldable pub any_outside : List Record → Bool
unfolding outside
any_outside [] = false
any_outside (r ∷ rs) = outside r || any_outside rs

-- device.get("_id") or device.get("id")
abbrev pub device_id : Fields → Json
device_id device = either (get_or "_id" null device) (get_or "id" null device)

-- [dict(override) …] as JSON
abbrev pub json_of : List Indexed → Items
json_of [] = nil
json_of (i ∷ is) = cons (dict i.entry) (json_of is)

abbrev pub is_connection : Raised → Bool
is_connection (unifi e) = is_instance e ErrorClass.connection
is_connection e = false

-- try: action; except UniFiConnectionError: raise UniFiDeliveryUnknownError
unfoldable pub or_unknown : Action Json → Action Json
unfolding is_instance
or_unknown action c st =
    let (r, st') = action c st in
    elim r [
      | ok a ↦ (ok a, st')
      | err e ↦
          if is_connection e
          then (err (unifi (delivery_unknown_error (literal "Switch port update"))), st')
          else (err e, st')
    ]

-- The request, once the device is known.
unfoldable pub put_overrides :
    Python → Client → (device : Fields) → List Record → Option String → Action Json
unfolding or_unknown merged_overrides
put_overrides py self device ports site =
    let id = device_id device in
    if truthy id
    then (do
      overrides ← of_result (merged_overrides device ports)
      or_unknown (
          put (site_endpoint self (concat ("rest/device/" ∷ formatted py id ∷ [])) site)
            (dict (("port_overrides", arr (json_of overrides)) ∷ []))))
    else raise (refusal "Device has no stable ID")

unfoldable pub update_device_ports :
    Python → Client → String → (ports : List Record) → Option String → Action Json
unfolding any_outside put_overrides
update_device_ports py self mac ports site = session_only self "switch port configuration" (
    if any_outside ports
    then raise (refusal "Port update contains fields outside the writable allowlist")
    else (do
      found ← get_device py self mac site true
      device ← of_result (record_of found)
      put_overrides py self device ports site))
