-- ===== src/NetworkClient/Single.antt =====
-- clients/network.py: the methods that change the controller and read from it, too.
use unifi_mcp.Base.{
  String, ◌≡◌, refl, Bool, true, false, ◌||◌, Option, none, some, List, [], ◌∷◌, if◌then◌else◌,
  concat, All,
}
use unifi_mcp.Base.Json.{Json, Fields, arr, obj, truthy, dict}
use unifi_mcp.Exceptions.{unifi, api_error, literal}
use unifi_mcp.Verification.Compare.{Python}
use unifi_mcp.NetworkClient.Monad.{pure, raise, of_result, ◌>>=◌, State, Controller, Action}
use unifi_mcp.NetworkClient.Answers.{data_of, first_data, record_of, bare_mac}
use unifi_mcp.NetworkClient.Site.{
  Client, get, get_fresh, put, post, session_only, site_endpoint, formatted,
}
use unifi_mcp.NetworkClient.Devices.{
  get_devices, get_device, found_in, find_device, or_not_found, update_site_settings, section,
}
use unifi_mcp.NetworkClient.Clients.{set_client_fixed_ip, fixed_ip_data}
use unifi_mcp.NetworkClient.Merge.{Record, Indexed, refusal, merged_overrides}
use unifi_mcp.NetworkClient.Ports.{
  any_outside, put_overrides, update_device_ports, or_unknown, device_id, json_of,
}
use unifi_mcp.NetworkClient.Guard.{Args}
use unifi_mcp.NetworkClient.Trace.{
  still, get-ReadsOnly, put-Single, if-ReadsOnly, else-ReadsOnly, refuses, if-Single,
  or_unknown-Single, bind-ReadsOnly, reads-Single, Single-reads, AtMostOne, ReadsOnly, Single,
  nothing, reads_only, one,
}

both_false : (a b : Bool) → (a || b) ≡ false → (a ≡ false) × (b ≡ false)
both_false true b h = cc
both_false false b h = (refl, h)

module _ (self : Client) (session : (self.is_integration_api || self.is_cloud) ≡ false) where
  serve-Single :
      (feature : String) (rest : Action Json)
      → Single rest
      → Single (session_only self feature rest)
  unfolding session_only
  serve-Single feature rest single c st = rw session (single c st)

  update_site_settings-Single :
      (settings : Fields) (site : Option String) → Single (update_site_settings self settings site)
  unfolding update_site_settings
  update_site_settings-Single settings site =
      serve-Single "site settings update" _ (by_section (section settings))
    where
      by_section :
          (o : Option String)
          → Single (elim o as (λ _. Action Json) [
            | none ↦ raise (unifi (api_error (literal "Site settings update requires a key") none))
            | some key ↦
                post (site_endpoint self (concat ("set/setting/" ∷ key ∷ [])) site) (obj settings)
          ])
      by_section none c st = reads_only nothing
      by_section (some key) c st = one _ st.sent nothing refl nothing

  set_client_fixed_ip-Single :
      (client_id : String) (fixed_ip site : Option String)
      → Single (set_client_fixed_ip self client_id fixed_ip site)
  unfolding set_client_fixed_ip
  set_client_fixed_ip-Single client_id fixed_ip site =
      let endpoint = site_endpoint self (concat ("rest/user/" ∷ client_id ∷ [])) site in
      let read_back : Action Json = get endpoint >>= λ record'. of_result (first_data record') in
      serve-Single "DHCP reservations" _ (
        Single-reads (put endpoint (fixed_ip_data fixed_ip))
          (λ response. of_result (first_data response) >>= λ updated.
            if truthy updated then pure updated else read_back)
          (put-Single endpoint (fixed_ip_data fixed_ip))
          (λ response.
            bind-ReadsOnly (of_result (first_data response))
              (λ updated. if truthy updated then pure updated else read_back)
              (still (first_data response))
              (λ updated.
                if-ReadsOnly (truthy updated) (pure updated) read_back (λ c st. nothing)
                  (bind-ReadsOnly (get endpoint) (λ record'. of_result (first_data record'))
                    (get-ReadsOnly false endpoint) (λ record'. still (first_data record'))))))

  get_devices-ReadsOnly :
      (py : Python) (site : Option String) → ReadsOnly (get_devices py self site true)
  unfolding get_devices
  get_devices-ReadsOnly py site =
      let (local_api, local) = both_false self.is_integration_api self.is_cloud session in
      else-ReadsOnly self.is_integration_api _ _ local_api (
        else-ReadsOnly self.is_cloud _ _ local (
          bind-ReadsOnly (get_fresh true (site_endpoint self "stat/device" site))
            (λ response. of_result (data_of response)) (get-ReadsOnly true _)
            (λ response. still (data_of response))))

  get_device-ReadsOnly :
      (py : Python) (mac : String) (site : Option String)
      → ReadsOnly (get_device py self mac site true)
  unfolding get_device
  get_device-ReadsOnly py mac site =
      bind-ReadsOnly (get_devices py self site true)
        (λ devices. of_result (found_in (find_device py (bare_mac py mac)) devices) >>= λ found.
          or_not_found "Device" mac found)
        (get_devices-ReadsOnly py site)
        (λ devices.
          bind-ReadsOnly (of_result (found_in (find_device py (bare_mac py mac)) devices))
            (λ found. or_not_found "Device" mac found)
            (still (found_in (find_device py (bare_mac py mac)) devices)) (λ found. by_found found))
    where
      by_found : (found : Option Json) → ReadsOnly (or_not_found "Device" mac found)
      by_found none c st = nothing
      by_found (some device) c st = nothing

  put_overrides-Single :
      (py : Python) (device : Fields) (ports : List Record) (site : Option String)
      → Single (put_overrides py self device ports site)
  unfolding put_overrides
  put_overrides-Single py device ports site =
      if-Single (truthy (device_id device)) _ (raise (refusal "Device has no stable ID"))
        (reads-Single (of_result (merged_overrides device ports)) (λ overrides. sent overrides)
          (still (merged_overrides device ports))
          (λ overrides. or_unknown-Single (change overrides) (put-Single _ _)))
        (refuses (refusal "Device has no stable ID"))
    where
      change : List Indexed → Action Json
      change overrides =
          put
            (site_endpoint self (concat ("rest/device/" ∷ formatted py (device_id device) ∷ []))
              site)
            (dict (("port_overrides", arr (json_of overrides)) ∷ []))

      sent : List Indexed → Action Json
      sent overrides = or_unknown (change overrides)

  update_device_ports-Single :
      (py : Python) (mac : String) (ports : List Record) (site : Option String)
      → Single (update_device_ports py self mac ports site)
  unfolding update_device_ports
  update_device_ports-Single py mac ports site = serve-Single "switch port configuration" _ (
      if-Single (any_outside ports)
        (raise (refusal "Port update contains fields outside the writable allowlist")) _
        (refuses (refusal "Port update contains fields outside the writable allowlist"))
        (reads-Single (get_device py self mac site true)
          (λ found.
            of_result (record_of found) >>= λ device. put_overrides py self device ports site)
          (get_device-ReadsOnly py mac site)
          (λ found.
            reads-Single (of_result (record_of found))
              (λ device. put_overrides py self device ports site) (still (record_of found))
              (λ device. put_overrides-Single py device ports site))))

-- The methods that change the controller and may also read from it, or may refuse their arguments.
abbrev pub mixed_methods : Python → Client → Args → List (Action Json)
mixed_methods py self a =
    (update_site_settings self a.settings a.site)
    ∷ (set_client_fixed_ip self a.id a.fixed_ip a.site)
    ∷ (update_device_ports py self a.mac a.ports a.site)
    ∷ []

pub mixed_methods-AtMostOne :
    (self : Client) (c : Controller) (st : State) (py : Python) (a : Args)
    → (self.is_integration_api || self.is_cloud) ≡ false
    → All (λ m. AtMostOne st.sent (m c st).1.sent) (mixed_methods py self a)
mixed_methods-AtMostOne self c st py a session = (
  update_site_settings-Single self session a.settings a.site c st,
  (
    set_client_fixed_ip-Single self session a.id a.fixed_ip a.site c st,
    (update_device_ports-Single self session py a.mac a.ports a.site c st, tt),
  ),
)
