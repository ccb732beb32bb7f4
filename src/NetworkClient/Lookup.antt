-- ===== src/NetworkClient/Lookup.antt =====
-- clients/network.py: which site and which device a lookup returns.
use unifi_mcp.Base.{
  String, ◌≡◌, refl, sym, ap, subst, ◌∙◌, inl, inr, Bool, Option, none, some, arith, eq_iff, str_eq,
  if◌then◌else◌, Bool-cases, if-true, if-false, str_eq→eq, Result, ok, err,
}
use unifi_mcp.Base.Json.{
  Json, null, bool, int, neg, float, text, arr, obj, Items, nil, cons, Fields,
}
use unifi_mcp.Base.Dict.{get_item, get_item-set_item}
use unifi_mcp.Exceptions.{Raised}
use unifi_mcp.Verification.Compare.{Python}
use unifi_mcp.NetworkClient.Monad.{State, Controller, Action, of_result, ◌>>=◌}
use unifi_mcp.NetworkClient.Answers.{bare_mac, elements, attribute_error, find_in}
use unifi_mcp.NetworkClient.Site.{
  Client, site_or, get_sites, remember, known_or_look_up, look_up, get_site_id,
}
use unifi_mcp.NetworkClient.Devices.{
  device_mac, find_device, found_in, or_not_found, get_devices, get_device,
}

-- An action that returns has run its first part to a value, and the rest on that value.
action-ok :
    {A B : Type 0} (m : Action A) (f : A → Action B) (c : Controller) (st : State) {b : B}
    {st' : State}
    → (m >>= f) c st ≡ (ok b, st')
    → (a : A) × (st1 : State) × (m c st ≡ (ok a, st1)) × (f a c st1 ≡ (ok b, st'))
action-ok {A} {B} m f c st {b} {st'} h = by_result (m c st) refl h
  where
    by_result :
        (r : Result Raised A × State)
        → m c st ≡ r
        → (elim r.0 as (λ _. Result Raised B × State) [ ok a ↦ f a c r.1 | err e ↦ (err e, r.1) ])
          ≡ (ok b, st')
        → (a : A) × (st1 : State) × (m c st ≡ (ok a, st1)) × (f a c st1 ≡ (ok b, st'))
    by_result (ok a, st1) eq k = (a, st1, eq, k)
    by_result (err e, st1) eq k = absurd (cc (ap (λ r. r.0) k))

remember-cached :
    (site_name : String) (o : Option Json) (c : Controller) (st : State) {id : Json} {st' : State}
    → remember site_name o c st ≡ (ok id, st')
    → get_item site_name st'.site_ids ≡ some id
unfolding remember
remember-cached site_name none c st h = absurd (cc (ap (λ r. r.0) h))
remember-cached site_name (some j) c st {id} {st'} h =
    let ids = ap (λ r. r.1.site_ids) h in
    let first : ok j ≡ ok id = ap (λ r. r.0) h in
    let same : j ≡ id = cc first in
    ap (get_item site_name) (sym ids)
    ∙ (get_item-set_item site_name j site_name st.site_ids
        ∙ (if-true (str_eq site_name site_name) (some j) _
              (ground (arith, eq_iff site_name site_name))
            ∙ ap some same))

-- The id of a site is asked for once: after a lookup that returned it, a lookup of the same site returns
-- the same id without a request, whatever the controller answers by then.
pub get_site_id-again :
    (py : Python) (self : Client) (site : Option String) (c c' : Controller) (st : State)
    (id : Json) (st' : State)
    → get_site_id py self site c st ≡ (ok id, st')
    → get_site_id py self site c' st' ≡ (ok id, st')
unfolding get_site_id known_or_look_up look_up
get_site_id-again py self site c c' st id st' h =
    again (cached (get_item (site_or self site) st.site_ids) refl h)
  where
    cached :
        (o : Option Json)
        → get_item (site_or self site) st.site_ids ≡ o
        → known_or_look_up py self (site_or self site) o c st ≡ (ok id, st')
        → get_item (site_or self site) st'.site_ids ≡ some id
    cached none eq k =
        let (sites, st1, _, k1) =
          action-ok (get_sites self)
            (λ sites.
              of_result (find_in py (site_or self site) sites) >>= remember (site_or self site))
            c st k in
        let (found, st2, _, k2) =
          action-ok (of_result (find_in py (site_or self site) sites))
            (remember (site_or self site)) c st1 k1 in
        remember-cached (site_or self site) found c st2 k2
    cached (some j) eq k =
        let first : ok j ≡ ok id = ap (λ r. r.0) k in
        let same : j ≡ id = cc first in
        ap (λ s. get_item (site_or self site) s.site_ids) (sym (ap (λ r. r.1) k))
        ∙ (eq ∙ ap some same)

    again :
        get_item (site_or self site) st'.site_ids ≡ some id
        → known_or_look_up py self
            (site_or self site)
            (get_item (site_or self site) st'.site_ids)
            c'
            st'
          ≡ (ok id, st')
    again eq = rw eq refl

-- The mac of a device is the wanted one.
pub data HasMac (py : Python) (mac : String) : Json → Type 0 where
  has_mac :
      (fs : Fields) (s : String)
      → device_mac fs ≡ text s
      → bare_mac py s ≡ bare_mac py mac
      → HasMac py mac (obj fs)

find_device-HasMac :
    (py : Python) (mac : String) (devices : Items) {d : Json}
    → find_device py (bare_mac py mac) devices ≡ ok (some d)
    → HasMac py mac d
unfolding find_device
find_device-HasMac py mac nil h = cc
find_device-HasMac py mac (cons (obj fs) devices) {d} h =
    by_mac (λ k. find_device-HasMac py mac devices k) (device_mac fs) refl h
  where
    by_mac :
        (find_device py (bare_mac py mac) devices ≡ ok (some d) → HasMac py mac d)
        → (m : Json) → device_mac fs ≡ m
        → (elim m as (λ _. Result Raised (Option Json)) [
          | text s ↦
              if str_eq (bare_mac py s) (bare_mac py mac)
              then ok (some (obj fs))
              else find_device py (bare_mac py mac) devices
          | _ ↦ err attribute_error
        ])
          ≡ ok (some d)
        → HasMac py mac d
    by_mac more (text s) eq k = elim (Bool-cases (str_eq (bare_mac py s) (bare_mac py mac))) [
      | inl same ↦
          let hit : ok (some (obj fs)) ≡ ok (some d) = sym (if-true _ _ _ same) ∙ k in
          let is_d : obj fs ≡ d = cc hit in
          subst (HasMac py mac) is_d (has_mac fs s eq (str_eq→eq _ _ same))
      | inr differs ↦ more (sym (if-false _ _ _ differs) ∙ k)
    ]
    by_mac more null eq k = cc
    by_mac more (bool b) eq k = cc
    by_mac more (int n) eq k = cc
    by_mac more (neg n) eq k = cc
    by_mac more (float b s) eq k = cc
    by_mac more (arr xs) eq k = cc
    by_mac more (obj gs) eq k = cc
find_device-HasMac py mac (cons null devices) h = cc
find_device-HasMac py mac (cons (bool b) devices) h = cc
find_device-HasMac py mac (cons (int n) devices) h = cc
find_device-HasMac py mac (cons (neg n) devices) h = cc
find_device-HasMac py mac (cons (float b s) devices) h = cc
find_device-HasMac py mac (cons (text s) devices) h = cc
find_device-HasMac py mac (cons (arr xs) devices) h = cc

found_in-elements :
    (find : Items → Result Raised (Option Json)) (answer : Json) {o : Option Json}
    → found_in find answer ≡ ok o
    → (xs : Items) × (elements answer ≡ ok xs) × (find xs ≡ ok o)
found_in-elements find answer {o} h = by_elements (elements answer) refl h
  where
    by_elements :
        (r : Result Raised Items)
        → elements answer ≡ r
        → (elim r as (λ _. Result Raised (Option Json)) [ err e ↦ err e | ok xs ↦ find xs ]) ≡ ok o
        → (xs : Items) × (elements answer ≡ ok xs) × (find xs ≡ ok o)
    by_elements (err e) eq k = cc
    by_elements (ok xs) eq k = (xs, eq, k)

or_not_found-some :
    (kind mac : String) (o : Option Json) (c : Controller) (st : State) {d : Json} {st' : State}
    → or_not_found kind mac o c st ≡ (ok d, st')
    → o ≡ some d
or_not_found-some kind mac none c st h = absurd (cc (ap (λ r. r.0) h))
or_not_found-some kind mac (some found) c st {d} h =
    let first : ok found ≡ ok d = ap (λ r. r.0) h in cc first

-- A device that is returned for a mac is one of those that the controller listed just then, and its own
-- mac is the wanted one, with separators and case left out.
pub get_device-HasMac :
    (py : Python) (self : Client) (mac : String) (site : Option String) (fresh : Bool)
    (c : Controller) (st : State) (d : Json) (st' : State)
    → get_device py self mac site fresh c st ≡ (ok d, st')
    → (devices : Json) × (st1 : State) × (get_devices py self site fresh c st ≡ (ok devices, st1))
      × (found_in (find_device py (bare_mac py mac)) devices ≡ ok (some d))
      × HasMac py mac d
unfolding get_device
get_device-HasMac py self mac site fresh c st d st' h =
    let (devices, st1, listed, h1) =
      action-ok (get_devices py self site fresh)
        (λ devices.
          of_result (found_in (find_device py (bare_mac py mac)) devices)
          >>= or_not_found "Device" mac)
        c st h in
    let (found, st2, searched, h2) =
      action-ok (of_result (found_in (find_device py (bare_mac py mac)) devices))
        (or_not_found "Device" mac) c st1 h1 in
    let is_d = or_not_found-some "Device" mac found c st2 h2 in
    let result : found_in (find_device py (bare_mac py mac)) devices ≡ ok (some d) =
      ap (λ r. r.0) searched ∙ ap ok is_d in
    let (xs, _, hit) = found_in-elements (find_device py (bare_mac py mac)) devices result in
    (devices, st1, listed, result, find_device-HasMac py mac xs hit)
