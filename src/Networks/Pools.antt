-- ===== src/Networks/Pools.antt =====
-- tools/network/sites.py: the DHCP pool that a network has after `create_network` or `update_network`.
use unifi_mcp.Base.{
  String, ◌≡◌, refl, sym, ap, subst, ◌∙◌, ◌≢◌, ◌⊎◌, inl, inr, Bool, true, false, not, ◌&&◌, ◌||◌,
  Option, none, some, [], ◌∷◌, arith, str_eq, if◌then◌else◌, Bool-cases, not-false, raise_if-ok,
  if-false, Result, ok, err, ◌>>=◌, bind-ok, elem,
}
use unifi_mcp.Base.Json.{Json, null, bool, int, neg, float, text, arr, obj, truthy, Integer}
use unifi_mcp.Verification.Compare.{Record, Python, get, str_of}
use unifi_mcp.Networks.{
  incomplete_pool, no_pool, unconfirmed, blank_name, bad_purpose, bad_vlan, bad_subnet,
  bad_lease_time, validate_dhcp_range, parsed, attribute_error,
}
use unifi_mcp.Networks.Range.{ValidPool, validate_dhcp_range-ValidPool}
use unifi_mcp.Networks.Settle.{Controller, given, filled}
use unifi_mcp.Networks.Create.{NewNetwork, unreadable, bad_time, bad_tag, check_pool, check_create}
use unifi_mcp.Networks.Update.{
  Changes, emptied, effective, effective_pool, check_update, resolve, check_existing,
  check_effective, prepare_update,
}

-- A guarded check that passes has passed its body.
guarded :
    {E : Type 0} (test ready : Bool) (body : Result E (Unit {0})) (error : E)
    → test ≡ true
    → (if test then (if ready then body else err error) else ok tt) ≡ ok tt
    → (ready ≡ true) × (body ≡ ok tt)
guarded true true body error t h = (refl, h)
guarded true false body error t h = cc
guarded false ready body error t h = cc

-- The pool of a network under the values that an update leaves it with.
pub data PoolAfter (py : Python) (a : Changes) (network : Record) : Type 0 where
  untouched :
      given a.subnet ≡ false
      → (given a.dhcp_start || given a.dhcp_stop) ≡ false
      → PoolAfter py a network
  disabled : (emptied a.dhcp_start && emptied a.dhcp_stop) ≡ true → PoolAfter py a network
  absent :
      (given a.dhcp_start || given a.dhcp_stop) ≡ false
      → (truthy (get "dhcpd_enabled" network)
          || truthy (get "dhcpd_start" network)
          || truthy (get "dhcpd_stop" network))
        ≡ false
      → PoolAfter py a network
  valid :
      (s : String)
      → effective a.subnet "ip_subnet" network ≡ text s
      → ValidPool py
          (str_of py (effective a.dhcp_start "dhcpd_start" network))
          (str_of py (effective a.dhcp_stop "dhcpd_stop" network))
          s
      → PoolAfter py a network

not_text :
    (py : Python) (start stop : String)
    → (do
      _ ← parsed (py.ip_address (py.strip start))
      _ ← parsed (py.ip_address (py.strip stop))
      err attribute_error)
      ≡ ok tt
    → ⊥
not_text py start stop h =
    let (_, _, h1) = bind-ok (parsed (py.ip_address (py.strip start))) _ h in
    let (_, _, h2) = bind-ok (parsed (py.ip_address (py.strip stop))) _ h1 in cc h2

effective_pool-ValidPool :
    (py : Python) (start stop : String) (subnet : Json)
    → effective_pool py start stop subnet ≡ ok tt
    → (s : String) × (subnet ≡ text s) × ValidPool py start stop s
unfolding effective_pool
effective_pool-ValidPool py start stop null h =
    let (s, is, pool) = validate_dhcp_range-ValidPool py start stop none h in absurd (cc is)
effective_pool-ValidPool py start stop (text t) h =
    let (s, is, pool) = validate_dhcp_range-ValidPool py start stop (some t) h in
    let same : t ≡ s = cc is in (s, ap (λ x. text x) same, pool)
effective_pool-ValidPool py start stop (bool b) h = absurd (not_text py start stop h)
effective_pool-ValidPool py start stop (int n) h = absurd (not_text py start stop h)
effective_pool-ValidPool py start stop (neg n) h = absurd (not_text py start stop h)
effective_pool-ValidPool py start stop (float b s) h = absurd (not_text py start stop h)
effective_pool-ValidPool py start stop (arr xs) h = absurd (not_text py start stop h)
effective_pool-ValidPool py start stop (obj fs) h = absurd (not_text py start stop h)

check_effective-valid :
    (py : Python) (a : Changes) (network : Record)
    → (given a.dhcp_start || given a.dhcp_stop) ≡ true
    → (emptied a.dhcp_start && emptied a.dhcp_stop) ≡ false
    → check_effective py a network ≡ ok tt
    → PoolAfter py a network
unfolding check_effective
check_effective-valid py a network ends kept h =
    let start = effective a.dhcp_start "dhcpd_start" network in
    let stop = effective a.dhcp_stop "dhcpd_stop" network in
    let subnet = effective a.subnet "ip_subnet" network in
    let test = both_true ends kept in
    let (_, checked) = guarded _ (truthy start && truthy stop) _ no_pool test h in
    let (t, is_text, pool) =
      effective_pool-ValidPool py (str_of py start) (str_of py stop) subnet checked in
    valid t is_text pool
  where
    both_true : {t u : Bool} → t ≡ true → u ≡ false → (t && not u) ≡ true
    both_true {t} {u} x y = ground arith

no_ends :
    (start stop : Option String)
    → (given start || given stop) ≡ false
    → (start ≡ none) × (stop ≡ none)
no_ends none none h = (refl, refl)
no_ends none (some t) h = cc
no_ends (some s) stop h = cc

check_existing-PoolAfter :
    (py : Python) (a : Changes) (network : Record)
    → (given a.dhcp_start || given a.dhcp_stop) ≡ false
    → check_existing py a network ≡ ok tt
    → PoolAfter py a network
unfolding check_existing effective
check_existing-PoolAfter py a network no_end h =
    let start = get "dhcpd_start" network in
    let stop = get "dhcpd_stop" network in
    by_test (Bool-cases (given a.subnet))
      (Bool-cases (truthy (get "dhcpd_enabled" network) || truthy start || truthy stop))
  where
    all_true : {t u v : Bool} → t ≡ true → u ≡ false → v ≡ true → (t && not u && v) ≡ true
    all_true {t} {u} {v} x y z = ground arith

    by_test :
        ((given a.subnet ≡ true) ⊎ (given a.subnet ≡ false))
        → (((truthy (get "dhcpd_enabled" network)
                || truthy (get "dhcpd_start" network)
                || truthy (get "dhcpd_stop" network))
              ≡ true)
            ⊎ ((truthy (get "dhcpd_enabled" network)
                  || truthy (get "dhcpd_start" network)
                  || truthy (get "dhcpd_stop" network))
                ≡ false))
        → PoolAfter py a network
    by_test (inr no_subnet) p = untouched no_subnet no_end
    by_test (inl some_subnet) (inr no_pool') = absent no_end no_pool'
    by_test (inl some_subnet) (inl held) =
        let start = get "dhcpd_start" network in
        let stop = get "dhcpd_stop" network in
        let (_, accepted) =
          guarded _ (truthy start && truthy stop) _ incomplete_pool
            (all_true some_subnet no_end held) h in
        let (s, some_s, in_pool) =
          validate_dhcp_range-ValidPool py (str_of py start) (str_of py stop) a.subnet accepted in
        let (start_none, stop_none) = no_ends a.dhcp_start a.dhcp_stop no_end in
        valid s (subst (λ o. effective o "ip_subnet" network ≡ text s) (sym some_s) refl) (
          subst
            (λ o.
              ValidPool py (str_of py (effective o "dhcpd_start" network))
                (str_of py (effective a.dhcp_stop "dhcpd_stop" network)) s)
            (sym start_none)
            (subst
              (λ o. ValidPool py (str_of py start) (str_of py (effective o "dhcpd_stop" network)) s)
              (sym stop_none) in_pool))

-- An update that passes its checks, of the network that it resolved, leaves that network with a pool
-- which lies in its subnet, under the values after the update; unless it changes neither the subnet nor
-- an end of the pool, or empties both ends, or the network has no pool.
pub prepare_update-PoolAfter :
    (py : Python) (c : Controller) (a : Changes) (network : Record) (id : Json)
    → prepare_update py c a ≡ ok (network, id)
    → PoolAfter py a network
unfolding prepare_update
prepare_update-PoolAfter py c a network id h =
    let (_, h_update, h1) = bind-ok (check_update py a) _ h in
    let (found, h_found, h2) = bind-ok (resolve py c a.name) _ h1 in
    let (_, existing, h3) = bind-ok (check_existing py a found.0) _ h2 in
    let (_, effective', h4) = bind-ok (check_effective py a found.0) _ h3 in
    let same : found.0 ≡ network = cc h4 in
    subst (PoolAfter py a) same (
      by_ends found.0 existing effective' (Bool-cases (given a.dhcp_start || given a.dhcp_stop))
        (Bool-cases (emptied a.dhcp_start && emptied a.dhcp_stop)))
  where
    by_ends :
        (n : Record)
        → check_existing py a n ≡ ok tt
        → check_effective py a n ≡ ok tt
        → ((given a.dhcp_start || given a.dhcp_stop) ≡ true)
          ⊎ ((given a.dhcp_start || given a.dhcp_stop) ≡ false)
        → ((emptied a.dhcp_start && emptied a.dhcp_stop) ≡ true)
          ⊎ ((emptied a.dhcp_start && emptied a.dhcp_stop) ≡ false)
        → PoolAfter py a n
    by_ends n existing checked (inr no_end) t = check_existing-PoolAfter py a n no_end existing
    by_ends n existing checked (inl ends) (inl empties) = disabled empties
    by_ends n existing checked (inl ends) (inr kept) =
        check_effective-valid py a n ends kept checked

-- What a creation has passed: the confirmation, a tag of a VLAN, and its DHCP pool.
pub data NewPool (py : Python) (a : NewNetwork) : Type 0 where
  no_dhcp : a.dhcp_start ≡ none → a.dhcp_stop ≡ none → a.dhcp_lease_time ≡ none → NewPool py a
  pooled :
      (start stop s : String)
      → a.dhcp_start ≡ some start
      → a.dhcp_stop ≡ some stop
      → a.subnet ≡ some s
      → ValidPool py start stop s
      → NewPool py a

half : (t : Bool) → not (t && false) ≢ false
half true h = cc
half false h = cc

neither : (t u : Bool) → not (not t && not u) ≡ false → (t || u) ≡ false
neither true u h = cc
neither false true h = cc
neither false false h = refl

pool_of :
    (py : Python) (start stop subnet : Option String) (lease : Bool)
    → ((given start || given stop || lease) && not (filled start && filled stop)) ≡ false
    → check_pool py start stop subnet ≡ ok tt
    → ((start ≡ none) × (stop ≡ none) × (lease ≡ false))
      ⊎ ((x : String) × (y : String) × (s : String) × (start ≡ some x)
          × (stop ≡ some y)
          × (subnet ≡ some s)
          × ValidPool py x y s)
unfolding check_pool
pool_of py none none subnet false h checked = inl (refl, refl, refl)
pool_of py none none subnet true h checked = cc
pool_of py none (some y) subnet lease h checked = cc
pool_of py (some x) none subnet lease h checked = absurd (half (not (str_eq x "")) h)
pool_of py (some x) (some y) subnet lease h checked =
    let both : (str_eq x "" || str_eq y "") ≡ false = neither (str_eq x "") (str_eq y "") h in
    let accepted = sym (if-false _ (ok tt) (validate_dhcp_range py x y subnet) both) ∙ checked in
    let (s, some_s, pool) = validate_dhcp_range-ValidPool py x y subnet accepted in
    inr (x, y, s, refl, refl, some_s, pool)

-- A creation that passes its checks was confirmed, has no VLAN or one of 1 to 4094, and either says
-- nothing of DHCP or has a pool that lies in its subnet.
pub check_create-NewPool :
    (py : Python) (a : NewNetwork)
    → check_create py a ≡ ok tt
    → (a.confirm ≡ true) × (bad_tag a.vlan ≡ false) × NewPool py a
unfolding check_create
check_create-NewPool py a h =
    let (is_confirmed, h1) = raise_if-ok (not a.confirm) unconfirmed _ h in
    let (_, h2) = raise_if-ok (str_eq (py.strip a.name) "") blank_name _ h1 in
    let (_, h3) =
      raise_if-ok (not (elem a.purpose ("corporate" ∷ "guest" ∷ "wan" ∷ []))) bad_purpose _ h2 in
    let (tag, h4) = raise_if-ok (bad_tag a.vlan) bad_vlan _ h3 in
    let (_, h5) = raise_if-ok (unreadable py a.subnet) bad_subnet _ h4 in
    let (_, h6) = raise_if-ok (bad_time a.dhcp_lease_time) bad_lease_time _ h5 in
    let (supplied, h7) =
      raise_if-ok
        ((given a.dhcp_start || given a.dhcp_stop || given a.dhcp_lease_time)
          && not (filled a.dhcp_start && filled a.dhcp_stop))
        no_pool _ h6 in
    (
      not-false a.confirm is_confirmed,
      tag,
      elim (pool_of py a.dhcp_start a.dhcp_stop a.subnet (given a.dhcp_lease_time) supplied h7) [
        | inl (no_start, no_stop, no_lease) ↦
            no_dhcp no_start no_stop (not_given a.dhcp_lease_time no_lease)
        | inr (x, y, s, is_x, is_y, is_s, pool) ↦ pooled x y s is_x is_y is_s pool
      ],
    )
  where
    not_given : (o : Option Integer) → given o ≡ false → o ≡ none
    not_given none k = refl
    not_given (some n) k = cc
