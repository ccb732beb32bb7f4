-- ===== src/Networks/Range.antt =====
-- `_validate_dhcp_range` of tools/network/sites.py: what a pool that it accepts satisfies.
use unifi_mcp.Base.{
  ℕ, ◌+◌, ◌-◌, ◌*◌, ◌/◌, ◌≤◌, ◌<◌, String, ◌≡◌, refl, subst, ◌≢◌, ◌⊎◌, inl, inr, Bool, true, false,
  not, ◌&&◌, ◌||◌, Option, none, some, arith, ltb, ◌==◌, if◌then◌else◌, Bool-cases, and-true,
  or-false, not-false, raise_if-ok, raise_if-false, eqb→eq, neqb→neq, ltb-false, ok, bind-ok,
}
use native.Mathlib.Nat.{one-le-pow, div-mul-le_self, lt-div-mul-add}
use unifi_mcp.Verification.Compare.{Address, Interface, Python}
use unifi_mcp.Networks.{
  mixed_versions, outside_subnet, is_gateway, is_network, is_broadcast, reversed, block,
  network_address, broadcast_address, same_version, within, either, check_range,
  validate_dhcp_range, parsed,
}

-- A pool that the addresses of a network can serve: it lies in the block of the network, leaves out
-- the gateway, and for IPv4 the first and the last address of the block.
pub record Pool (start stop : Address) (i : Interface) : Type 0 where
  pub same_versions : same_version start stop ≡ true
  pub start_version : same_version start i.ip ≡ true
  pub ordered : start.number ≤ stop.number
  pub above : network_address i ≤ start.number
  pub below : stop.number ≤ broadcast_address i
  pub start_gateway : start.number ≢ i.ip.number
  pub stop_gateway : stop.number ≢ i.ip.number
  pub first_free : (i.ip.v6 ≡ true) ⊎ (network_address i < start.number)
  pub last_free : (i.ip.v6 ≡ true) ⊎ (stop.number < broadcast_address i)

pub block-pos : (i : Interface) → 0 < block i
block-pos i = one-le-pow ((if i.ip.v6 then 128 else 32) - i.prefix) 2 (omega arith)

in_block :
    (i : Interface) (a : Address)
    → within i a ≡ true
    → (network_address i ≤ a.number) × (a.number ≤ broadcast_address i)
in_block i a h =
    let (version, same) =
      and-true (same_version a i.ip) (a.number / block i * block i == network_address i) h in
    let eq = eqb→eq (a.number / block i * block i) (network_address i) same in
    let low = div-mul-le_self a.number (block i) in
    let high : a.number < a.number / block i * block i + block i = lt-div-mul-add (block-pos i) in
    (subst (λ n. n ≤ a.number) eq low, last (subst (λ n. a.number < n + block i) eq high))
  where
    last : a.number < network_address i + block i → a.number ≤ broadcast_address i
    last h = omega (arith, h)

neither : (n a b : ℕ) → (a == n || b == n) ≡ false → (a ≢ n) × (b ≢ n)
neither n a b h =
    let (first, second) = or-false (a == n) (b == n) h in (neqb→neq a n first, neqb→neq b n second)

-- A pool that is accepted lies in the network.
pub check_range-Pool :
    (start stop : Address) (i : Interface) → check_range start stop i ≡ ok tt → Pool start stop i
unfolding check_range
check_range-Pool start stop i h =
    let (versions, h1) = raise_if-ok (not (same_version start stop)) mixed_versions _ h in
    let (inside, h2) =
      raise_if-ok (not (within i start) || not (within i stop)) outside_subnet _ h1 in
    let (gateway, h3) = raise_if-ok (either (λ n. n == i.ip.number) start stop) is_gateway _ h2 in
    let (first, h4) =
      raise_if-ok (not i.ip.v6 && either (λ n. n == network_address i) start stop) is_network _
        h3 in
    let (last, h5) =
      raise_if-ok (not i.ip.v6 && either (λ n. n == broadcast_address i) start stop) is_broadcast _
        h4 in
    let ordered =
      ltb-false stop.number start.number
        (raise_if-false (ltb stop.number start.number) reversed h5) in
    let (start_in, stop_in) = or-false (not (within i start)) (not (within i stop)) inside in
    let (low, start_high) = in_block i start (not-false (within i start) start_in) in
    let (stop_low, high) = in_block i stop (not-false (within i stop) stop_in) in
    let (start_free, stop_free) = neither i.ip.number start.number stop.number gateway in
    record {
      same_versions = not-false (same_version start stop) versions;
      start_version =
          (and-true (same_version start i.ip) _ (not-false (within i start) start_in)).0;
      ordered = ordered;
      above = low;
      below = high;
      start_gateway = start_free;
      stop_gateway = stop_free;
      first_free = elim (Bool-cases i.ip.v6) [
        | inl v6 ↦ inl v6
        | inr v4 ↦
            let (free, _) =
              neither (network_address i) start.number stop.number (v4_test i.ip.v6 v4 _ first) in
            inr (omega (arith, low, free))
      ];
      last_free = elim (Bool-cases i.ip.v6) [
        | inl v6 ↦ inl v6
        | inr v4 ↦
            let (_, free) =
              neither (broadcast_address i) start.number stop.number (v4_test i.ip.v6 v4 _ last) in
            inr (omega (arith, high, free))
      ];
    }
  where
    v4_test : (v6 : Bool) → v6 ≡ false → (t : Bool) → (not v6 && t) ≡ false → t ≡ false
    v4_test true v4 t h = cc
    v4_test false v4 t h = h

parsed-some : {A : Type 0} (o : Option A) {a : A} → parsed o ≡ ok a → o ≡ some a
parsed-some none h = cc
parsed-some (some b) h = cc

-- The texts of a pool and of a subnet, which are read as addresses and an interface such that the
-- pool lies in the network of the interface.
pub record ValidPool (py : Python) (start stop subnet : String) : Type 0 where
  pub start_ip : Address
  pub stop_ip : Address
  pub interface : Interface
  pub start_read : py.ip_address (py.strip start) ≡ some start_ip
  pub stop_read : py.ip_address (py.strip stop) ≡ some stop_ip
  pub interface_read : py.ip_interface (py.strip subnet) ≡ some interface
  pub pool : Pool start_ip stop_ip interface

-- A DHCP range is accepted only with a known subnet, and only if its two ends and the subnet are
-- readable, the ends have the version of the subnet, the start is not after the stop, both lie in the
-- block of the subnet, neither is its gateway and, for IPv4, neither is the network or the broadcast
-- address.
pub validate_dhcp_range-ValidPool :
    (py : Python) (start stop : String) (subnet : Option String)
    → validate_dhcp_range py start stop subnet ≡ ok tt
    → (s : String) × (subnet ≡ some s) × ValidPool py start stop s
unfolding validate_dhcp_range
validate_dhcp_range-ValidPool py start stop none h = cc
validate_dhcp_range-ValidPool py start stop (some subnet) h =
    let (a, h_a, h1) = bind-ok (parsed (py.ip_address (py.strip start))) _ h in
    let (b, h_b, h2) = bind-ok (parsed (py.ip_address (py.strip stop))) _ h1 in
    let (i, h_i, h3) = bind-ok (parsed (py.ip_interface (py.strip subnet))) _ h2 in
    (
      subnet,
      refl,
      record {
        start_ip = a;
        stop_ip = b;
        interface = i;
        start_read = parsed-some (py.ip_address (py.strip start)) h_a;
        stop_read = parsed-some (py.ip_address (py.strip stop)) h_b;
        interface_read = parsed-some (py.ip_interface (py.strip subnet)) h_i;
        pool = check_range-Pool a b i h3;
      },
    )
