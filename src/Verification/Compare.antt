-- ===== src/Verification/Compare.antt =====
-- tools/network/_verification.py: the comparison of a record with the fields that a tool requested,
-- and the replies that its mutations share.
use unifi_mcp.Base.{
  ℕ, String, ◌≡◌, refl, Bool, true, false, not, ◌&&◌, ◌||◌, Option, none, some, List, [], ◌∷◌, map,
  str_eq, if◌then◌else◌, and-true, All, elem,
}
use unifi_mcp.Base.Json.{Json, null, bool, text, equals}
use unifi_mcp.Base.Table.{select_where}
use unifi_mcp.Base.Dict.{get_item}

-- A dict of a controller's answer, or of a request.
abbrev pub Record : Type 0
Record = List (String × Json)

-- An address of `ipaddress`, and an interface: an address with the length of its prefix.
pub record Address : Type 0 where
  pub v6 : Bool
  pub number : ℕ

pub record Interface : Type 0 where
  pub ip : Address
  pub prefix : ℕ

-- Python on texts: `s.strip()`, `s.lower()`, `s.upper()`, `str(value)` of what is no text, `int(value)`, and
-- `ipaddress` with `str` of its values. `none` is a TypeError or ValueError.
pub record Python : Type 0 where
  pub strip : String → String
  pub lower : String → String
  pub upper : String → String
  pub str : Json → String
  pub int_of : Json → Option Json
  pub ip_address : String → Option Address
  pub ip_interface : String → Option Interface
  pub show_address : Address → String
  pub show_interface : Interface → String

abbrev pub is_null : Json → Bool
is_null null = true
is_null _ = false

abbrev pub is_bool : Json → Bool
is_bool (bool b) = true
is_bool _ = false

abbrev pub is_false : Json → Bool
is_false (bool b) = not b
is_false _ = false

-- `a is b` of a bool `b`
abbrev pub is_same : Json → Json → Bool
is_same (bool true) (bool b) = b
is_same (bool false) (bool b) = not b
is_same _ _ = false

-- str(value)
abbrev pub str_of : Python → Json → String
str_of py (text s) = s
str_of py value = py.str value

-- record.get(field)
abbrev pub get : String → Record → Json
get key record' = elim (get_item key record') [ none ↦ null | some v ↦ v ]

abbrev boolean_fields : List String
boolean_fields = "enabled" ∷ "vlan_enabled" ∷ "dhcpd_enabled" ∷ []

abbrev integer_fields : List String
integer_fields = "port_idx" ∷ "vlan" ∷ "dhcpd_leasetime" ∷ []

abbrev address_fields : List String
address_fields = "dhcpd_start" ∷ "dhcpd_stop" ∷ []

abbrev cidr_fields : List String
cidr_fields = "ip_subnet" ∷ []

abbrev strip_text : Python → Json → Json
strip_text py (text s) = text (py.strip s)
strip_text py value = value

unfoldable pub normalize_integer : Python → Json → Json
normalize_integer py value = elim (py.int_of value) [ none ↦ value | some n ↦ n ]

unfoldable pub normalize_address : Python → Json → Json
normalize_address py value =
    let s = py.strip (str_of py value) in
    text (elim (py.ip_address s) [ none ↦ s | some a ↦ py.show_address a ])

unfoldable pub normalize_cidr : Python → Json → Json
normalize_cidr py value =
    let s = py.strip (str_of py value) in
    text (elim (py.ip_interface s) [ none ↦ s | some a ↦ py.show_interface a ])

unfoldable pub normalize_field : Python → String → Json → Json
unfolding normalize_integer normalize_address normalize_cidr
normalize_field py key value =
    if is_null value
    then null
    else if elem key boolean_fields
    then value
    else if elem key integer_fields && not (is_bool value)
    then normalize_integer py value
    else if elem key address_fields
    then normalize_address py value
    else if elem key cidr_fields
    then normalize_cidr py value
    else strip_text py value

-- The fields of `requested` that are compared.
unfoldable pub compared : Record → Record
compared requested =
    select_where
      (λ f.
        not (str_eq f.0 "setting_preference")
        && not (is_false (get "vlan_enabled" requested) && str_eq f.0 "vlan"))
      requested

-- One key of the `all`: whether the normalised value of the record is the requested one.
unfoldable pub field_matches : Python → (observed : Record) → String × Json → Bool
unfolding normalize_field equals
field_matches py observed (key, value) =
    let expected = normalize_field py key value in
    let seen = normalize_field py key (get key observed) in
    (is_bool expected && is_same seen expected) || (not (is_bool expected) && equals seen expected)

unfoldable pub all_match : Python → (observed requested : Record) → Bool
unfolding field_matches
all_match py observed [] = true
all_match py observed (f ∷ fs) = field_matches py observed f && all_match py observed fs

unfoldable pub requested_observation :
    Python → Option Record → (requested : Record) → Bool × Option Record
unfolding compared all_match normalize_field
requested_observation py none requested = (false, none)
requested_observation py (some found) requested = (
  all_match py found (compared requested),
  some (map (λ f. (f.0, normalize_field py f.0 (get f.0 found))) (compared requested)),
)

all_match-All :
    (py : Python) (observed requested : Record)
    → all_match py observed requested ≡ true
    → All (λ f. field_matches py observed f ≡ true) requested
unfolding all_match
all_match-All py observed [] h = tt
all_match-All py observed (f ∷ fs) h =
    let (matches, more) = and-true (field_matches py observed f) (all_match py observed fs) h in
    (matches, all_match-All py observed fs more)

-- A comparison that matches has a record, in which each compared key has the requested value.
pub requested_observation-All :
    (py : Python) (found : Option Record) (requested : Record)
    → (requested_observation py found requested).0 ≡ true
    → (n : Record) × (found ≡ some n) × All (λ f. field_matches py n f ≡ true) (compared requested)
unfolding requested_observation
requested_observation-All py none requested h = cc
requested_observation-All py (some n) requested h =
    (n, refl, all_match-All py n (compared requested) h)
