-- ===== src/Base/Json.antt =====
-- Values of `json.loads`: what a response body, a cursor or a job argument holds.
use Prim.Native.Nat.{ℕ, ◌+◌}
use Prim.Native.String.{String}
use mathlib.Core.Bool.{Bool, true, false, not, ◌&&◌}
use mathlib.Core.Option.{Option, none, some}
use mathlib.Core.List.{List, [], ◌∷◌}
use unifi_mcp.Base.Tests.{ltb, ◌==◌, str_eq, if◌then◌else◌}

mutual
  -- `neg n` is -(n + 1); a float is kept by its text and by whether it is nonzero.
  pub data Json : Type 0 where
    null : Json
    bool : Bool → Json
    int : ℕ → Json
    neg : ℕ → Json
    float : Bool → String → Json
    text : String → Json
    arr : Items → Json
    obj : Fields → Json

  pub data Items : Type 0 where
    nil : Items
    cons : Json → Items → Items

  pub data Fields : Type 0 where
    end : Fields
    field : String → Json → Fields → Fields

-- Python's truth value.
abbrev pub truthy : Json → Bool
truthy null = false
truthy (bool b) = b
truthy (int n) = not (n == 0)
truthy (neg n) = true
truthy (float b s) = b
truthy (text s) = not (str_eq s "")
truthy (arr nil) = false
truthy (arr (cons x xs)) = true
truthy (obj end) = false
truthy (obj (field k v fs)) = true

-- d.get(k)
unfoldable pub get_field : String → Fields → Option Json
get_field k end = none
get_field k (field j v fs) = if str_eq j k then some v else get_field k fs

-- d.get(k, default)
unfoldable pub get_or : String → Json → Fields → Json
unfolding get_field
get_or k d fs = elim (get_field k fs) [ none ↦ d | some v ↦ v ]

-- v == "literal"
abbrev pub is_text : Json → String → Bool
is_text (text s) t = str_eq s t
is_text _ t = false

-- len(d)
abbrev pub count_fields : Fields → ℕ
count_fields end = 0
count_fields (field k v fs) = count_fields fs + 1

abbrev bit : Bool → ℕ
bit false = 0
bit true = 1

unfoldable mutual
  unfolding get_field

  -- a == b; a bool is the number 0 or 1, the texts of two floats are compared, and a float is equal
  -- to no int.
  pub equals : Json → Json → Bool
  equals null null = true
  equals (bool a) (bool b) = bit a == bit b
  equals (bool a) (int n) = bit a == n
  equals (int n) (bool b) = n == bit b
  equals (int m) (int n) = m == n
  equals (neg m) (neg n) = m == n
  equals (float p s) (float q t) = str_eq s t
  equals (text s) (text t) = str_eq s t
  equals (arr xs) (arr ys) = equal_items xs ys
  equals (obj fs) (obj gs) = count_fields fs == count_fields gs && fields_in fs gs
  equals _ _ = false

  equal_items : Items → Items → Bool
  equal_items nil nil = true
  equal_items (cons x xs) (cons y ys) = equals x y && equal_items xs ys
  equal_items _ _ = false

  fields_in : Fields → Fields → Bool
  fields_in end gs = true
  fields_in (field k v fs) gs =
      (elim (get_field k gs) [ none ↦ false | some w ↦ equals v w ]) && fields_in fs gs

-- A Python int: a bool, n, or -(n + 1).
pub data Integer : Type 0 where
  truth : Bool → Integer
  nat : ℕ → Integer
  minus : ℕ → Integer

abbrev pub number : Integer → Json
number (truth b) = bool b
number (nat n) = int n
number (minus n) = neg n

-- n > 0
abbrev pub positive : Integer → Bool
positive (truth b) = b
positive (nat n) = ltb 0 n
positive (minus n) = false

-- The dict of a list of its items.
abbrev pub fields : List (String × Json) → Fields
fields [] = end
fields ((k, v) ∷ items) = field k v (fields items)

abbrev pub dict : List (String × Json) → Json
dict items = obj (fields items)

-- The items of a dict.
abbrev pub items_of : Fields → List (String × Json)
items_of end = []
items_of (field k v fs) = (k, v) ∷ items_of fs
