-- ===== src/NetworkClient/Answers.antt =====
-- clients/network.py: what the methods read out of an answer.
use unifi_mcp.Base.{
  ℕ, String, ◌||◌, Option, none, some, ◌==◌, str_eq, if◌then◌else◌, Result, ok, err, ◌>>=◌,
}
use unifi_mcp.Base.Json.{
  Json, null, text, arr, obj, Items, nil, cons, Fields, end, field, truthy, get_or,
}
use Prim.Native.Char.{code}
use unifi_mcp.Exceptions.{Raised, other}
use unifi_mcp.Verification.Compare.{Python}

abbrev pub attribute_error : Raised
attribute_error = other "AttributeError"

-- response.get("data", [])
unfoldable pub data_of : Json → Result Raised Json
data_of (obj fs) = ok (get_or "data" (arr nil) fs)
data_of response = err attribute_error

-- `_extract_list_data`
unfoldable pub extract_list_data : Json → Json
extract_list_data (arr xs) = arr xs
extract_list_data (obj fs) = get_or "data" (arr nil) fs
extract_list_data response = arr nil

-- (response.get("data") or [{}])[0]
abbrev pub first_item : Json → Result Raised Json
first_item (arr (cons x xs)) = ok x
first_item (text (String.◌∷◌ c s)) = ok (text (String.◌∷◌ c String.[]))
first_item value = if truthy value then err (other "TypeError") else ok (obj end)

unfoldable pub first_data : Json → Result Raised Json
first_data (obj fs) = first_item (get_or "data" null fs)
first_data response = err attribute_error

-- What a `for` goes through; the characters of a text stand as one text.
abbrev pub elements : Json → Result Raised Items
elements (arr xs) = ok xs
elements (obj fs) = ok (keys fs)
  where
    keys : Fields → Items
    keys end = nil
    keys (field k v more) = cons (text k) (keys more)
elements (text s) = if str_eq s "" then ok nil else ok (cons (text s) nil)
elements value = err (other "TypeError")

-- The keys of an element, which must be a dict for its `get`.
abbrev pub record_of : Json → Result Raised Fields
record_of (obj fs) = ok fs
record_of value = err attribute_error

-- value.lower() of a value that must be a text
abbrev pub lowered : Python → Json → Result Raised String
lowered py (text s) = ok (py.lower s)
lowered py value = err attribute_error

-- a or b
abbrev pub either : Json → Json → Json
either a b = if truthy a then a else b

-- The loop of `_get_site_id`: the id of the first site whose reference or name is the name.
unfoldable pub find_site : Python → String → Items → Result Raised (Option Json)
find_site py site_name nil = ok none
find_site py site_name (cons site sites) = do
  fs ← record_of site
  let name = get_or "name" (text "") fs
  internal_ref ← lowered py (get_or "internalReference" name fs)
  own_name ← lowered py name
  rest ←
      (if str_eq (py.lower site_name) internal_ref || str_eq (py.lower site_name) own_name
        then ok (some (either (get_or "id" null fs) (get_or "_id" (text "") fs)))
        else find_site py site_name sites)
  ok rest

unfoldable pub find_in : Python → String → Json → Result Raised (Option Json)
unfolding find_site
find_in py site_name sites = elements sites >>= find_site py site_name

-- The text without the characters of a code.
abbrev without : ℕ → String → String
without c String.[] = String.[]
without c (String.◌∷◌ d s) =
    let rest = without c s in if code d == c then rest else String.◌∷◌ d rest

-- mac.lower().replace(":", "").replace("-", "")
abbrev pub bare_mac : Python → String → String
bare_mac py mac = without b'-' (without b':' (py.lower mac))
