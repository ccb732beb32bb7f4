-- ===== src/NetworkClient/Merge.antt =====
-- clients/network.py: how `update_device_ports` merges the requested changes into the overrides of a
-- switch's ports.
use unifi_mcp.Base.{
  ℕ, ◌+◌, String, Bool, true, false, not, ◌&&◌, ◌||◌, none, some, List, [], ◌∷◌, ◌==◌, str_eq,
  if◌then◌else◌, Result, ok, err, ◌>>=◌, ◌>>◌, raise_if, length,
}
use unifi_mcp.Base.Json.{
  Json, null, bool, int, neg, float, text, arr, obj, Items, nil, cons, Fields, truthy, get_or,
  items_of,
}
use unifi_mcp.Base.Table.{select_where}
use unifi_mcp.Base.Dict.{get_item, update}
use unifi_mcp.Exceptions.{literal, api_error, Raised, unifi, other}
use unifi_mcp.NetworkClient.Answers.{attribute_error}

abbrev pub Record : Type 0
Record = List (String × Json)

-- A `port_idx` as a key of a set or a dict; a bool is the number 0 or 1, and a float its text.
pub data Key : Type 0 where
  absent : Key
  whole below : ℕ → Key
  words decimal : String → Key

abbrev pub same_key : Key → Key → Bool
same_key absent absent = true
same_key (whole m) (whole n) = m == n
same_key (below m) (below n) = m == n
same_key (words s) (words t) = str_eq s t
same_key (decimal s) (decimal t) = str_eq s t
same_key _ _ = false

-- A value that cannot be hashed is a TypeError.
unfoldable pub key_of : Json → Result Raised Key
key_of null = ok absent
key_of (bool false) = ok (whole 0)
key_of (bool true) = ok (whole 1)
key_of (int n) = ok (whole n)
key_of (neg n) = ok (below n)
key_of (text s) = ok (words s)
key_of (float b s) = ok (decimal s)
key_of value = err (other "TypeError")

-- A record with its `port_idx`.
pub record Indexed : Type 0 where
  pub key : Key
  pub entry : Record

unfoldable pub indexed : Record → Result Raised Indexed
unfolding key_of
indexed r = do
  key ← key_of (elim (get_item "port_idx" r) [ none ↦ null | some v ↦ v ])
  ok (record { key = key; entry = r })

unfoldable pub all_indexed : List Record → Result Raised (List Indexed)
unfolding indexed
all_indexed [] = ok []
all_indexed (r ∷ rs) = do first ← indexed r; rest ← all_indexed rs; ok (first ∷ rest)

-- The dicts of a list; another element has no `get`.
unfoldable pub records_of : Items → Result Raised (List Record)
records_of nil = ok []
records_of (cons (obj fs) xs) = do rest ← records_of xs; ok (items_of fs ∷ rest)
records_of (cons x xs) = err attribute_error

-- key in keys
unfoldable pub has_index : Key → List Indexed → Bool
has_index key [] = false
has_index key (i ∷ is) = same_key i.key key || has_index key is

-- len(keys) != len(set(keys))
unfoldable pub has_duplicates : List Indexed → Bool
unfolding has_index
has_duplicates [] = false
has_duplicates (i ∷ is) = has_index i.key is || has_duplicates is

abbrev pub is_absent : Key → Bool
is_absent absent = true
is_absent _ = false

-- The overrides that have an index.
unfoldable pub with_index : List Indexed → List Indexed
with_index is = select_where (λ i. not (is_absent i.key)) is

-- {key: value for key, value in change.items() if key != "port_idx"}
unfoldable pub writable : Record → Record
writable r = select_where (λ e. not (str_eq e.0 "port_idx")) r

-- port_idx in override_positions; an override without an index has no position
abbrev pub positioned : Key → Indexed → Bool
positioned key i = not (is_absent i.key) && same_key i.key key

abbrev pub patch : Indexed → Indexed → Indexed
patch change i = record { key = i.key; entry = update i.entry (writable change.entry) }

-- {"port_idx": port_idx, **writable_change}
unfoldable pub new_override : Indexed → Indexed
unfolding writable
new_override change = record {
  key = change.key;
  entry =
      ("port_idx", elim (get_item "port_idx" change.entry) [ none ↦ null | some v ↦ v ])
      ∷ writable change.entry;
}

-- updated_overrides[override_positions[port_idx]].update(…), or a new override at the end
unfoldable pub merge_change : Indexed → List Indexed → List Indexed
unfolding new_override
merge_change change [] = new_override change ∷ []
merge_change change (i ∷ is) =
    let rest = merge_change change is in
    if positioned change.key i then patch change i ∷ is else i ∷ rest

abbrev pub no_such_port : Raised
no_such_port = unifi (api_error (literal "Requested port index does not exist") none)

-- The loop over the changes: the overrides, and how many changes were valid.
unfoldable pub merge_changes :
    (valid : List Indexed) → List Indexed → List Indexed → ℕ → Result Raised (List Indexed × ℕ)
unfolding has_index writable merge_change
merge_changes valid [] overrides count = ok (overrides, count)
merge_changes valid (change ∷ changes) overrides count = do
  raise_if (not (has_index change.key valid)) no_such_port
  let empty = length (writable change.entry) == 0
  merge_changes valid changes (if empty then overrides else merge_change change overrides)
      (if empty then count else count + 1)

abbrev pub refusal : String → Raised
refusal message = unifi (api_error (literal message) none)

-- A list that the device holds, with the index of each of its dicts.
unfoldable pub entries : (value : Json) → Raised → Result Raised (List Indexed)
entries (arr xs) error = records_of xs >>= all_indexed
entries value error = err error

abbrev pub port_table_of : Fields → Json
port_table_of device = get_or "port_table" null device

-- The overrides that are written, out of the device and the requested changes.
unfoldable pub merged_overrides : (device : Fields) → List Record → Result Raised (List Indexed)
unfolding entries all_indexed has_duplicates with_index merge_changes
merged_overrides device ports = do
  raise_if (not (truthy (port_table_of device))) (refusal "Device has no current port table")
  valid ← entries (port_table_of device) (refusal "Device has no current port table")
  overrides ←
      entries (get_or "port_overrides" (arr nil) device)
        (refusal "Device port overrides are not a writable collection")
  raise_if (has_duplicates (with_index overrides)) (refusal "Existing port overrides duplicate")
  changes ← all_indexed ports
  raise_if (has_duplicates changes) (refusal "Requested port changes duplicate")
  merged ← merge_changes valid changes overrides 0
  raise_if (merged.1 == 0) (refusal "No valid port changes to update")
  ok merged.0
