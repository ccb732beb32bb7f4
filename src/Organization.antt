-- ===== src/Organization.antt =====
-- runtime/client_organization.py: the tags and the group of a client.
pub mod Isolation
mod Examples
use unifi_mcp.Base.{
  ℕ, suc, String, Bool, true, false, ◌&&◌, ◌||◌, Option, none, some, List, [], ◌∷◌, ◌++◌, map, ltb,
  leb, ◌==◌, str_eq, str_leb, if◌then◌else◌, Result, ok, err, ◌>>=◌, ◌>>◌, raise_if, length, take,
  sorted_set, concat,
}
use unifi_mcp.Base.Table.{select_where, delete_where, count_where, find_where, order_by}
use Prim.Native.Char.{code}

-- Python on texts: `strip`, `lower`, " ".join(value.split()), the hash of an identity, and the folding of
-- COLLATE NOCASE.
pub record Texts : Type 0 where
  pub strip : String → String
  pub lower : String → String
  pub collapse : String → String
  pub digest : (controller site mac : String) → String
  pub nocase : String → String

pub data OrganizationError : Type 0 where
  bad_identity bad_tag bad_name too_many_tags no_group bad_selector integrity_error :
      OrganizationError

abbrev digit : ℕ → Bool
digit c = leb b'0' c && leb c b'9'

abbrev between : ℕ → ℕ → ℕ → Bool
between a c z = leb a c && leb c z

abbrev hex : ℕ → Bool
hex c = digit c || between b'a' c b'f'

abbrev tag_start : ℕ → Bool
tag_start c = between b'a' c b'z' || digit c

abbrev tag_rest : ℕ → Bool
tag_rest c = tag_start c || c == b':' || c == b'_' || c == b'-'

abbrev every : (ℕ → Bool) → String → Bool
every p String.[] = true
every p (String.◌∷◌ c s) = p (code c) && every p s

abbrev characters : String → ℕ
characters String.[] = 0
characters (String.◌∷◌ c s) = suc (characters s)

abbrev without : ℕ → String → String
without c String.[] = String.[]
without c (String.◌∷◌ d s) =
    let rest = without c s in if code d == c then rest else String.◌∷◌ d rest

-- ":".join of the pairs
abbrev pairs : String → String
pairs (String.◌∷◌ a (String.◌∷◌ b String.[])) = String.◌∷◌ a (String.◌∷◌ b String.[])
pairs (String.◌∷◌ a (String.◌∷◌ b s)) =
    concat (String.◌∷◌ a (String.◌∷◌ b String.[]) ∷ ":" ∷ pairs s ∷ [])
pairs s = s

abbrev after_prefix : (prefix s : String) → Option String
after_prefix String.[] s = some s
after_prefix (String.◌∷◌ c prefix) String.[] = none
after_prefix (String.◌∷◌ c prefix) (String.◌∷◌ d s) =
    let rest = after_prefix prefix s in if code c == code d then rest else none

-- `normalize_client_key`
unfoldable pub normalize_client_key : Texts → String → Result OrganizationError String
normalize_client_key t value =
    let compact = without b'-' (without b':' (t.lower (t.strip value))) in
    if characters compact == 12 && every hex compact then ok (pairs compact) else err bad_identity

-- `_STABLE_KEY.fullmatch(identity)`
abbrev is_stable : String → Bool
is_stable identity = elim (after_prefix "sha256:" identity) [
  | none ↦ false
  | some rest ↦ characters rest == 64 && every hex rest
]

-- `stable_client_key`
unfoldable pub stable_client_key :
    Texts → (controller site identity : String) → Result OrganizationError String
unfolding normalize_client_key
stable_client_key t controller site identity = if is_stable identity then ok identity else (do
  mac ← normalize_client_key t identity
  ok (concat ("sha256:" ∷ t.digest controller site mac ∷ [])))

abbrev is_tag : String → Bool
is_tag String.[] = false
is_tag (String.◌∷◌ c s) = tag_start (code c) && (every tag_rest s && leb (characters s) 63)

-- `normalize_tag`
unfoldable pub normalize_tag : Texts → String → Result OrganizationError String
normalize_tag t value =
    let tag = t.lower (t.strip value) in if is_tag tag then ok tag else err bad_tag

unfoldable pub normalize_tags : Texts → List String → Result OrganizationError (List String)
unfolding normalize_tag
normalize_tags t [] = ok []
normalize_tags t (value ∷ values) = do
  tag ← normalize_tag t value
  tags ← normalize_tags t values
  ok (tag ∷ tags)

-- `normalize_group_name`
unfoldable pub normalize_group_name : Texts → String → Result OrganizationError String
normalize_group_name t value =
    let name = t.collapse value in
    if leb 1 (characters name) && leb (characters name) 64 && every (λ c. leb 32 c) name
    then ok name
    else err bad_name

-- The rows of `client_tags`, `client_groups` and `client_group_memberships`, less their times.
pub record ClientTag : Type 0 where
  pub controller : String
  pub site : String
  pub client_key : String
  pub tag : String

pub record ClientGroup : Type 0 where
  pub id : String
  pub controller : String
  pub site : String
  pub name : String

pub record Membership : Type 0 where
  pub controller : String
  pub site : String
  pub client_key : String
  pub group_id : String

pub record Db : Type 0 where
  pub tags : List ClientTag
  pub groups : List ClientGroup
  pub memberships : List Membership

abbrev pub tag_of : (controller site client_key : String) → ClientTag → Bool
tag_of controller site client_key r =
    str_eq r.controller controller && str_eq r.site site && str_eq r.client_key client_key

abbrev pub member_of : (controller site client_key : String) → Membership → Bool
member_of controller site client_key r =
    str_eq r.controller controller && str_eq r.site site && str_eq r.client_key client_key

-- controller = ? AND site = ? AND name = ?
abbrev pub group_named : Texts → (controller site name : String) → ClientGroup → Bool
group_named t controller site name g =
    str_eq g.controller controller && str_eq g.site site && str_eq (t.nocase g.name) (t.nocase name)

abbrev pub tag_rows : (controller site client_key : String) → List String → List ClientTag
tag_rows controller site client_key [] = []
tag_rows controller site client_key (tag ∷ tags) =
    record { controller = controller; site = site; client_key = client_key; tag = tag }
    ∷ tag_rows controller site client_key tags

-- `replace_tags`, less what it returns, which is `get_client`; the rows differ, so no INSERT fails.
unfoldable pub replace_tags :
    Texts
    → (controller site client_key : String) → (tags : List String) → Db
    → Result OrganizationError Db
unfolding stable_client_key normalize_tags
replace_tags t controller site client_key tags db = do
  key ← stable_client_key t controller site client_key
  normalized ← normalize_tags t tags
  raise_if (ltb 50 (length (sorted_set normalized))) too_many_tags
  ok (record db {
    tags =
        delete_where (tag_of controller site key) db.tags
        ++ tag_rows controller site key (sorted_set normalized);
  })

-- `create_group`, with the fresh id
unfoldable pub create_group :
    Texts → (id controller site name : String) → Db → Result OrganizationError Db
unfolding normalize_group_name
create_group t id controller site value db = do
  name ← normalize_group_name t value
  raise_if (ltb 0 (count_where (group_named t controller site name) db.groups)) integrity_error
  ok (record db {
    groups =
        db.groups ++ record { id = id; controller = controller; site = site; name = name } ∷ [];
  })

abbrev in_group : ClientGroup → Membership → Bool
in_group g m = str_eq m.controller g.controller && str_eq m.site g.site && str_eq m.group_id g.id

-- ON DELETE CASCADE
cascade : List ClientGroup → List Membership → List Membership
cascade [] ms = ms
cascade (g ∷ gs) ms = cascade gs (delete_where (in_group g) ms)

-- `delete_group`
unfoldable pub delete_group :
    Texts → (controller site name : String) → Db → Result OrganizationError (Bool × Db)
unfolding normalize_group_name cascade
delete_group t controller site value db = do
  name ← normalize_group_name t value
  let hit = group_named t controller site name
  ok (
    ltb 0 (count_where hit db.groups),
    record db {
      groups = delete_where hit db.groups;
      memberships = cascade (select_where hit db.groups) db.memberships;
    },
  )

-- The membership that is inserted, if a name is given.
unfoldable pub membership :
    Texts
    → (controller site key : String) → Option String
    → List ClientGroup
    → Result OrganizationError (List Membership)
unfolding normalize_group_name
membership t controller site key none groups = ok []
membership t controller site key (some value) groups = do
  name ← normalize_group_name t value
  elim (find_where (group_named t controller site name) groups) [
    | none ↦ err no_group
    | some g ↦
        ok (record { controller = controller; site = site; client_key = key; group_id = g.id } ∷ [])
  ]

-- `assign_group`; a transaction that raises is rolled back.
unfoldable pub assign_group :
    Texts
    → (controller site client_key : String) → (name : Option String) → Db
    → Result OrganizationError Db
unfolding stable_client_key membership
assign_group t controller site client_key name db = do
  key ← stable_client_key t controller site client_key
  added ← membership t controller site key name db.groups
  ok (record db {
    memberships = delete_where (member_of controller site key) db.memberships ++ added;
  })

-- What `get_client` shows of a client.
pub record Shown : Type 0 where
  pub client_key : String
  pub tags : List String
  pub group : Option ClientGroup

abbrev pub group_of : List ClientGroup → List Membership → Option ClientGroup
group_of groups [] = none
group_of groups (m ∷ ms) =
    let rest = group_of groups ms in
    elim (find_where (λ g. str_eq g.id m.group_id) groups) [ none ↦ rest | some g ↦ some g ]

-- `get_client`
unfoldable pub get_client :
    Texts → (controller site client_key : String) → Db → Result OrganizationError Shown
unfolding stable_client_key
get_client t controller site client_key db = do
  key ← stable_client_key t controller site client_key
  ok (record {
    client_key = key;
    tags = order_by str_leb (map (λ r. r.tag) (select_where (tag_of controller site key) db.tags));
    group = group_of db.groups (select_where (member_of controller site key) db.memberships);
  })

-- `list_groups`: each group with the number of its members
unfoldable pub list_groups : Texts → (controller site : String) → Db → List (ClientGroup × ℕ)
list_groups t controller site db = take 1000 (
    map (λ g. (g, count_where (in_group g) db.memberships))
      (order_by (λ g h. str_leb (t.nocase g.name) (t.nocase h.name))
        (select_where (λ g. str_eq g.controller controller && str_eq g.site site) db.groups)))

-- The group of the name that a membership is of
abbrev is_in : Texts → (controller site name : String) → List ClientGroup → Membership → Bool
is_in t controller site name groups m =
    str_eq m.controller controller
    && str_eq m.site site
    && ltb 0 (
        count_where (λ g. str_eq g.id m.group_id && str_eq (t.nocase g.name) (t.nocase name))
          groups)

-- `list_client_keys`
unfoldable pub list_client_keys :
    Texts
    → (controller site : String) → (tag group : Option String) → Db
    → Result OrganizationError (List String)
unfolding normalize_tag normalize_group_name
list_client_keys t controller site (some value) none db = do
  tag ← normalize_tag t value
  ok (
      take 1000 (
        order_by str_leb (
          map (λ r. r.client_key)
            (select_where
              (λ r. str_eq r.controller controller && str_eq r.site site && str_eq r.tag tag)
              db.tags))))
list_client_keys t controller site none (some value) db = do
  name ← normalize_group_name t value
  ok (
      take 1000 (
        order_by str_leb (
          map (λ m. m.client_key)
            (select_where (is_in t controller site name db.groups) db.memberships))))
list_client_keys t controller site tag group db = err bad_selector
