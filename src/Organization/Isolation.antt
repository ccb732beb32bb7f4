-- ===== src/Organization/Isolation.antt =====
-- runtime/client_organization.py: what a change of a client's tags or group leaves of that client, and
-- of every other one.
use unifi_mcp.Base.{
  ◌≤◌, String, ◌≡◌, refl, sym, ap, subst, ◌∙◌, ◌⊎◌, inl, inr, true, false, ◌&&◌, Option, none, some,
  List, [], ◌∷◌, ◌++◌, map, arith, eq_iff, ltb, str_eq, str_leb, Bool-cases, and-true, raise_if-ok,
  ltb-false, str_eq→eq, Result, ok, err, ◌>>=◌, bind-ok, length, All, sorted_set,
}
use unifi_mcp.Base.Table.{
  select_where, delete_where, find_where, order_by, select_where-replaced_own,
  select_where-replaced_other,
}
use unifi_mcp.Organization.{
  Texts, OrganizationError, no_group, normalize_group_name, group_named, too_many_tags, Db,
  ClientTag, ClientGroup, Membership, Shown, tag_of, member_of, tag_rows, group_of,
  stable_client_key, normalize_tags, membership, replace_tags, assign_group, get_client,
}

-- Three texts that are those of a row are those of another key only if the keys are the same.
key_apart :
    (a b c a' b' c' x y z : String)
    → (str_eq a a' && str_eq b b' && str_eq c c') ≡ false
    → (str_eq x a && str_eq y b && str_eq z c) ≡ true
    → (str_eq x a' && str_eq y b' && str_eq z c') ≡ false
key_apart a b c a' b' c' x y z differ same =
    let (first, is_z) = and-true (str_eq x a && str_eq y b) (str_eq z c) same in
    let (is_x, is_y) = and-true (str_eq x a) (str_eq y b) first in
    let p = str_eq→eq x a is_x in
    let q = str_eq→eq y b is_y in
    let r = str_eq→eq z c is_z in
    subst (λ u. (str_eq u a' && str_eq y b' && str_eq z c') ≡ false) (sym p)
      (subst (λ u. (str_eq a a' && str_eq u b' && str_eq z c') ≡ false) (sym q)
        (subst (λ u. (str_eq a a' && str_eq b b' && str_eq u c') ≡ false) (sym r) differ))

own_key : (a b c : String) → (str_eq a a && str_eq b b && str_eq c c) ≡ true
own_key a b c = ground (arith, eq_iff a a, eq_iff b b, eq_iff c c)

module _ (controller site key : String) where
  tag_rows-own :
      (tags : List String)
      → All (λ r. tag_of controller site key r ≡ true) (tag_rows controller site key tags)
  tag_rows-own [] = tt
  tag_rows-own (tag ∷ tags) = (own_key controller site key, tag_rows-own tags)

  tag_rows-other :
      (c s k : String)
      → (str_eq controller c && str_eq site s && str_eq key k) ≡ false
      → (tags : List String) → All (λ r. tag_of c s k r ≡ false) (tag_rows controller site key tags)
  tag_rows-other c s k differ [] = tt
  tag_rows-other c s k differ (tag ∷ tags) = (differ, tag_rows-other c s k differ tags)

  map-tag_rows : (tags : List String) → map (λ r. r.tag) (tag_rows controller site key tags) ≡ tags
  map-tag_rows [] = refl
  map-tag_rows (tag ∷ tags) = ap (λ ts. tag ∷ ts) (map-tag_rows tags)

get_client-rows :
    (t : Texts) (controller site client_key key : String) (db : Db) (rows : List ClientTag)
    → stable_client_key t controller site client_key ≡ ok key
    → select_where (tag_of controller site key) db.tags ≡ rows
    → get_client t controller site client_key db
      ≡ ok (record {
        client_key = key;
        tags = order_by str_leb (map (λ r. r.tag) rows);
        group = group_of db.groups (select_where (member_of controller site key) db.memberships);
      })
unfolding get_client
get_client-rows t controller site client_key key db rows is_key own =
    ap (λ r. r >>= shown) is_key
    ∙ ap
        (λ rs. ok (record {
          client_key = key;
          tags = order_by str_leb (map (λ r. r.tag) rs);
          group = group_of db.groups (select_where (member_of controller site key) db.memberships);
        }))
        own
  where
    shown : String → Result OrganizationError Shown
    shown k = ok (record {
      client_key = k;
      tags = order_by str_leb (map (λ r. r.tag) (select_where (tag_of controller site k) db.tags));
      group = group_of db.groups (select_where (member_of controller site k) db.memberships);
    })

-- After its tags are replaced, a client has just the given ones, in lower case and without repetition,
-- at most 50 of them, and its group as before; the tags of every other client, of whatever controller
-- and site, are as before.
pub replace_tags-get_client :
    (t : Texts) (controller site client_key : String) (tags : List String) (db db' : Db)
    (c s k : String)
    → replace_tags t controller site client_key tags db ≡ ok db'
    → (key : String) × (normalized : List String) × (stable_client_key t controller site client_key
        ≡ ok key)
      × (normalize_tags t tags ≡ ok normalized)
      × (length (sorted_set normalized) ≤ 50)
      × (get_client t controller site client_key db'
          ≡ ok (record {
            client_key = key;
            tags = order_by str_leb (sorted_set normalized);
            group =
                group_of db.groups (select_where (member_of controller site key) db.memberships);
          }))
      × (((str_eq controller c && str_eq site s && str_eq key k) ≡ true)
          ⊎ (select_where (tag_of c s k) db'.tags ≡ select_where (tag_of c s k) db.tags))
unfolding replace_tags get_client
replace_tags-get_client t controller site client_key tags db db' c s k h =
    let (key, is_key, h1) = bind-ok (stable_client_key t controller site client_key) _ h in
    let (normalized, is_normalized, h2) = bind-ok (normalize_tags t tags) _ h1 in
    let (few, h3) = raise_if-ok (ltb 50 (length (sorted_set normalized))) too_many_tags _ h2 in
    let rows = tag_rows controller site key (sorted_set normalized) in
    let same : record db { tags = delete_where (tag_of controller site key) db.tags ++ rows }
        ≡ db' =
      cc h3 in
    let own : select_where (tag_of controller site key)
          (delete_where (tag_of controller site key) db.tags ++ rows)
        ≡ rows =
      select_where-replaced_own (tag_of controller site key) db.tags rows
        (tag_rows-own controller site key (sorted_set normalized)) in
    (
      key,
      normalized,
      is_key,
      is_normalized,
      ltb-false 50 (length (sorted_set normalized)) few,
      subst
          (λ d.
            get_client t controller site client_key d
            ≡ ok (record {
              client_key = key;
              tags = order_by str_leb (sorted_set normalized);
              group =
                  group_of db.groups (select_where (member_of controller site key) db.memberships);
            }))
          same
          (get_client-rows t controller site client_key key _ rows is_key own
            ∙ ap
                (λ ts. ok (record {
                  client_key = key;
                  tags = order_by str_leb ts;
                  group =
                      group_of db.groups
                        (select_where (member_of controller site key) db.memberships);
                }))
                (map-tag_rows controller site key (sorted_set normalized))),
      subst
          (λ d.
            ((str_eq controller c && str_eq site s && str_eq key k) ≡ true)
            ⊎ (select_where (tag_of c s k) d.tags ≡ select_where (tag_of c s k) db.tags))
          same
          (elim (Bool-cases (str_eq controller c && str_eq site s && str_eq key k)) [
            | inl yes_same ↦ inl yes_same
            | inr differ ↦ inr (
                select_where-replaced_other (tag_of c s k) (tag_of controller site key) db.tags rows
                  (λ r. key_apart controller site key c s k r.controller r.site r.client_key differ)
                  (tag_rows-other controller site key c s k differ (sorted_set normalized)))
          ]),
    )

-- The memberships that an assignment adds are of its client, and at most one.
data Added (controller site key : String) : List Membership → Type 0 where
  nothing : Added controller site key []
  one :
      (group_id : String)
      → Added controller site key (
          record { controller = controller; site = site; client_key = key; group_id = group_id }
          ∷ [])

membership-Added :
    (t : Texts) (controller site key : String) (name : Option String) (groups : List ClientGroup)
    {added : List Membership}
    → membership t controller site key name groups ≡ ok added
    → Added controller site key added
unfolding membership
membership-Added t controller site key none groups {added} h =
    let same : [] ≡ added = cc h in subst (Added controller site key) same nothing
membership-Added t controller site key (some value) groups {added} h =
    let (name, _, h1) = bind-ok (normalize_group_name t value) _ h in
    by_group (find_where (group_named t controller site name) groups) h1
  where
    by_group :
        (o : Option ClientGroup)
        → (elim o as (λ _. Result OrganizationError (List Membership)) [
          | none ↦ err no_group
          | some g ↦ ok (
              record { controller = controller; site = site; client_key = key; group_id = g.id }
              ∷ [])
        ])
          ≡ ok added
        → Added controller site key added
    by_group none k = cc
    by_group (some g) k =
        let same : record {
          controller = controller;
          site = site;
          client_key = key;
          group_id = g.id;
        }
              ∷ []
            ≡ added =
          cc k in
        subst (Added controller site key) same (one g.id)

-- After an assignment that succeeds, the client has the new membership and no other, or none if no group
-- was named; the memberships of every other client are as before.
pub assign_group-memberships :
    (t : Texts) (controller site client_key : String) (name : Option String) (db db' : Db)
    (c s k : String)
    → assign_group t controller site client_key name db ≡ ok db'
    → (key : String) × (added : List Membership) × (stable_client_key t controller site client_key
        ≡ ok key)
      × (membership t controller site key name db.groups ≡ ok added)
      × (length added ≤ 1)
      × (select_where (member_of controller site key) db'.memberships ≡ added)
      × (((str_eq controller c && str_eq site s && str_eq key k) ≡ true)
          ⊎ (select_where (member_of c s k) db'.memberships
              ≡ select_where (member_of c s k) db.memberships))
unfolding assign_group
assign_group-memberships t controller site client_key name db db' c s k h =
    let (key, is_key, h1) = bind-ok (stable_client_key t controller site client_key) _ h in
    let (added, is_added, h2) = bind-ok (membership t controller site key name db.groups) _ h1 in
    let same : record db {
      memberships = delete_where (member_of controller site key) db.memberships ++ added;
    }
        ≡ db' =
      cc h2 in
    let (few, own, other) =
      by_added key added (membership-Added t controller site key name db.groups is_added) in
    (
      key,
      added,
      is_key,
      is_added,
      few,
      subst (λ d. select_where (member_of controller site key) d.memberships ≡ added) same own,
      subst
          (λ d.
            ((str_eq controller c && str_eq site s && str_eq key k) ≡ true)
            ⊎ (select_where (member_of c s k) d.memberships
                ≡ select_where (member_of c s k) db.memberships))
          same other,
    )
  where
    added_own :
        (key : String) (added : List Membership)
        → Added controller site key added
        → (length added ≤ 1) × All (λ m. member_of controller site key m ≡ true) added
    added_own key _ nothing = (omega arith, tt)
    added_own key _ (one g) = (omega arith, (own_key controller site key, tt))

    added_other :
        (key : String) (added : List Membership)
        → Added controller site key added
        → (c s k : String) → (str_eq controller c && str_eq site s && str_eq key k) ≡ false
        → All (λ m. member_of c s k m ≡ false) added
    added_other key _ nothing c s k differ = tt
    added_other key _ (one g) c s k differ = (differ, tt)

    by_added :
        (key : String) (added : List Membership)
        → Added controller site key added
        → (length added ≤ 1)
          × (select_where
                (member_of controller site key)
                (delete_where (member_of controller site key) db.memberships ++ added)
              ≡ added)
          × (((str_eq controller c && str_eq site s && str_eq key k) ≡ true)
              ⊎ (select_where
                    (member_of c s k)
                    (delete_where (member_of controller site key) db.memberships ++ added)
                  ≡ select_where (member_of c s k) db.memberships))
    by_added key added a =
        let (few, own) = added_own key added a in
        (
          few,
          select_where-replaced_own (member_of controller site key) db.memberships added own,
          elim (Bool-cases (str_eq controller c && str_eq site s && str_eq key k)) [
            | inl yes_same ↦ inl yes_same
            | inr differ ↦ inr (
                select_where-replaced_other (member_of c s k) (member_of controller site key)
                  db.memberships added
                  (λ r. key_apart controller site key c s k r.controller r.site r.client_key differ)
                  (added_other key added a c s k differ))
          ],
        )
