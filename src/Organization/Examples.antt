-- ===== src/Organization/Examples.antt =====
-- Two clients of one site, the first with a tag, the second in a group.
use unifi_mcp.Base.{
  ◌≤◌, String, ◌≡◌, refl, ◌⊎◌, true, ◌&&◌, List, [], ◌∷◌, str_eq, str_leb, ok, length, sorted_set,
}
use unifi_mcp.Base.Table.{select_where, delete_where, order_by}
use unifi_mcp.Organization.{
  Texts, normalize_client_key, stable_client_key, normalize_tag, normalize_tags, Db, tag_of,
  member_of, replace_tags, group_of, get_client,
}
use unifi_mcp.Organization.Isolation.{replace_tags-get_client}

abbrev texts : Texts
texts = record {
  strip = λ s. s;
  lower = λ s. s;
  collapse = λ s. s;
  digest = λ c s m. m;
  nocase = λ s. s;
}

abbrev key_a : String
key_a = "sha256:aa:00:00:00:00:01"

abbrev key_b : String
key_b = "sha256:aa:00:00:00:00:02"

abbrev db : Db
db = record {
  tags =
      record { controller = "c"; site = "s"; client_key = key_a; tag = "old" }
      ∷ record { controller = "c"; site = "s"; client_key = key_b; tag = "tv" }
      ∷ [];
  groups = record { id = "g1"; controller = "c"; site = "s"; name = "Kids" } ∷ [];
  memberships = record { controller = "c"; site = "s"; client_key = key_b; group_id = "g1" } ∷ [];
}

abbrev tagged : Db
tagged = record {
  tags =
      record { controller = "c"; site = "s"; client_key = key_b; tag = "tv" }
      ∷ record { controller = "c"; site = "s"; client_key = key_a; tag = "iot" }
      ∷ record { controller = "c"; site = "s"; client_key = key_a; tag = "lab" }
      ∷ [];
  groups = db.groups;
  memberships = db.memberships;
}

replaced :
    replace_tags texts "c" "s" "aa-00-00-00-00-01" ("lab" ∷ "iot" ∷ "lab" ∷ []) db ≡ ok tagged
unfolding replace_tags stable_client_key normalize_client_key normalize_tags normalize_tag
    delete_where
replaced = refl

replace_tags-get_client_example :
    (key : String) × (normalized : List String) × (stable_client_key texts "c" "s"
        "aa-00-00-00-00-01"
      ≡ ok key)
    × (normalize_tags texts ("lab" ∷ "iot" ∷ "lab" ∷ []) ≡ ok normalized)
    × (length (sorted_set normalized) ≤ 50)
    × (get_client texts "c" "s" "aa-00-00-00-00-01" tagged
        ≡ ok (record {
          client_key = key;
          tags = order_by str_leb (sorted_set normalized);
          group = group_of db.groups (select_where (member_of "c" "s" key) db.memberships);
        }))
    × (((str_eq "c" "c" && str_eq "s" "s" && str_eq key key_b) ≡ true)
        ⊎ (select_where (tag_of "c" "s" key_b) tagged.tags
            ≡ select_where (tag_of "c" "s" key_b) db.tags))
replace_tags-get_client_example =
    replace_tags-get_client texts "c" "s" "aa-00-00-00-00-01" ("lab" ∷ "iot" ∷ "lab" ∷ []) db tagged
      "c" "s" key_b replaced
