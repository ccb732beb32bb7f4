-- ===== src/Qos/Examples.antt =====
-- A plan for two clients, in empty tables.
use unifi_mcp.Base.{
  ℕ, ◌+◌, ◌≤◌, String, ◌≡◌, refl, ◌≢◌, Option, some, List, [], ◌∷◌, leb, if◌then◌else◌, ok, err,
  length, sorted_set,
}
use unifi_mcp.Base.Table.{count_where}
use unifi_mcp.Qos.{Db, expired, stable_keys, get, Request, hour, create, get_for_apply}
use unifi_mcp.Qos.Targets.{Owned}
use unifi_mcp.Qos.Plans.{new_plan, with_plan, create-get}

abbrev stable : String → String → String → Option String
stable controller site identity = some identity

abbrev hash_of : List String → String
hash_of targets = "hash"

abbrev tables : Db
tables = record { plans = []; targets = [] }

abbrev request : Request
request = record {
  controller = "gw";
  site = "default";
  selector_type = "tag";
  selector_value = "kids";
  download_kbps = 1000;
  upload_kbps = 500;
  client_keys = "b" ∷ "a" ∷ "b" ∷ [];
}

abbrev created : Db
created = with_plan "hash" "t1" 7 request ("a" ∷ "b" ∷ []) tables

create-get_example :
    (keys : List String) × (stable_keys (stable "gw" "default") request.client_keys ≡ ok keys)
    × (1 ≤ length (sorted_set keys))
    × (length (sorted_set keys) ≤ 1000)
    × (get "t1" created
        ≡ some (new_plan (hash_of (sorted_set keys)) "t1" 7 request (sorted_set keys)))
    × ((later : ℕ)
        → get_for_apply "t1" later created ≡ (
            if leb (7 + hour) later
            then err expired
            else ok (new_plan (hash_of (sorted_set keys)) "t1" 7 request (sorted_set keys))))
    × ((other : String) → other ≢ "t1" → get other created ≡ get other tables)
    × Owned created
unfolding create count_where
create-get_example = create-get stable hash_of "t1" 7 request tables created tt refl
