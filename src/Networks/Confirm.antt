-- ===== src/Networks/Confirm.antt =====
-- tools/network/sites.py: what a success of `create_network`, `update_network` or `delete_network`
-- has been confirmed by.
use unifi_mcp.Base.{
  ℕ, ◌<◌, String, ◌≡◌, refl, ap, subst, Bool, true, false, Option, none, some, List, Result, ok,
  err, bind-ok,
}
use unifi_mcp.Base.Json.{Json}
use unifi_mcp.Base.Table.{find_where}
use unifi_mcp.Verification.{read}
use unifi_mcp.Verification.Bounded.{match, exhausted, verify_eventually-Verified}
use unifi_mcp.Verification.Compare.{Record, Python}
use unifi_mcp.Networks.{Refusal, network_id, normalize_network}
use unifi_mcp.Networks.Settle.{
  Request, posts, puts, deletes, CallError, connection_error, other_error, Controller, Reply,
  success, dispatch, has_network_id, verification,
}
use unifi_mcp.Networks.Settle.Answers.{Confirmed, settle-Confirmed}
use unifi_mcp.Networks.Create.{
  NewNetwork, check_create, create_data, created, created_summary, created-Confirmed,
  create_network,
}
use unifi_mcp.Networks.Update.{Changes, prepare_update, update_data, updated, update_network}
use unifi_mcp.Networks.Delete.{
  evaluate_gone, prepare_delete, deleted, deleted_reply, shown_name, delete_network,
}

-- A tool succeeds only past its checks, and with the success of its answer.
dispatch-success :
    {A : Type 0} (c : Controller) (prepared : Result Refusal A) (request : A → Request)
    (answer : A → Result CallError Record → Reply) {s : Record}
    → (dispatch c prepared request answer).reply ≡ success s
    → (a : A) × (prepared ≡ ok a) × (answer a (c.send (request a)) ≡ success s)
unfolding dispatch
dispatch-success c (err r) request answer h = cc
dispatch-success c (ok a) request answer h = (a, refl, h)

-- A creation succeeds only if it passed its checks, the controller accepted it with an id, and one of
-- the bounded fresh reads after it showed the network with that id and with each requested field at
-- its value; the summary is of that record.
pub create_network-Confirmed :
    (py : Python) (c : Controller) (a : NewNetwork) (s : Record)
    → (create_network py c a).reply ≡ success s
    → (check_create py a ≡ ok tt)
      × ((network : Record) × (id : Json) × (r : Record) × (c.send (posts (create_data py a))
            ≡ ok network)
          × (network_id network ≡ some id)
          × Confirmed py c id (create_data py a) r
          × (s ≡ created_summary py r))
unfolding create_network
create_network-Confirmed py c a s h =
    let (_, checked, answered) =
      dispatch-success c (check_create py a) (λ _. posts (create_data py a))
        (λ _. created py c (create_data py a)) h in
    (
      checked,
      created-Confirmed py c (create_data py a) (c.send (posts (create_data py a))) answered,
    )

updated-Confirmed :
    (py : Python) (c : Controller) (id : Json) (data' : Record) (answer : Result CallError Record)
    {s : Record}
    → updated py c id data' answer ≡ success s
    → (r : Record) × Confirmed py c id data' r × (s ≡ normalize_network py r)
unfolding updated
updated-Confirmed py c id data' (err connection_error) h = cc
updated-Confirmed py c id data' (err other_error) h = cc
updated-Confirmed py c id data' (ok network) h =
    settle-Confirmed py c (normalize_network py) id data' h

-- An update succeeds only if it passed its checks on a network that it resolved, and one of the
-- bounded fresh reads after the request showed the network of the same id with each requested field
-- at its value; the summary is of that record.
pub update_network-Confirmed :
    (py : Python) (c : Controller) (a : Changes) (s : Record)
    → (update_network py c a).reply ≡ success s
    → (network : Record) × (id : Json) × (r : Record) × (prepare_update py c a ≡ ok (network, id))
      × Confirmed py c id (update_data py a) r
      × (s ≡ normalize_network py r)
unfolding update_network
update_network-Confirmed py c a s h =
    let (f, prepared, answered) =
      dispatch-success c (prepare_update py c a) (λ f. puts f.1 (update_data py a))
        (λ f. updated py c f.1 (update_data py a)) h in
    let (r, is_confirmed, same) =
      updated-Confirmed py c f.1 (update_data py a) (c.send (puts f.1 (update_data py a)))
        answered in
    (f.0, f.1, r, prepared, is_confirmed, same)

-- The read `n` of the verification shows no network `id`.
pub record Gone (c : Controller) (id : Json) : Type 0 where
  pub n : ℕ
  pub networks : List Record
  pub within_attempts : n < c.mutation_verify_attempts
  pub answered : c.get_networks_fresh n ≡ ok networks
  pub absent : find_where (has_network_id id) networks ≡ none

matched_of : Result String (Bool × Option Record) → Bool
matched_of (err name) = false
matched_of (ok (matched, o)) = matched

evaluate_gone-none :
    (py : Python) (id : Json) (networks : List Record)
    → matched_of (evaluate_gone py id networks) ≡ true
    → find_where (has_network_id id) networks ≡ none
unfolding evaluate_gone matched_of
evaluate_gone-none py id networks h = by_found (find_where (has_network_id id) networks) h
  where
    by_found :
        (found : Option Record)
        → matched_of (elim found as (λ _. Result String (Bool × Option Record)) [
          | none ↦ ok (true, none)
          | some network ↦ ok (false, some (normalize_network py network))
        ])
          ≡ true
        → found ≡ none
    by_found none k = refl
    by_found (some network) k = cc

deleted-Gone :
    (py : Python) (c : Controller) (id name : Json) (answer : Result CallError Record) {s : Record}
    → deleted py c id name answer ≡ success s
    → Gone c id
unfolding deleted deleted_reply verification read matched_of
deleted-Gone py c id name (err connection_error) h = cc
deleted-Gone py c id name (err other_error) h = cc
deleted-Gone py c id name (ok network) {s} h =
    let v = verification c (evaluate_gone py id) in
    elim (verify_eventually-Verified c.get_networks_fresh (evaluate_gone py id)
      c.mutation_verify_initial_delay c.mutation_verify_max_delay c.mutation_verify_attempts).0 [
        | match n x last lt seen matched observed error reads ↦
            let (networks, answered, same) =
              bind-ok (c.get_networks_fresh n) (evaluate_gone py id) seen in
            record {
              n = n;
              networks = networks;
              within_attempts = lt;
              answered = answered;
              absent = evaluate_gone-none py id networks (ap matched_of same);
            }
        | exhausted last matched reads ↦
            let h1 = subst (λ m. deleted_reply id name m v.observed ≡ success s) matched h in
            absurd (cc h1)
      ]

-- A deletion succeeds only if it was confirmed and resolved a network, and one of the bounded fresh
-- reads after the request no longer showed a network of its id.
pub delete_network-Gone :
    (py : Python) (c : Controller) (name : String) (confirm : Bool) (s : Record)
    → (delete_network py c name confirm).reply ≡ success s
    → (network : Record) × (id : Json) × (prepare_delete py c name confirm ≡ ok (network, id))
      × Gone c id
unfolding delete_network
delete_network-Gone py c name confirm s h =
    let (f, prepared, answered) =
      dispatch-success c (prepare_delete py c name confirm) (λ f. deletes f.1)
        (λ f. deleted py c f.1 (shown_name name f.0)) h in
    (
      f.0,
      f.1,
      prepared,
      deleted-Gone py c f.1 (shown_name name f.0) (c.send (deletes f.1)) answered,
    )
