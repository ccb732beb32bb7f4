-- ===== src/Networks/Delete.antt =====
-- `delete_network` of tools/network/sites.py.
use unifi_mcp.Base.{
  String, Bool, true, false, not, Option, none, some, List, [], ◌∷◌, str_eq, Result, ok, err, ◌>>◌,
  raise_if,
}
use unifi_mcp.Base.Json.{Json, text}
use unifi_mcp.Base.Table.{find_where}
use unifi_mcp.Base.Dict.{get_item}
use unifi_mcp.Verification.Compare.{Record, Python}
use unifi_mcp.Networks.{Refusal, unconfirmed, blank_name, rejected, normalize_network}
use unifi_mcp.Networks.Settle.{
  deletes, dispatch, CallError, connection_error, other_error, Controller, Reply, refused,
  delivery_unknown, accepted_unverified, success, Run, has_network_id, verification,
}
use unifi_mcp.Networks.Settle.Answers.{Answered, succeeds, unsettled}
use unifi_mcp.Networks.Update.{resolve}

-- The `evaluate` of `delete_network`; what it observes is `None` or the record.
unfoldable pub evaluate_gone :
    Python → (id : Json) → List Record → Result String (Bool × Option Record)
evaluate_gone py id networks = elim (find_where (has_network_id id) networks) [
  | none ↦ ok (true, none)
  | some network ↦ ok (false, some (normalize_network py network))
]

-- `verification.observed`
abbrev observed_of : Option (Option Record) → Option Record
observed_of none = none
observed_of (some o) = o

unfoldable pub deleted_reply : (id : Json) (name : Json) → Bool → Option (Option Record) → Reply
deleted_reply id name true o = success (("name", name) ∷ [])
deleted_reply id name false o = accepted_unverified (("network_id", id) ∷ []) (observed_of o)

-- From the controller's answer on; the name stands for the message that quotes it.
unfoldable pub deleted :
    Python → Controller → (id : Json) (name : Json) → Result CallError Record → Reply
unfolding deleted_reply
deleted py c id name (err connection_error) = delivery_unknown false
deleted py c id name (err other_error) = refused rejected
deleted py c id name (ok answer) =
    let v = verification c (evaluate_gone py id) in deleted_reply id name v.matched v.observed

unfoldable pub prepare_delete :
    Python → Controller → (name : String) (confirm : Bool) → Result Refusal (Record × Json)
prepare_delete py c name confirm = do
  raise_if (not confirm) unconfirmed
  raise_if (str_eq (py.strip name) "") blank_name
  resolve py c name

-- network.get("name", name)
abbrev pub shown_name : (name : String) → Record → Json
shown_name name network = elim (get_item "name" network) [ none ↦ text name | some v ↦ v ]

unfoldable pub delete_network : Python → Controller → (name : String) (confirm : Bool) → Run
unfolding deleted prepare_delete dispatch
delete_network py c name confirm =
    dispatch c (prepare_delete py c name confirm) (λ f. deletes f.1)
      (λ f. deleted py c f.1 (shown_name name f.0))

deleted_reply-Answered :
    (id name : Json) (matched : Bool) (o : Option (Option Record))
    → Answered (deleted_reply id name matched o)
unfolding deleted_reply
deleted_reply-Answered id name true o = succeeds (("name", name) ∷ [])
deleted_reply-Answered id name false o = unsettled (("network_id", id) ∷ []) (observed_of o)

pub deleted-Answered :
    (py : Python) (c : Controller) (id name : Json) (answer : Record)
    → Answered (deleted py c id name (ok answer))
unfolding deleted
deleted-Answered py c id name answer =
    let v = verification c (evaluate_gone py id) in
    deleted_reply-Answered id name v.matched v.observed
