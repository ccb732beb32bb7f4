-- ===== src/Networks/Outcomes.antt =====
-- tools/network/sites.py: what the reply of `create_network`, `update_network` and `delete_network`
-- says of the request that they sent.
use unifi_mcp.Base.{
  String, ◌≡◌, refl, sym, ap, subst, ◌∙◌, Bool, true, false, [], ◌∷◌, Result, ok, err,
}
use unifi_mcp.Verification.Compare.{Record, Python}
use unifi_mcp.Networks.{Refusal, rejected, normalize_network}
use unifi_mcp.Networks.Settle.{
  Request, posts, puts, deletes, CallError, connection_error, other_error, Controller, Reply,
  refused, delivery_unknown, Run, dispatch,
}
use unifi_mcp.Networks.Settle.Answers.{Answered, settle-Answered}
use unifi_mcp.Networks.Create.{
  NewNetwork, check_create, create_data, created, created-Answered, create_network,
}
use unifi_mcp.Networks.Update.{Changes, prepare_update, update_data, updated, update_network}
use unifi_mcp.Networks.Delete.{
  prepare_delete, deleted, deleted-Answered, shown_name, delete_network,
}

-- A call that is stopped by a check sends nothing. One that passes them sends one request, and its
-- reply tells a lost connection, a rejection and an acceptance apart.
pub data Outcome {A : Type 0} (c : Controller) (prepared : Result Refusal A) (request : A → Request)
    (run : Run) : Type 0 where
  refuses :
      (r : Refusal)
      → prepared ≡ err r
      → run.sent ≡ []
      → run.reply ≡ refused r
      → Outcome c prepared request run
  loses :
      (a : A) (duplicate_risk : Bool)
      → prepared ≡ ok a
      → run.sent ≡ request a ∷ []
      → c.send (request a) ≡ err connection_error
      → run.reply ≡ delivery_unknown duplicate_risk
      → Outcome c prepared request run
  is_rejected :
      (a : A)
      → prepared ≡ ok a
      → run.sent ≡ request a ∷ []
      → c.send (request a) ≡ err other_error
      → run.reply ≡ refused rejected
      → Outcome c prepared request run
  accepts :
      (a : A) (network : Record)
      → prepared ≡ ok a
      → run.sent ≡ request a ∷ []
      → c.send (request a) ≡ ok network
      → Answered run.reply
      → Outcome c prepared request run

module _ {A : Type 0} (c : Controller) (request : A → Request)
    (answer : A → Result CallError Record → Reply) (duplicate_risk : Bool)
    (lost : (a : A) → answer a (err connection_error) ≡ delivery_unknown duplicate_risk)
    (refused' : (a : A) → answer a (err other_error) ≡ refused rejected)
    (accepted : (a : A) (network : Record) → Answered (answer a (ok network))) where
  dispatch-Outcome :
      (prepared : Result Refusal A)
      → Outcome c prepared request (dispatch c prepared request answer)
  unfolding dispatch
  dispatch-Outcome (err r) = refuses r refl refl refl
  dispatch-Outcome (ok a) = by_answer (c.send (request a)) refl
    where
      by_answer :
          (answered : Result CallError Record)
          → c.send (request a) ≡ answered
          → Outcome c (ok a) request (dispatch c (ok a) request answer)
      by_answer (err connection_error) h =
          loses a duplicate_risk refl refl h (ap (answer a) h ∙ lost a)
      by_answer (err other_error) h = is_rejected a refl refl h (ap (answer a) h ∙ refused' a)
      by_answer (ok network) h =
          accepts a network refl refl h
            (subst (λ x. Answered (answer a x)) (sym h) (accepted a network))

-- lemma
create_network-Outcome :
    (py : Python) (c : Controller) (a : NewNetwork)
    → Outcome c (check_create py a) (λ _. posts (create_data py a)) (create_network py c a)
unfolding create_network created
create_network-Outcome py c a =
    dispatch-Outcome c (λ _. posts (create_data py a)) (λ _. created py c (create_data py a)) true
      (λ _. refl) (λ _. refl) (λ _. created-Answered py c (create_data py a)) (check_create py a)

update_network-Outcome :
    (py : Python) (c : Controller) (a : Changes)
    → Outcome c (prepare_update py c a) (λ f. puts f.1 (update_data py a)) (update_network py c a)
unfolding update_network updated
update_network-Outcome py c a =
    dispatch-Outcome c (λ f. puts f.1 (update_data py a)) (λ f. updated py c f.1 (update_data py a))
      false (λ _. refl) (λ _. refl)
      (λ f _. settle-Answered py c (normalize_network py) f.1 (update_data py a))
      (prepare_update py c a)

delete_network-Outcome :
    (py : Python) (c : Controller) (name : String) (confirm : Bool)
    → Outcome c
        (prepare_delete py c name confirm)
        (λ f. deletes f.1)
        (delete_network py c name confirm)
unfolding delete_network deleted
delete_network-Outcome py c name confirm =
    dispatch-Outcome c (λ f. deletes f.1) (λ f. deleted py c f.1 (shown_name name f.0)) false
      (λ _. refl) (λ _. refl) (λ f network. deleted-Answered py c f.1 (shown_name name f.0) network)
      (prepare_delete py c name confirm)

-- A tool on networks that is stopped by a check or by the lookup, before any request, sends nothing
-- and returns that refusal; otherwise it sends exactly one request, for the network that it resolved.
-- The reply is `delivery_unknown` just when that request loses its connection, the rejection when it
-- fails otherwise, and a success or `accepted_unverified` when the controller accepts it.
pub networks-Outcome :
    (py : Python) (c : Controller) (new : NewNetwork) (changes : Changes) (name : String)
    (confirm : Bool)
    → Outcome c (check_create py new) (λ _. posts (create_data py new)) (create_network py c new)
      × Outcome c
          (prepare_update py c changes)
          (λ f. puts f.1 (update_data py changes))
          (update_network py c changes)
      × Outcome c
          (prepare_delete py c name confirm)
          (λ f. deletes f.1)
          (delete_network py c name confirm)
networks-Outcome py c new changes name confirm = (
  create_network-Outcome py c new,
  update_network-Outcome py c changes,
  delete_network-Outcome py c name confirm,
)
