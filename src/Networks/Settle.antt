-- ===== src/Networks/Settle.antt =====
-- tools/network/sites.py: what the tools that change a network share: the controller's answers, the
-- replies, and the verification that follows an accepted mutation.
pub mod Answers
use unifi_mcp.Base.{
  ℕ, String, Bool, true, false, not, Option, none, some, List, [], ◌∷◌, str_eq, Result, ok, err,
  ◌>>=◌, ◌>>◌,
}
use unifi_mcp.Base.Json.{Json, text, end, equals}
use unifi_mcp.Base.Table.{find_where}
use unifi_mcp.Verification.{VerificationResult, verify_eventually}
use unifi_mcp.Verification.Compare.{Record, Python, requested_observation}
use unifi_mcp.Networks.{Refusal, network_id}

-- text is not None, and `text` as a condition
abbrev pub given : {A : Type 0} → Option A → Bool
given none = false
given (some a) = true

abbrev pub filled : Option String → Bool
filled none = false
filled (some s) = not (str_eq s "")

-- The entry of a key, if there is a value for it.
abbrev pub entry : {A : Type 0} → String → (A → Json) → Option A → Record
entry key value none = []
entry key value (some a) = (key, value a) ∷ []

-- A request of the client that changes a network.
pub data Request : Type 0 where
  posts : Record → Request
  puts : (id : Json) → Record → Request
  deletes : (id : Json) → Request

-- UniFiConnectionError, or any other exception
pub data CallError : Type 0 where
  connection_error other_error : CallError

-- The settings, and what the controller answers: to the read before the mutation, to the mutation,
-- and to each read of the verification.
pub record Controller : Type 0 where
  pub mutation_verify_attempts : ℕ
  pub mutation_verify_initial_delay : ℕ
  pub mutation_verify_max_delay : ℕ
  pub get_networks : Result String (List Record)
  pub send : Request → Result CallError Record
  pub get_networks_fresh : ℕ → Result String (List Record)

-- `delivery_unknown` with its `duplicate_risk`; `accepted_unverified` with what was observed.
pub data Reply : Type 0 where
  refused : Refusal → Reply
  delivery_unknown : (duplicate_risk : Bool) → Reply
  accepted_unverified : (requested : Record) → (observed : Option Record) → Reply
  success : Record → Reply

-- A call of a tool: the mutations that it sent, and its reply.
pub record Run : Type 0 where
  pub sent : List Request
  pub reply : Reply

-- The course of a tool: it is refused by a check, or sends its request once and answers by what the
-- controller does.
unfoldable pub dispatch :
    {A : Type 0}
    → Controller
    → Result Refusal A
    → (request : A → Request) (answer : A → Result CallError Record → Reply) → Run
dispatch c (err r) request answer = record { sent = []; reply = refused r }
dispatch c (ok a) request answer = record {
  sent = request a ∷ [];
  reply = answer a (c.send (request a));
}

-- What `evaluate` observes, with its `observed_record`.
pub record Observed : Type 0 where
  pub observed : Option Record
  pub observed_record : Option Record

abbrev pub has_network_id : Json → Record → Bool
has_network_id id network = elim (network_id network) [ none ↦ false | some j ↦ equals j id ]

-- The `evaluate` of `create_network` and `update_network`
unfoldable pub evaluate :
    Python → (id : Json) (data' : Record) → List Record → Result String (Bool × Observed)
evaluate py id data' networks =
    let found = find_where (has_network_id id) networks in
    let (matched, observed) = requested_observation py found data' in
    ok (matched, record { observed = observed; observed_record = found })

-- The call of `verify_eventually`
unfoldable pub verification :
    {O : Type 0} → Controller → (List Record → Result String (Bool × O)) → VerificationResult O
verification c evaluate' =
    verify_eventually c.get_networks_fresh evaluate' c.mutation_verify_attempts
      c.mutation_verify_initial_delay c.mutation_verify_max_delay

unfoldable pub unverified : Record → Option Observed → Reply
unverified data' none = accepted_unverified data' none
unverified data' (some o) = accepted_unverified data' o.observed

unfoldable pub summary :
    (shown : Record → Record) (data' : Record) → Observed → Option Record → Reply
unfolding unverified
summary shown data' o none = unverified data' (some o)
summary shown data' o (some r) = success (shown r)

-- From the verification to the end of the tool; `shown` makes the summary of the record.
unfoldable pub settle_read :
    (shown : Record → Record) (data' : Record) → Bool → Option Observed → Reply
unfolding unverified summary
settle_read shown data' false o = unverified data' o
settle_read shown data' true none = unverified data' none
settle_read shown data' true (some o) = summary shown data' o o.observed_record

unfoldable pub settle :
    Python → Controller → (shown : Record → Record) → (id : Json) (data' : Record) → Reply
unfolding verification evaluate settle_read
settle py c shown id data' =
    let v = verification c (evaluate py id data') in settle_read shown data' v.matched v.observed
