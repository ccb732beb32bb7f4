-- ===== src/Networks/Settle/Answers.antt =====
-- tools/network/sites.py: what the verification after a mutation lets its reply say.
use unifi_mcp.Base.{
  ℕ, ◌<◌, String, ◌≡◌, refl, sym, ap, subst, ◌∙◌, ◌≢◌, Bool, true, false, Option, none, some, List,
  Result, ok, err, bind-ok, All,
}
use unifi_mcp.Base.Json.{Json}
use unifi_mcp.Base.Table.{find_where}
use unifi_mcp.Verification.{read}
use unifi_mcp.Verification.Bounded.{match, exhausted, verify_eventually-Verified}
use unifi_mcp.Verification.Compare.{
  Record, Python, compared, field_matches, requested_observation-All,
}
use unifi_mcp.Networks.Settle.{
  Controller, Reply, accepted_unverified, success, Observed, has_network_id, evaluate, verification,
  unverified, summary, settle_read, settle,
}

-- A read of the verification shows the network `id`, the record `r`, with each compared field of
-- `data'` at the requested value, after `n` reads that did not.
pub record Confirmed (py : Python) (c : Controller) (id : Json) (data' r : Record) : Type 0 where
  pub n : ℕ
  pub networks : List Record
  pub within_attempts : n < c.mutation_verify_attempts
  pub answered : c.get_networks_fresh n ≡ ok networks
  pub found : find_where (has_network_id id) networks ≡ some r
  pub matches : All (λ f. field_matches py r f ≡ true) (compared data')

unverified-fails :
    (data' : Record) (o : Option Observed) {s : Record} → unverified data' o ≢ success s
unfolding unverified
unverified-fails data' none h = cc
unverified-fails data' (some o) h = cc

settle_read-success :
    (shown : Record → Record) (data' : Record) (o : Observed) {s : Record}
    → settle_read shown data' true (some o) ≡ success s
    → (r : Record) × (o.observed_record ≡ some r) × (s ≡ shown r)
unfolding settle_read summary unverified
settle_read-success shown data' o {s} h = by_record o.observed_record refl
  where
    by_record :
        (found : Option Record)
        → o.observed_record ≡ found
        → (r : Record) × (o.observed_record ≡ some r) × (s ≡ shown r)
    by_record none eq =
        let h' = subst (λ x. summary shown data' o x ≡ success s) eq h in
        absurd (unverified-fails data' (some o) h')
    by_record (some r) eq =
        let h' = subst (λ x. summary shown data' o x ≡ success s) eq h in
        let same : shown r ≡ s = cc h' in (r, eq, sym same)

record_of : Result String (Bool × Observed) → Option Record
record_of (err name) = none
record_of (ok (matched, o)) = o.observed_record

matched_of : Result String (Bool × Observed) → Bool
matched_of (err name) = false
matched_of (ok (matched, o)) = matched

confirmed :
    (py : Python) (c : Controller) (id : Json) (data' : Record) (n : ℕ) (o : Observed) (r : Record)
    → n < c.mutation_verify_attempts
    → read (c.get_networks_fresh n) (evaluate py id data') ≡ ok (true, o)
    → o.observed_record ≡ some r
    → Confirmed py c id data' r
unfolding evaluate read record_of matched_of
confirmed py c id data' n o r lt seen found =
    let (networks, answered, same) = bind-ok (c.get_networks_fresh n) (evaluate py id data') seen in
    let shows : find_where (has_network_id id) networks ≡ o.observed_record = ap record_of same in
    let (r', found', matches) =
      requested_observation-All py (find_where (has_network_id id) networks) data'
        (ap matched_of same) in
    let same_record : r' ≡ r = cc (found', shows, found) in
    record {
      n = n;
      networks = networks;
      within_attempts = lt;
      answered = answered;
      found = shows ∙ found;
      matches =
          subst (λ x. All (λ f. field_matches py x f ≡ true) (compared data')) same_record matches;
    }

-- lemma
pub settle-Confirmed :
    (py : Python) (c : Controller) (shown : Record → Record) (id : Json) (data' : Record)
    {s : Record}
    → settle py c shown id data' ≡ success s
    → (r : Record) × Confirmed py c id data' r × (s ≡ shown r)
unfolding settle verification settle_read
settle-Confirmed py c shown id data' {s} h =
    let v = verification c (evaluate py id data') in
    elim (verify_eventually-Verified c.get_networks_fresh (evaluate py id data')
      c.mutation_verify_initial_delay c.mutation_verify_max_delay c.mutation_verify_attempts).0 [
        | match n x last lt seen matched observed error reads ↦
            let h1 = subst (λ m. settle_read shown data' m v.observed ≡ success s) matched h in
            let h2 = subst (λ o. settle_read shown data' true o ≡ success s) observed h1 in
            let (r, found, same) = settle_read-success shown data' x h2 in
            (r, confirmed py c id data' n x r lt seen found, same)
        | exhausted last matched reads ↦
            let h1 = subst (λ m. settle_read shown data' m v.observed ≡ success s) matched h in
            absurd (unverified-fails data' v.observed h1)
      ]

-- The reply to a mutation that the controller accepted: a success, or `accepted_unverified`.
pub data Answered : Reply → Type 0 where
  succeeds : (summary : Record) → Answered (success summary)
  unsettled :
      (requested : Record) (observed : Option Record)
      → Answered (accepted_unverified requested observed)

unverified-Answered : (data' : Record) (o : Option Observed) → Answered (unverified data' o)
unfolding unverified
unverified-Answered data' none = unsettled data' none
unverified-Answered data' (some o) = unsettled data' o.observed

summary-Answered :
    (shown : Record → Record) (data' : Record) (o : Observed) (r : Option Record)
    → Answered (summary shown data' o r)
unfolding summary
summary-Answered shown data' o none = unverified-Answered data' (some o)
summary-Answered shown data' o (some r) = succeeds (shown r)

settle_read-Answered :
    (shown : Record → Record) (data' : Record) (matched : Bool) (o : Option Observed)
    → Answered (settle_read shown data' matched o)
unfolding settle_read
settle_read-Answered shown data' false o = unverified-Answered data' o
settle_read-Answered shown data' true none = unverified-Answered data' none
settle_read-Answered shown data' true (some o) = summary-Answered shown data' o o.observed_record

pub settle-Answered :
    (py : Python) (c : Controller) (shown : Record → Record) (id : Json) (data' : Record)
    → Answered (settle py c shown id data')
unfolding settle
settle-Answered py c shown id data' =
    let v = verification c (evaluate py id data') in
    settle_read-Answered shown data' v.matched v.observed
