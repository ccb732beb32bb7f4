-- ===== src/NetworkClient/Trace.antt =====
-- clients/network.py: requests of which none, or at most one, changes the controller.
use unifi_mcp.Base.{
  String, ◌≡◌, refl, Bool, true, false, List, ◌∷◌, Bool-cases, inl, inr, if◌then◌else◌, Result, ok,
  err,
}
use unifi_mcp.Base.Json.{Json}
use unifi_mcp.Exceptions.{Raised, unifi, delivery_unknown_error, literal}
use unifi_mcp.NetworkClient.Monad.{
  raise, of_result, Sent, ◌>>=◌, State, Controller, Action, request,
}
use unifi_mcp.NetworkClient.Site.{get_fresh, put}
use unifi_mcp.NetworkClient.Ports.{or_unknown, is_connection}
use unifi_mcp.NetworkClient.Changes.{is_get}

-- From what was sent before to what is sent now, there are GETs only.
pub data Read (before : List Sent) : List Sent → Type 0 where
  nothing : Read before before
  reads :
      (s : Sent) (sent : List Sent)
      → is_get s.method ≡ true
      → Read before sent
      → Read before (s ∷ sent)

-- There are GETs, with at most one other request among them.
pub data AtMostOne (before now : List Sent) : Type 0 where
  reads_only : Read before now → AtMostOne before now
  one :
      (s : Sent) (sent : List Sent)
      → Read before sent
      → is_get s.method ≡ false
      → Read (s ∷ sent) now
      → AtMostOne before now

abbrev pub ReadsOnly : {A : Type 0} → Action A → Type 0
ReadsOnly m = (c : Controller) (st : State) → Read st.sent (m c st).1.sent

abbrev pub Single : {A : Type 0} → Action A → Type 0
Single m = (c : Controller) (st : State) → AtMostOne st.sent (m c st).1.sent

pub Read-trans : {a b c : List Sent} → Read a b → Read b c → Read a c
Read-trans first nothing = first
Read-trans first (reads s sent is more) = reads s sent is (Read-trans first more)

module _ {A B : Type 0} where
  pub bind-ReadsOnly :
      (m : Action A) (f : A → Action B)
      → ReadsOnly m
      → ((a : A) → ReadsOnly (f a))
      → ReadsOnly (m >>= f)
  bind-ReadsOnly m f first rest c st = by_result (m c st) (first c st)
    where
      by_result :
          (r : Result Raised A × State)
          → Read st.sent r.1.sent
          → Read st.sent
              (elim r.0 as (λ _. Result Raised B × State) [
                | ok a ↦ f a c r.1
                | err e ↦ (err e, r.1)
              ]).1.sent
      by_result (ok a, st') so_far = Read-trans so_far (rest a c st')
      by_result (err e, st') so_far = so_far

  pub reads-Single :
      (m : Action A) (f : A → Action B) → ReadsOnly m → ((a : A) → Single (f a)) → Single (m >>= f)
  reads-Single m f first rest c st = by_result (m c st) (first c st)
    where
      after :
          {now : List Sent} (b : List Sent)
          → Read st.sent b
          → AtMostOne b now
          → AtMostOne st.sent now
      after b so_far (reads_only more) = reads_only (Read-trans so_far more)
      after b so_far (one s sent before is more) = one s sent (Read-trans so_far before) is more

      by_result :
          (r : Result Raised A × State)
          → Read st.sent r.1.sent
          → AtMostOne st.sent
              (elim r.0 as (λ _. Result Raised B × State) [
                | ok a ↦ f a c r.1
                | err e ↦ (err e, r.1)
              ]).1.sent
      by_result (ok a, st') so_far = after st'.sent so_far (rest a c st')
      by_result (err e, st') so_far = reads_only so_far

  pub Single-reads :
      (m : Action A) (f : A → Action B) → Single m → ((a : A) → ReadsOnly (f a)) → Single (m >>= f)
  Single-reads m f first rest c st = by_result (m c st) (first c st)
    where
      then_reads : (b now : List Sent) → AtMostOne st.sent b → Read b now → AtMostOne st.sent now
      then_reads b now (reads_only before) more = reads_only (Read-trans before more)
      then_reads b now (one s sent before is after) more =
          one s sent before is (Read-trans after more)

      by_result :
          (r : Result Raised A × State)
          → AtMostOne st.sent r.1.sent
          → AtMostOne st.sent
              (elim r.0 as (λ _. Result Raised B × State) [
                | ok a ↦ f a c r.1
                | err e ↦ (err e, r.1)
              ]).1.sent
      by_result (ok a, st') so_far = then_reads st'.sent _ so_far (rest a c st')
      by_result (err e, st') so_far = so_far

pub request-ReadsOnly : (s : Sent) → is_get s.method ≡ true → ReadsOnly (request s)
request-ReadsOnly s is c st = reads s st.sent is nothing

pub request-Single : (s : Sent) → is_get s.method ≡ false → Single (request s)
request-Single s is c st = one s st.sent nothing is nothing

pub still : {A : Type 0} (r : Result Raised A) → ReadsOnly (of_result r)
still r c st = nothing

pub get-ReadsOnly : (no_cache : Bool) (endpoint : String) → ReadsOnly (get_fresh no_cache endpoint)
get-ReadsOnly no_cache endpoint = request-ReadsOnly _ refl

pub put-Single : (endpoint : String) (payload : Json) → Single (put endpoint payload)
put-Single endpoint payload = request-Single _ refl

pub if-ReadsOnly :
    {A : Type 0} (test : Bool) (m k : Action A)
    → ReadsOnly m
    → ReadsOnly k
    → ReadsOnly (if test then m else k)
if-ReadsOnly true m k yes_m yes_k = yes_m
if-ReadsOnly false m k yes_m yes_k = yes_k

pub else-ReadsOnly :
    {A : Type 0} (test : Bool) (m k : Action A)
    → test ≡ false
    → ReadsOnly k
    → ReadsOnly (if test then m else k)
else-ReadsOnly true m k off yes_k = absurd (cc off)
else-ReadsOnly false m k off yes_k = yes_k

pub refuses : (e : Raised) → Single {A = Json} (raise e)
refuses e c st = reads_only nothing

pub if-Single :
    (test : Bool) (m k : Action Json) → Single m → Single k → Single (if test then m else k)
if-Single true m k yes_m yes_k = yes_m
if-Single false m k yes_m yes_k = yes_k

pub or_unknown-Single : (m : Action Json) → Single m → Single (or_unknown m)
unfolding or_unknown
or_unknown-Single m single c st = by_result (m c st) (single c st)
  where
    by_result :
        (r : Result Raised Json × State)
        → AtMostOne st.sent r.1.sent
        → AtMostOne st.sent
            (elim r.0 as (λ _. Result Raised Json × State) [
              | ok a ↦ (ok a, r.1)
              | err e ↦
                  if is_connection e
                  then (err (unifi (delivery_unknown_error (literal "Switch port update"))), r.1)
                  else (err e, r.1)
            ]).1.sent
    by_result (ok a, st') so_far = so_far
    by_result (err e, st') so_far = elim (Bool-cases (is_connection e)) [
      | inl lost ↦ rw lost so_far
      | inr other ↦ rw other so_far
    ]
