-- ===== src/Http/Coherence/Invariant.antt =====
-- The invariant of calls in flight: without a mutation on its way, the cache is current.
use unifi_mcp.Base.{
  ℕ, ◌+◌, ◌≤◌, ◌≡◌, true, false, Option, none, some, [], arith, Result, ok, err, inl, inr,
  Bool-cases, All-map,
}
use unifi_mcp.Base.Json.{Json}
use unifi_mcp.Base.Table.{All-select_where}
use unifi_mcp.Exceptions.{Raised}
use unifi_mcp.Http.Cache.{AppContext, Call, invalidate}
use unifi_mcp.Http.Cache.Effects.{
  Current, Current-put, begin_cases, finish_mutation, finish_read, finish_failed,
}
use unifi_mcp.Http.Coherence.{
  Flight, System, update, started, answer, finished, Step, start, reads, mutates, returns, confirms,
  fails, evicts, Reach, here, next, Quiet, Inv,
}

module _ {s : System} (inv : Inv s) where
  -- The invariant survives a cleared cache with a fresh generation, whatever becomes of slot `i`.
  invalidated-Inv :
      (i : ℕ) (slot : Option Flight)
      → ((f : Flight) → slot ≡ some f → f.request_generation ≡ s.ctx.cache_generation + 1)
      → ((f : Flight) → slot ≡ some f → f.answered ≡ none)
      → Inv (record s { ctx = invalidate s.ctx; flights = update s.flights i slot })
  unfolding invalidate
  invalidated-Inv i slot now unanswered = record {
    past = λ j f e. ground (arith, inv.past j f, now f);
    cached = λ q. tt;
    coming = λ q j f v e g a. ground (arith, inv.past j f, now f, unanswered f);
  }

  -- With a read gone from slot `i`, or one put there, no more is quiet than before.
  Quiet-update :
      (i : ℕ) (slot : Option Flight)
      → ((f : Flight) → s.flights i ≡ some f → f.call.cacheable ≡ true)
      → Quiet (record s { flights = update s.flights i slot })
      → Quiet s
  Quiet-update i slot read q j f e = ground (arith, read f, q j f)

  -- A read that leaves slot `i`, with a context that is no older.
  left-Inv :
      (i : ℕ) (ctx : AppContext)
      → ((f : Flight) → s.flights i ≡ some f → f.call.cacheable ≡ true)
      → s.ctx.cache_generation ≤ ctx.cache_generation
      → (Quiet s → Current s.server ctx.cache)
      → Inv (record s { ctx = ctx; flights = update s.flights i none })
  left-Inv i ctx read newer current = record {
    past = λ j f e. ground (arith, inv.past j f);
    cached = λ q. current (Quiet-update i none read q);
    coming = λ q j f v e g a.
        ground (arith, inv.past j f, inv.coming (Quiet-update i none read q) j f v);
  }

  read-Inv :
      (i : ℕ) (f : Flight) (v : Json)
      → s.flights i ≡ some f
      → f.answered ≡ some v
      → f.call.cacheable ≡ true
      → Inv (finished s i f (ok v))
  read-Inv i f v e a c = elim (finish_read s.ctx f.call f.request_generation v c) [
    | inl same ↦ rw same (left-Inv i s.ctx only (omega arith) inv.cached)
    | inr (inl (now, stored)) ↦ rw stored (
        left-Inv i _ only (omega arith) λ q.
          Current-put s.server f.call.key v s.ctx.cache (inv.coming q i f v e now a) (inv.cached q))
    | inr (inr (now, stored)) ↦ rw stored (
        left-Inv i _ only (omega arith)
          λ q. Current-put s.server f.call.key v [] (inv.coming q i f v e now a) tt)
  ]
    where
      only : (g : Flight) → s.flights i ≡ some g → g.call.cacheable ≡ true
      only g e' = ground arith

  mutation-Inv :
      (i : ℕ) (f : Flight) (r : Result Raised Json)
      → f.call.cacheable ≡ false
      → Inv (finished s i f r)
  mutation-Inv i f r c =
      rw (finish_mutation s.ctx f.call f.request_generation r c)
        (invalidated-Inv i none (λ g e. cc) (λ g e. cc))

  failed-Inv :
      (i : ℕ) (f : Flight) (e : Raised)
      → s.flights i ≡ some f
      → f.call.cacheable ≡ true
      → Inv (finished s i f (err e))
  failed-Inv i f x e c = elim (finish_failed s.ctx f.call f.request_generation x) [
    | inl same ↦ rw same (left-Inv i s.ctx only (omega arith) inv.cached)
    | inr cleared ↦ rw cleared (invalidated-Inv i none (λ g e. cc) (λ g e. cc))
  ]
    where
      only : (g : Flight) → s.flights i ≡ some g → g.call.cacheable ≡ true
      only g e' = ground arith

  started-Inv : (i : ℕ) (c : Call) → s.flights i ≡ none → Inv (started s i c)
  unfolding invalidate
  started-Inv i c free = elim (begin_cases s.ctx c) [
    | inl same ↦ rw same (record {
      past = λ j f e. ground (arith, inv.past j f);
      cached = λ q. inv.cached (Quiet-update i _ (λ f e. cc) q);
      coming = λ q j f v e g a. ground (arith, inv.coming (Quiet-update i _ (λ f e'. cc) q) j f v);
    })
    | inr cleared ↦ rw cleared (invalidated-Inv i _ (λ f e. ground arith) (λ f e. ground arith))
  ]

  answer-Inv : (i : ℕ) (f : Flight) → s.flights i ≡ some f → Inv (answer s i f)
  answer-Inv i f e = record {
    past = λ j g e'. ground (arith, inv.past j g, inv.past i f);
    cached = λ q. inv.cached (quiet q);
    coming = λ q j g v e' n a. ground (arith, inv.coming (quiet q) j g v);
  }
    where
      quiet : Quiet (answer s i f) → Quiet s
      quiet q j g e' =
          ground (arith, q j g, q i (record f { answered = some (s.server f.call.key) }))

-- Each event keeps the invariant.
pub Step-Inv : {s t : System} → Step s t → Inv s → Inv t
Step-Inv (start s i c free miss) inv = started-Inv inv i c free
Step-Inv (reads s i f e) inv = answer-Inv inv i f e
Step-Inv (mutates s i f server e c) inv = record {
  past = inv.past;
  cached = λ q. cc (q i f e);
  coming = λ q. cc (q i f e);
}
Step-Inv (returns s i f v e a) inv = elim (Bool-cases f.call.cacheable) [
  | inl read ↦ read-Inv inv i f v e a read
  | inr mutation ↦ mutation-Inv inv i f (ok v) mutation
]
Step-Inv (confirms s i f v e c) inv = mutation-Inv inv i f (ok v) c
Step-Inv (fails s i f x e) inv = elim (Bool-cases f.call.cacheable) [
  | inl read ↦ failed-Inv inv i f x e read
  | inr mutation ↦ mutation-Inv inv i f (err x) mutation
]
Step-Inv (evicts s keep) inv = record {
  past = inv.past;
  cached = λ q. All-map _ _ (λ x h. h.1) _ (All-select_where _ keep s.ctx.cache (inv.cached q));
  coming = inv.coming;
}

pub Reach-Inv : {s t : System} → Inv s → Reach s t → Inv t
Reach-Inv inv here = inv
Reach-Inv inv (next r st) = Step-Inv st (Reach-Inv inv r)
