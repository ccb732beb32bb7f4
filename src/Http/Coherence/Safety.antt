-- ===== src/Http/Coherence/Safety.antt =====
-- What the read cache guarantees to the tools, in every interleaving of calls.
use unifi_mcp.Base.{
  ℕ, ◌+◌, ◌<◌, String, ◌≡◌, true, false, none, some, [], arith, Result, ok, err, eq_iff,
}
use unifi_mcp.Base.Json.{Json}
use unifi_mcp.Exceptions.{Raised}
use unifi_mcp.Http.Cache.{AppContext, Call, lookup, begin, finish}
use unifi_mcp.Http.Cache.Effects.{Current-lookup}
use unifi_mcp.Http.Coherence.{System, Reach, Quiet, Inv}
use unifi_mcp.Http.Coherence.Invariant.{Reach-Inv}

-- The state at startup: nothing cached, no call in flight.
abbrev pub boot : (String → Json) → ℕ → System
boot server generation = record {
  ctx = record { cache = []; cache_generation = generation };
  server = server;
  flights = λ i. none;
}

boot-Inv : (server : String → Json) (generation : ℕ) → Inv (boot server generation)
boot-Inv server generation = record {
  past = λ i f e. cc;
  cached = λ q. tt;
  coming = λ q i f v e g a. cc;
}

-- From startup, through any interleaving of reads, fresh reads, mutations, errors and evictions:
-- when no mutation is on its way, a value that the cache gives for a key is the value that the
-- controller now answers for that key.
pub lookup_current :
    (server : String → Json) (generation : ℕ) (s : System)
    → Reach (boot server generation) s
    → Quiet s
    → (k : String) (v : Json) → lookup k s.ctx.cache ≡ some v
    → s.server k ≡ v
lookup_current server generation s r q k v e =
    Current-lookup s.server k v s.ctx.cache ((Reach-Inv (boot-Inv server generation) r).cached q) e

-- A call of `request` that begins after startup, in any reachable state with no mutation on its
-- way, and is served without contacting the controller, returns what the controller would answer.
pub begin_hit_current :
    (server : String → Json) (generation : ℕ) (s : System)
    → Reach (boot server generation) s
    → Quiet s
    → (c : Call) (v : Json) → (begin s.ctx c).1 ≡ some v
    → (s.server c.key ≡ v)
      × (c.cacheable ≡ true)
      × (c.no_cache ≡ false)
      × ((begin s.ctx c).0 ≡ s.ctx)
unfolding begin
begin_hit_current server generation s r q c v e =
    ground (arith, lookup_current server generation s r q c.key v)

-- A read of the cache that started under an older generation, which every mutation and every
-- fresh read advances, leaves the context as it finds it: it neither stores nor drops anything.
pub finish_outdated :
    (ctx : AppContext) (c : Call) (g : ℕ) (r : Result Raised Json)
    → c.cacheable ≡ true
    → g < ctx.cache_generation
    → finish ctx c g r ≡ ctx
unfolding finish
finish_outdated ctx c g (ok v) read old = ground arith
finish_outdated ctx c g (err e) read old = ground arith

-- A mutation, whether it returns or raises, advances the generation and leaves the cache empty,
-- both when it begins and when it ends.
pub mutation_invalidates :
    (ctx : AppContext) (c : Call) (g : ℕ) (r : Result Raised Json)
    → c.cacheable ≡ false
    → ((begin ctx c).0.cache ≡ [])
      × ((begin ctx c).0.cache_generation ≡ ctx.cache_generation + 1)
      × ((finish ctx c g r).cache ≡ [])
      × ((finish ctx c g r).cache_generation ≡ ctx.cache_generation + 1)
unfolding begin finish
mutation_invalidates ctx c g (ok v) h = ground arith
mutation_invalidates ctx c g (err e) h = ground arith

-- A fresh read that nothing overtook is what the next ordinary read of its key gets.
pub fresh_read_cached :
    (ctx : AppContext) (k : String) (v : Json)
    → let fresh : Call = record { cacheable = true; no_cache = true; key = k } in
      let started_ctx = (begin ctx fresh).0 in
      (begin
        (finish started_ctx fresh started_ctx.cache_generation (ok v))
        (record { cacheable = true; no_cache = false; key = k })).1
      ≡ some v
unfolding begin finish
fresh_read_cached ctx k v = ground (arith, eq_iff k k)
