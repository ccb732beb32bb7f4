-- ===== src/Http/Cache.antt =====
-- clients/base.py: the read cache of `AppContext` and what `request` does to it before it waits
-- for the controller, and after.
pub mod Effects
use unifi_mcp.Base.{
  ℕ, ◌+◌, ◌≤◌, String, ◌≡◌, refl, Bool, true, false, ◌&&◌, ◌||◌, not, Option, none, some, List, [],
  ◌∷◌, All, arith, str_eq, ◌==◌, if◌then◌else◌, Result, ok, err, eq_iff, leb,
}
use unifi_mcp.Base.Json.{Json}
use unifi_mcp.Base.Table.{delete_where, select_where}
use unifi_mcp.Exceptions.{Raised}

-- The cache key, `(base_url, device_identity, endpoint, kwargs)`, stands as one text.
abbrev pub Entries : Type 0
Entries = List (String × Json)

-- The fields of `AppContext` that `request` reads and writes.
pub record AppContext : Type 0 where
  pub cache : Entries
  pub cache_generation : ℕ

unfoldable pub lookup : String → Entries → Option Json
lookup k [] = none
lookup k ((j, v) ∷ m) = if str_eq j k then some v else lookup k m

-- self.ctx.cache[key] = value
unfoldable pub put : String → Json → Entries → Entries
unfolding delete_where
put k v m = (k, v) ∷ delete_where (λ e. str_eq e.0 k) m

-- One call of `request`: is the method GET, was `_no_cache` given, and the key.
pub record Call : Type 0 where
  pub cacheable : Bool
  pub no_cache : Bool
  pub key : String

-- `self.ctx.cache_generation += 1; self.ctx.cache.clear()`
unfoldable pub invalidate : AppContext → AppContext
invalidate ctx = record { cache = []; cache_generation = ctx.cache_generation + 1 }

-- Up to the first `await`: a value from the cache, or the context that the call goes on with;
-- `request_generation` is that context's generation.
unfoldable pub begin : AppContext → Call → AppContext × Option Json
unfolding invalidate lookup
begin ctx c =
    if c.cacheable && not c.no_cache then (ctx, lookup c.key ctx.cache) else (invalidate ctx, none)

-- The `finally` block; the flag is `fresh_finalized`.
unfoldable pub finalize : AppContext → Call → ℕ → AppContext × Bool
unfolding invalidate
finalize ctx c request_generation =
    if not c.cacheable
    then (invalidate ctx, false)
    else if c.no_cache && ctx.cache_generation == request_generation
    then (invalidate ctx, true)
    else (ctx, false)

-- The write after the `finally` block.
unfoldable pub store_parsed : AppContext → Call → ℕ → Bool → Json → AppContext
unfolding put
store_parsed ctx c request_generation fresh_finalized parsed =
    if c.cacheable
      && ((c.no_cache && fresh_finalized)
          || (not c.no_cache && ctx.cache_generation == request_generation))
    then record ctx { cache = put c.key parsed ctx.cache }
    else ctx

-- From the outcome of the exchange to the end of the call.
unfoldable pub finish : AppContext → Call → ℕ → Result Raised Json → AppContext
unfolding finalize store_parsed
finish ctx c request_generation r =
    let (ctx', fresh_finalized) = finalize ctx c request_generation in
    elim r [
      | ok parsed ↦ store_parsed ctx' c request_generation fresh_finalized parsed
      | err e ↦ ctx'
    ]
