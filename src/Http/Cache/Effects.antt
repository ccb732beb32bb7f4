-- ===== src/Http/Cache/Effects.antt =====
-- What one call of `request` can do to the cache of `AppContext`.
use unifi_mcp.Base.{
  ℕ, ◌+◌, String, ◌≡◌, ◌⊎◌, Bool, true, false, some, [], ◌∷◌, All, arith, Result, ok, err, eq_iff,
}
use unifi_mcp.Base.Json.{Json}
use unifi_mcp.Base.Table.{delete_where}
use unifi_mcp.Exceptions.{Raised}
use unifi_mcp.Http.Cache.{AppContext, Call, Entries, lookup, put, begin, finish, invalidate}

-- Every entry is what `server` answers to its key.
abbrev pub Current : (String → Json) → Entries → Type 0
Current server m = All (λ e. server e.0 ≡ e.1) m

module _ (server : String → Json) where
  pub Current-lookup :
      (k : String) (v : Json) (m : Entries) → Current server m → lookup k m ≡ some v → server k ≡ v
  unfolding lookup
  Current-lookup k v [] h e = cc
  Current-lookup k v ((j, w) ∷ m) h e = ground (arith, eq_iff j k, h.0, Current-lookup k v m h.1)

  Current-delete_where :
      (p : String × Json → Bool) (m : Entries)
      → Current server m
      → Current server (delete_where p m)
  unfolding delete_where
  Current-delete_where p [] h = tt
  Current-delete_where p (e ∷ m) h = ground (arith, h, Current-delete_where p m h.1)

  pub Current-put :
      (k : String) (v : Json) (m : Entries)
      → server k ≡ v
      → Current server m
      → Current server (put k v m)
  unfolding put
  Current-put k v m e h = (e, Current-delete_where _ m h)

pub begin_cases :
    (ctx : AppContext) (c : Call) → ((begin ctx c).0 ≡ ctx) ⊎ ((begin ctx c).0 ≡ invalidate ctx)
unfolding begin
begin_cases ctx c = ground arith

-- A mutation, returned or failed, leaves the cache empty and the generation advanced.
pub finish_mutation :
    (ctx : AppContext) (c : Call) (g : ℕ) (r : Result Raised Json)
    → c.cacheable ≡ false
    → finish ctx c g r ≡ invalidate ctx
unfolding finish
finish_mutation ctx c g (ok v) h = ground arith
finish_mutation ctx c g (err e) h = ground arith

-- A failed read stores nothing.
pub finish_failed :
    (ctx : AppContext) (c : Call) (g : ℕ) (e : Raised)
    → (finish ctx c g (err e) ≡ ctx) ⊎ (finish ctx c g (err e) ≡ invalidate ctx)
unfolding finish
finish_failed ctx c g e = ground arith

-- A read stores its value only if the generation is still its own.
pub finish_read :
    (ctx : AppContext) (c : Call) (g : ℕ) (v : Json)
    → c.cacheable ≡ true
    → (finish ctx c g (ok v) ≡ ctx)
      ⊎ ((g ≡ ctx.cache_generation)
          × (finish ctx c g (ok v)
              ≡ record { cache = put c.key v ctx.cache; cache_generation = ctx.cache_generation }))
      ⊎ ((g ≡ ctx.cache_generation)
          × (finish ctx c g (ok v)
              ≡ record { cache = put c.key v []; cache_generation = ctx.cache_generation + 1 }))
unfolding finish invalidate
finish_read ctx c g v h = ground arith
