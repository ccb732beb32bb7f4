-- ===== src/Http/Coherence.antt =====
-- Calls of `request` in flight together, on one event loop: a call runs alone up to its first
-- `await` and again from its last one, and the controller acts in between.
pub mod Invariant
pub mod Safety
use unifi_mcp.Base.{
  ℕ, zero, suc, ◌+◌, ◌≤◌, String, ◌≡◌, refl, Bool, true, false, ◌&&◌, ◌||◌, not, Option, none, some,
  List, [], ◌∷◌, All, arith, str_eq, ◌==◌, if◌then◌else◌, Result, ok, err, eq_iff, leb,
}
use unifi_mcp.Base.Json.{Json}
use unifi_mcp.Base.Table.{delete_where, select_where}
use unifi_mcp.Exceptions.{Raised}
use unifi_mcp.Http.Cache.Effects.{Current}
use unifi_mcp.Http.Cache.{
  AppContext, Call, Entries, lookup, put, begin, finish, finalize, store_parsed, invalidate,
}

-- A call that waits: what it remembers, and the controller's last answer to it, if one was given.
pub record Flight : Type 0 where
  pub call : Call
  pub request_generation : ℕ
  pub answered : Option Json

pub record System : Type 0 where
  pub ctx : AppContext
  -- what the controller answers to a read of each key
  pub server : String → Json
  pub flights : ℕ → Option Flight

abbrev pub update : (ℕ → Option Flight) → ℕ → Option Flight → ℕ → Option Flight
update f i a j = if i == j then a else f j

-- The states after the events of a call.
abbrev pub started : System → ℕ → Call → System
started s i c = record s {
  ctx = (begin s.ctx c).0;
  flights = update s.flights i (
      some (record {
        call = c;
        request_generation = (begin s.ctx c).0.cache_generation;
        answered = none;
      }));
}

abbrev pub answer : System → ℕ → Flight → System
answer s i f = record s {
  flights = update s.flights i (some (record f { answered = some (s.server f.call.key) }));
}

abbrev pub finished : System → ℕ → Flight → Result Raised Json → System
finished s i f r = record s {
  ctx = finish s.ctx f.call f.request_generation r;
  flights = update s.flights i none;
}

pub data Step : System → System → Type 0 where
  -- a miss, or a call that does not read the cache; a hit changes nothing
  start :
      (s : System) (i : ℕ) (c : Call)
      → s.flights i ≡ none
      → (begin s.ctx c).1 ≡ none
      → Step s (started s i c)
  -- the controller answers a read; with a refreshed session it may do so again
  reads : (s : System) (i : ℕ) (f : Flight) → s.flights i ≡ some f → Step s (answer s i f)
  -- the controller carries out a mutation
  mutates :
      (s : System) (i : ℕ) (f : Flight) (server : String → Json)
      → s.flights i ≡ some f
      → f.call.cacheable ≡ false
      → Step s (record s { server = server })
  -- a call returns: a read, the value that it was answered, or any call an error
  returns :
      (s : System) (i : ℕ) (f : Flight) (v : Json)
      → s.flights i ≡ some f
      → f.answered ≡ some v
      → Step s (finished s i f (ok v))
  confirms :
      (s : System) (i : ℕ) (f : Flight) (v : Json)
      → s.flights i ≡ some f
      → f.call.cacheable ≡ false
      → Step s (finished s i f (ok v))
  fails :
      (s : System) (i : ℕ) (f : Flight) (e : Raised)
      → s.flights i ≡ some f
      → Step s (finished s i f (err e))
  -- the cache drops entries, by age or by number
  evicts :
      (s : System) (keep : String × Json → Bool)
      → Step s (record s { ctx = record s.ctx { cache = select_where keep s.ctx.cache } })

pub data Reach (s : System) : System → Type 0 where
  here : Reach s s
  next : {t u : System} → Reach s t → Step t u → Reach s u

-- No mutation is on its way.
abbrev pub Quiet : System → Type 0
Quiet s = (i : ℕ) (f : Flight) → s.flights i ≡ some f → f.call.cacheable ≡ true

pub record Inv (s : System) : Type 0 where
  pub past :
      (i : ℕ) (f : Flight) → s.flights i ≡ some f → f.request_generation ≤ s.ctx.cache_generation
  pub cached : Quiet s → Current s.server s.ctx.cache
  pub coming :
      Quiet s
      → (i : ℕ) (f : Flight) (v : Json) → s.flights i ≡ some f
      → f.request_generation ≡ s.ctx.cache_generation
      → f.answered ≡ some v
      → s.server f.call.key ≡ v
