-- ===== src/Oidc/Refresh.antt =====
-- auth/oidc.py: how often `_get_jwks` lets a token force a refresh of the keys.
use unifi_mcp.Base.{
  ℕ, ◌+◌, ◌≤◌, ◌<◌, String, ◌≡◌, refl, ap, subst, Bool, true, false, Option, none, some, List, [],
  ◌∷◌, arith, lt→ltb, Result, ok, err, All,
}
use unifi_mcp.Base.Json.{null, Fields, get_or}
use unifi_mcp.Oidc.{
  refresh_cooldown, store_jwks, cached_jwks, answer_or_fetch, Failure, World, Config, Verifier,
  is_list, fetch_jwks, locked_jwks,
}

-- The keys are cached, and the last forced refresh was at `t` or later.
pub data Refreshed (t : ℕ) : Verifier → Type 0 where
  refreshed :
      (discovery : Option (ℕ × Fields)) (until : ℕ) (keys : Fields) (last ticks requests : ℕ)
      → t ≤ last
      → Refreshed t (record {
        discovery = discovery;
        jwks = some (until, keys);
        last_forced_refresh = some last;
        ticks = ticks;
        requests = requests;
      })

-- A passage through the lock of `_get_jwks`.
pub record Passage : Type 0 where
  pub uri : String
  pub force : Bool
  pub now : ℕ

-- The verifier after passages through the lock, of whatever tasks.
abbrev pub after : Config → World → List Passage → Verifier → Verifier
after cfg w [] v = v
after cfg w (p ∷ ps) v = after cfg w ps (locked_jwks cfg p.uri p.force p.now w v).1

module _ (cfg : Config) (w : World) (t : ℕ) where
  store_jwks-Refreshed :
      (force : Bool) (now : ℕ) (has_keys : Bool) (jwks : Fields) (v : Verifier)
      → t ≤ now
      → Refreshed t v
      → Refreshed t (store_jwks cfg force now has_keys jwks w v).1
  unfolding store_jwks
  store_jwks-Refreshed force now false jwks v le h = h
  store_jwks-Refreshed true now true jwks _ le
        (refreshed discovery until keys last ticks requests h) =
      refreshed discovery (now + cfg.cache_ttl) jwks now ticks requests le
  store_jwks-Refreshed false now true jwks _ le
        (refreshed discovery until keys last ticks requests h) =
      refreshed discovery (now + cfg.cache_ttl) jwks last ticks requests h

  count-Refreshed :
      (v : Verifier) → Refreshed t v → Refreshed t (record v { requests = v.requests + 1 })
  count-Refreshed _ (refreshed discovery until keys last ticks requests h) =
      refreshed discovery until keys last ticks (requests + 1) h

  fetch_jwks-Refreshed :
      (uri : String) (force : Bool) (now : ℕ) (v : Verifier)
      → t ≤ now
      → Refreshed t v
      → Refreshed t (fetch_jwks cfg uri force now w v).1
  unfolding fetch_jwks
  fetch_jwks-Refreshed uri force now v le h = by_answer (w.get_json v.requests uri)
    where
      by_answer :
          (r : Result Failure Fields)
          → Refreshed t
              (elim r as (λ _. Result Failure Fields × Verifier) [
                | ok jwks ↦
                    store_jwks cfg force now
                      (is_list (get_or "keys" null jwks))
                      jwks
                      w
                      (record v { requests = v.requests + 1 })
                | err e ↦ (err e, record v { requests = v.requests + 1 })
              ]).1
      by_answer (err e) = count-Refreshed v h
      by_answer (ok jwks) =
          store_jwks-Refreshed force now (is_list (get_or "keys" null jwks)) jwks _ le
            (count-Refreshed v h)

  locked_jwks-Refreshed :
      (uri : String) (force : Bool) (now : ℕ) (v : Verifier)
      → t ≤ now
      → Refreshed t v
      → Refreshed t (locked_jwks cfg uri force now w v).1
  unfolding locked_jwks answer_or_fetch
  locked_jwks-Refreshed uri force now v le h = by_cached (cached_jwks cfg force now v)
    where
      by_cached : (o : Option Fields) → Refreshed t (answer_or_fetch cfg uri force now o w v).1
      by_cached (some jwks) = h
      by_cached none = fetch_jwks-Refreshed uri force now v le h

  after-Refreshed :
      (ps : List Passage) (v : Verifier)
      → All (λ p. t ≤ p.now) ps
      → Refreshed t v
      → Refreshed t (after cfg w ps v)
  after-Refreshed [] v le h = h
  after-Refreshed (p ∷ ps) v le h =
      after-Refreshed ps _ le.1 (locked_jwks-Refreshed p.uri p.force p.now v le.0 h)

  -- A forced passage before the cooldown is over takes the keys of the cache.
  forced_jwks :
      (uri : String) (now : ℕ) (v : Verifier)
      → now < t + refresh_cooldown cfg
      → Refreshed t v
      → (locked_jwks cfg uri true now w v).1 ≡ v
  unfolding locked_jwks answer_or_fetch cached_jwks
  forced_jwks uri now _ lt (refreshed discovery until keys last ticks requests h) =
      rw (lt→ltb now (last + refresh_cooldown cfg) (omega (arith, lt, h))) refl

  -- A fetch of a forced passage at `t` that succeeds starts a cooldown.
  fetched-Refreshed :
      (uri : String) (v : Verifier) {jwks : Fields} {v' : Verifier}
      → locked_jwks cfg uri true t w v ≡ (ok jwks, v')
      → v'.requests ≡ v.requests + 1
      → Refreshed t v'
  unfolding locked_jwks answer_or_fetch fetch_jwks store_jwks
  fetched-Refreshed uri v {jwks} {v'} h one_more = by_cached (cached_jwks cfg true t v) h
    where
      by_list :
          (has_keys : Bool) (keys : Fields)
          → store_jwks cfg true t has_keys keys w (record v { requests = v.requests + 1 })
            ≡ (ok jwks, v')
          → Refreshed t v'
      by_list false keys k = absurd (cc (ap (λ r. r.0) k))
      by_list true keys k =
          subst (Refreshed t) (ap (λ r. r.1) k) (
            refreshed v.discovery (t + cfg.cache_ttl) keys t v.ticks (v.requests + 1) (omega arith))

      by_answer :
          (r : Result Failure Fields)
          → (elim r as (λ _. Result Failure Fields × Verifier) [
            | ok keys ↦
                store_jwks cfg true t
                  (is_list (get_or "keys" null keys))
                  keys
                  w
                  (record v { requests = v.requests + 1 })
            | err e ↦ (err e, record v { requests = v.requests + 1 })
          ])
            ≡ (ok jwks, v')
          → Refreshed t v'
      by_answer (err e) k = absurd (cc (ap (λ r. r.0) k))
      by_answer (ok keys) k = by_list (is_list (get_or "keys" null keys)) keys k

      by_cached :
          (o : Option Fields)
          → answer_or_fetch cfg uri true t o w v ≡ (ok jwks, v')
          → Refreshed t v'
      by_cached (some keys) k =
          let same : v.requests ≡ v'.requests = ap (λ r. r.1.requests) k in
          absurd (omega (arith, same, one_more))
      by_cached none k = by_answer (w.get_json v.requests uri) k

  -- After a forced refresh at `t` that fetched the keys, a token can force no other fetch before the
  -- cooldown is over: whatever passes through the lock in between, at `t` or later and with whatever
  -- answers, a forced passage before `t + refresh_cooldown` sends no request and changes nothing.
  pub forced_refresh-spaced :
      (uri : String) (v : Verifier) (jwks : Fields) (v' : Verifier) (ps : List Passage)
      (other : String) (now : ℕ)
      → locked_jwks cfg uri true t w v ≡ (ok jwks, v')
      → v'.requests ≡ v.requests + 1
      → All (λ p. t ≤ p.now) ps
      → now < t + refresh_cooldown cfg
      → (locked_jwks cfg other true now w (after cfg w ps v')).1 ≡ after cfg w ps v'
  forced_refresh-spaced uri v jwks v' ps other now h one_more later lt =
      forced_jwks other now (after cfg w ps v') lt
        (after-Refreshed ps v' later (fetched-Refreshed uri v h one_more))
