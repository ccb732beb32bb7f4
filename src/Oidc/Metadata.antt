-- ===== src/Oidc/Metadata.antt =====
-- auth/oidc.py: the keys that the verifier works with are the issuer's, or those of its caches.
use unifi_mcp.Base.{
  ℕ, ◌+◌, ltb, String, ◌≡◌, refl, sym, ap, subst, ◌∙◌, ◌⊎◌, inl, inr, Bool, true, false, Option,
  none, some, if◌then◌else◌, Result, ok, err, str_eq, not,
}
use unifi_mcp.Base.Json.{null, Fields, get_or}
use unifi_mcp.Oidc.{
  Failure, caught, issuer_of, raise_if', well_known, with_discovered, with_issuer, store_discovery,
  World, Config, Verifier, Step, of_result, current, get_json, get_jwks, locked_jwks,
  answer_or_fetch, cached_jwks, fetch_jwks, store_jwks, get_discovery, fetch_discovery, cooling,
  is_list, valid_uri, ◌>>=◌,
}

-- A step that returns has run its first part to a value, and the rest on that value.
pub step-ok :
    {A B : Type 0} (m : Step A) (f : A → Step B) (w : World) (v : Verifier) {b : B} {v' : Verifier}
    → (m >>= f) w v ≡ (ok b, v')
    → (a : A) × (v1 : Verifier) × (m w v ≡ (ok a, v1)) × (f a w v1 ≡ (ok b, v'))
step-ok {A} {B} m f w v {b} {v'} h = by_result (m w v) refl h
  where
    by_result :
        (r : Result Failure A × Verifier)
        → m w v ≡ r
        → (elim r.0 as (λ _. Result Failure B × Verifier) [
          | ok a ↦ f a w r.1
          | err e ↦ (err e, r.1)
        ])
          ≡ (ok b, v')
        → (a : A) × (v1 : Verifier) × (m w v ≡ (ok a, v1)) × (f a w v1 ≡ (ok b, v'))
    by_result (ok a, v1) eq k = (a, v1, eq, k)
    by_result (err e, v1) eq k = absurd (cc (ap (λ r. r.0) k))

-- A document that was cached at the start, or that a request to the URL was answered with.
abbrev pub Origin : World → Option (ℕ × Fields) → (url : String) → Fields → Type 0
Origin w cached url document =
    ((until : ℕ) × (cached ≡ some (until, document))) ⊎ ((n : ℕ) × (w.get_json n url ≡ ok document))

-- The cached keys have such an origin.
abbrev pub Sourced : World → Option (ℕ × Fields) → (uri : String) → Verifier → Type 0
Sourced w cached uri v =
    (until : ℕ) (jwks : Fields) → v.jwks ≡ some (until, jwks) → Origin w cached uri jwks

current-some :
    (now : ℕ) (cached : Option (ℕ × Fields)) {value : Fields}
    → current now cached ≡ some value
    → (until : ℕ) × (cached ≡ some (until, value))
current-some now none h = absurd (cc h)
current-some now (some (until, document)) {value} h = by_time (ltb now until) h
  where
    by_time :
        (test : Bool)
        → (if test then some document else none) ≡ some value
        → (t : ℕ) × ◌≡◌ {A = Option (ℕ × Fields)} (some (until, document)) (some (t, value))
    by_time true k = let same : document ≡ value = cc k in (until, ap (λ d. some (until, d)) same)
    by_time false k = absurd (cc k)

module _ (cfg : Config) (w : World) (uri : String) (cached : Option (ℕ × Fields)) where
  store_jwks-Sourced :
      (force : Bool) (now : ℕ) (has_keys : Bool) (answer : Fields) (v : Verifier) {jwks : Fields}
      {v' : Verifier}
      → Origin w cached uri answer
      → store_jwks cfg force now has_keys answer w v ≡ (ok jwks, v')
      → Origin w cached uri jwks × Sourced w cached uri v'
  unfolding store_jwks
  store_jwks-Sourced force now false answer v origin h = absurd (cc (ap (λ r. r.0) h))
  store_jwks-Sourced force now true answer v {jwks} {v'} origin h =
      let first : ok answer ≡ ok jwks = ap (λ r. r.0) h in
      let same : answer ≡ jwks = cc first in
      (
        subst (Origin w cached uri) same origin,
        λ until document held.
            let stored = ap (λ (r : Result Failure Fields × Verifier). r.1.jwks) h ∙ held in
            let kept : answer ≡ document = cc stored in subst (Origin w cached uri) kept origin,
      )

  cached_jwks-some :
      (force : Bool) (now : ℕ) (v : Verifier) {jwks : Fields}
      → cached_jwks cfg force now v ≡ some jwks
      → (until : ℕ) × (v.jwks ≡ some (until, jwks))
  unfolding cached_jwks
  cached_jwks-some false now v h = current-some now v.jwks h
  cached_jwks-some true now v {jwks} h =
      by_cooling (cooling cfg now v.last_forced_refresh) v.jwks refl h
    where
      by_cooling :
          (test : Bool) (o : Option (ℕ × Fields))
          → v.jwks ≡ o
          → (if test
              then (elim o as (λ _. Option Fields) [ none ↦ none | some (until, j) ↦ some j ])
              else none)
            ≡ some jwks
          → (until : ℕ) × (v.jwks ≡ some (until, jwks))
      by_cooling true none is k = absurd (cc k)
      by_cooling true (some (until, j)) is k =
          let same : j ≡ jwks = cc k in (until, is ∙ ap (λ d. some (until, d)) same)
      by_cooling false o is k = absurd (cc k)

  answer_or_fetch-Sourced :
      (force : Bool) (now : ℕ) (v : Verifier) (held : Option Fields) {jwks : Fields} {v' : Verifier}
      → cached_jwks cfg force now v ≡ held
      → Sourced w cached uri v
      → answer_or_fetch cfg uri force now held w v ≡ (ok jwks, v')
      → Origin w cached uri jwks × Sourced w cached uri v'
  unfolding answer_or_fetch fetch_jwks
  answer_or_fetch-Sourced force now v (some j) {jwks} {v'} is sourced h =
      let first : ok j ≡ ok jwks = ap (λ r. r.0) h in
      let same : j ≡ jwks = cc first in
      let (until, stored) = cached_jwks-some force now v is in
      (
        subst (Origin w cached uri) same (sourced until j stored),
        subst (Sourced w cached uri) (ap (λ r. r.1) h) sourced,
      )
  answer_or_fetch-Sourced force now v none {jwks} {v'} is sourced h =
      let (answer, v1, asked, h1) =
        step-ok (get_json uri)
          (λ answer. store_jwks cfg force now (is_list (get_or "keys" null answer)) answer) w v h in
      store_jwks-Sourced force now (is_list (get_or "keys" null answer)) answer v1
        (inr (v.requests, ap (λ r. r.0) asked)) h1

  -- Keys that `_get_jwks` answers with have an origin, and so have those that it leaves in the cache.
  pub get_jwks-Sourced :
      (force : Bool) (v : Verifier) {jwks : Fields} {v' : Verifier}
      → Sourced w cached uri v
      → get_jwks cfg uri force w v ≡ (ok jwks, v')
      → Origin w cached uri jwks × Sourced w cached uri v'
  unfolding get_jwks locked_jwks
  get_jwks-Sourced force v {jwks} {v'} sourced h =
      by_test force (if force then none else current (w.clock v.ticks) v.jwks) refl h
    where
      by_test :
          (f : Bool) (held : Option Fields)
          → (if f then none else current (w.clock v.ticks) v.jwks) ≡ held
          → (elim held as (λ _. Result Failure Fields × Verifier) [
            | some j ↦ (ok j, record v { ticks = v.ticks + 1 })
            | none ↦
                answer_or_fetch cfg uri force
                  (w.clock (v.ticks + 1))
                  (cached_jwks cfg force
                    (w.clock (v.ticks + 1))
                    (record v { ticks = v.ticks + 1 + 1 }))
                  w
                  (record v { ticks = v.ticks + 1 + 1 })
          ])
            ≡ (ok jwks, v')
          → Origin w cached uri jwks × Sourced w cached uri v'
      by_test f none is k =
          answer_or_fetch-Sourced force (w.clock (v.ticks + 1))
            (record v { ticks = v.ticks + 1 + 1 }) _ refl sourced k
      by_test true (some j) is k = absurd (cc is)
      by_test false (some j) is k =
          let first : ok j ≡ ok jwks = ap (λ r. r.0) k in
          let same : j ≡ jwks = cc first in
          let (until, stored) = current-some (w.clock v.ticks) v.jwks is in
          (
            subst (Origin w cached uri) same (sourced until j stored),
            subst (Sourced w cached uri) (ap (λ r. r.1) k) sourced,
          )

fetch_discovery-Origin :
    (cfg : Config) (now : ℕ) (w : World) (v : Verifier) {discovery : Fields} {v' : Verifier}
    → fetch_discovery cfg now w v ≡ (ok discovery, v')
    → ((n : ℕ) × (w.get_json n (well_known cfg) ≡ ok discovery)) × (v'.jwks ≡ v.jwks)
unfolding fetch_discovery
fetch_discovery-Origin cfg now w v {discovery} {v'} h =
    let (answer, v1, asked, h1) =
      step-ok (get_json (well_known cfg)) (with_discovered cfg now) w v h in
    let (issuer, v2, read, h2) =
      step-ok (of_result (issuer_of answer)) (with_issuer cfg now answer) w v1 h1 in
    let (_, v3, checked, h3) =
      step-ok (raise_if' (not (str_eq issuer cfg.issuer)) caught)
        (λ _. store_discovery cfg now answer) w v2 h2 in
    let kept : v3.jwks ≡ v.jwks =
      sym (ap (λ r. r.1.jwks) checked)
      ∙ sym (ap (λ r. r.1.jwks) read)
      ∙ sym (ap (λ r. r.1.jwks) asked) in
    by_uri answer (ap (λ r. r.0) asked) v3 kept (valid_uri w (get_or "jwks_uri" null answer)) h3
  where
    by_uri :
        (answer : Fields)
        → w.get_json v.requests (well_known cfg) ≡ ok answer
        → (v3 : Verifier) → v3.jwks ≡ v.jwks
        → (test : Bool)
        → ◌≡◌ {A = Result Failure Fields × Verifier}
            (if test
              then (ok answer, record v3 { discovery = some (now + cfg.cache_ttl, answer) })
              else (err caught, v3))
            (ok discovery, v')
        → ((n : ℕ) × (w.get_json n (well_known cfg) ≡ ok discovery)) × (v'.jwks ≡ v.jwks)
    by_uri answer asked v3 kept true k =
        let first : ok answer ≡ ok discovery = ap (λ r. r.0) k in
        let same : answer ≡ discovery = cc first in
        ((v.requests, asked ∙ ap (λ d. ok d) same), sym (ap (λ r. r.1.jwks) k) ∙ kept)
    by_uri answer asked v3 kept false k = absurd (cc (ap (λ r. r.0) k))

-- So has the metadata that `_get_discovery` answers with, and the cached keys stay as they are.
pub get_discovery-Origin :
    (cfg : Config) (w : World) (v : Verifier) {discovery : Fields} {v' : Verifier}
    → get_discovery cfg w v ≡ (ok discovery, v')
    → Origin w v.discovery (well_known cfg) discovery × (v'.jwks ≡ v.jwks)
unfolding get_discovery
get_discovery-Origin cfg w v {discovery} {v'} h =
    by_cache (current (w.clock v.ticks) v.discovery) refl h
  where
    by_cache :
        (held : Option Fields)
        → current (w.clock v.ticks) v.discovery ≡ held
        → (elim held as (λ _. Result Failure Fields × Verifier) [
          | some d ↦ (ok d, record v { ticks = v.ticks + 1 })
          | none ↦
              fetch_discovery cfg (w.clock (v.ticks + 1)) w (record v { ticks = v.ticks + 1 + 1 })
        ])
          ≡ (ok discovery, v')
        → Origin w v.discovery (well_known cfg) discovery × (v'.jwks ≡ v.jwks)
    by_cache none is k =
        let (asked, kept) =
          fetch_discovery-Origin cfg (w.clock (v.ticks + 1)) w
            (record v { ticks = v.ticks + 1 + 1 }) k in
        (inr asked, kept)
    by_cache (some d) is k =
        let first : ok d ≡ ok discovery = ap (λ r. r.0) k in
        let same : d ≡ discovery = cc first in
        let (until, stored) = current-some (w.clock v.ticks) v.discovery is in
        (
          subst (Origin w v.discovery (well_known cfg)) same (inl (until, stored)),
          sym (ap (λ r. r.1.jwks) k),
        )
