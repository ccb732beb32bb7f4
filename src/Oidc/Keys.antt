-- ===== src/Oidc/Keys.antt =====
-- auth/oidc.py: a key that a lookup gives is one of the issuer's, and so is the key of a decoding.
use unifi_mcp.Base.{
  ℕ, String, ◌≡◌, refl, sym, ap, subst, ◌∙◌, inl, inr, Bool, true, Option, none, some, Bool-cases,
  if-true, if-false, Result, ok, err,
}
use unifi_mcp.Base.Json.{
  Json, null, bool, int, neg, float, text, arr, obj, Items, nil, cons, Fields, get_field, get_or,
  is_text, equals,
}
use unifi_mcp.Oidc.{
  Failure, caught, invalid_signature, attribute_error, World, Config, Verifier, of_result,
  search_keys, key_by_id, get_jwks,
}
use unifi_mcp.Oidc.Verify.{find_key, of_answer, claims_or, decode_again, claims_of}
use unifi_mcp.Oidc.Metadata.{Origin, Sourced, step-ok, get_jwks-Sourced}

-- The key is one of the list.
pub data Listed (key : Fields) : Items → Type 0 where
  at_head : (rest : Items) → Listed key (cons (obj key) rest)
  later : (x : Json) (rest : Items) → Listed key rest → Listed key (cons x rest)

-- A key of the id stands in the keys that the issuer has at the URL, as it answered with them or as
-- they were cached at the start.
pub record Holds (w : World) (cached : Option (ℕ × Fields)) (uri key_id : String) (key : Fields)
    : Type 0 where
  pub jwks : Fields
  pub origin : Origin w cached uri jwks
  pub keys : Items
  pub listed : get_field "keys" jwks ≡ some (arr keys)
  pub member : Listed key keys
  pub named : is_text (get_or "kid" null key) key_id ≡ true

further :
    (key_id : String) (key : Fields) (x : Json) (keys : Items)
    → Listed key keys × (is_text (get_or "kid" null key) key_id ≡ true)
    → Listed key (cons x keys) × (is_text (get_or "kid" null key) key_id ≡ true)
further key_id key x keys (member, named) = (later x keys member, named)

search_keys-Listed :
    (key_id : String) (keys : Items) {key : Fields}
    → search_keys key_id keys ≡ some key
    → Listed key keys × (is_text (get_or "kid" null key) key_id ≡ true)
search_keys-Listed key_id nil h = cc
search_keys-Listed key_id (cons (obj k) keys) {key} h =
    elim (Bool-cases (is_text (get_or "kid" null k) key_id)) [
      | inl named ↦
          let hit : some k ≡ some key =
            sym (if-true _ (some k) (search_keys key_id keys) named) ∙ h in
          let same : k ≡ key = cc hit in
          (
            subst (λ x. Listed x (cons (obj k) keys)) same (at_head keys),
            subst (λ x. is_text (get_or "kid" null x) key_id ≡ true) same named,
          )
      | inr other ↦ further key_id key (obj k) keys (
          search_keys-Listed key_id keys
            (sym (if-false _ (some k) (search_keys key_id keys) other) ∙ h))
    ]
search_keys-Listed key_id (cons null keys) h = further _ _ _ keys (search_keys-Listed key_id keys h)
search_keys-Listed key_id (cons (bool b) keys) h =
    further _ _ _ keys (search_keys-Listed key_id keys h)
search_keys-Listed key_id (cons (int n) keys) h =
    further _ _ _ keys (search_keys-Listed key_id keys h)
search_keys-Listed key_id (cons (neg n) keys) h =
    further _ _ _ keys (search_keys-Listed key_id keys h)
search_keys-Listed key_id (cons (float b s) keys) h =
    further _ _ _ keys (search_keys-Listed key_id keys h)
search_keys-Listed key_id (cons (text s) keys) h =
    further _ _ _ keys (search_keys-Listed key_id keys h)
search_keys-Listed key_id (cons (arr xs) keys) h =
    further _ _ _ keys (search_keys-Listed key_id keys h)

by_json :
    (o : Option Json) (key_id : String) {key : Option Fields}
    → (elim o as (λ _. Result Failure (Option Fields)) [
      | some (arr keys) ↦ ok (search_keys key_id keys)
      | _ ↦ err caught
    ])
      ≡ ok key
    → (keys : Items) × (o ≡ some (arr keys)) × (search_keys key_id keys ≡ key)
by_json none key_id h = cc
by_json (some (arr keys)) key_id {key} h =
    let same : search_keys key_id keys ≡ key = cc h in (keys, refl, same)
by_json (some null) key_id h = cc
by_json (some (bool b)) key_id h = cc
by_json (some (int n)) key_id h = cc
by_json (some (neg n)) key_id h = cc
by_json (some (float b s)) key_id h = cc
by_json (some (text s)) key_id h = cc
by_json (some (obj fs)) key_id h = cc

-- A key that is found for an id is one of the issuer's keys, and the cache keeps its origin.
pub find_key-Holds :
    (cfg : Config) (uri key_id : String) (force : Bool) (w : World) (cached : Option (ℕ × Fields))
    (v : Verifier) {key : Option Fields} {v' : Verifier}
    → Sourced w cached uri v
    → find_key cfg uri key_id force w v ≡ (ok key, v')
    → Sourced w cached uri v' × ((k : Fields) → key ≡ some k → Holds w cached uri key_id k)
unfolding find_key key_by_id
find_key-Holds cfg uri key_id force w cached v {key} {v'} sourced h =
    let (jwks, v1, got, h1) =
      step-ok (get_jwks cfg uri force) (λ jwks. of_result (key_by_id jwks key_id)) w v h in
    let (origin, later_sourced) = get_jwks-Sourced cfg w uri cached force v sourced got in
    let (keys, listed, found) = by_json (get_field "keys" jwks) key_id (ap (λ r. r.0) h1) in
    (
      subst (Sourced w cached uri) (ap (λ r. r.1) h1) later_sourced,
      λ k is_k.
          let (member, named) = search_keys-Listed key_id keys (found ∙ is_k) in
          record {
            jwks = jwks;
            origin = origin;
            keys = keys;
            listed = listed;
            member = member;
            named = named;
          },
    )

-- The claims come from a decoding with such a key.
pub record Decoded (w : World) (cached : Option (ℕ × Fields)) (uri token algorithm key_id : String)
    (claims : Fields) : Type 0 where
  pub key : Fields
  pub holds : Holds w cached uri key_id key
  pub decoded : w.decode token key algorithm ≡ ok claims

module _ (cfg : Config) (uri token algorithm key_id : String) (jwk : Fields) (w : World)
    (cached : Option (ℕ × Fields)) (v : Verifier) where
  decode_again-Decoded :
      {claims : Fields} {v' : Verifier}
      → Sourced w cached uri v
      → decode_again cfg uri token algorithm key_id jwk w v ≡ (ok (some claims), v')
      → Decoded w cached uri token algorithm key_id claims
  unfolding decode_again
  decode_again-Decoded {claims} {v'} sourced h =
      let (refreshed, v1, found, h1) =
        step-ok (find_key cfg uri key_id true)
          (λ refreshed. of_answer refreshed jwk (λ key w. w.decode token key algorithm)) w v h in
      by_key refreshed v1 (find_key-Holds cfg uri key_id true w cached v sourced found).1 h1
    where
      by_claims :
          (key : Fields)
          → Holds w cached uri key_id key
          → (r : Result Failure Fields) → w.decode token key algorithm ≡ r
          → claims_or r ≡ ok (some claims)
          → Decoded w cached uri token algorithm key_id claims
      by_claims key holds (ok c) eq k =
          let same : c ≡ claims = cc k in
          record { key = key; holds = holds; decoded = eq ∙ ap ok same }
      by_claims key holds (err e) eq k = cc

      by_key :
          (refreshed : Option Fields) (v1 : Verifier)
          → ((k : Fields) → refreshed ≡ some k → Holds w cached uri key_id k)
          → of_answer refreshed jwk (λ key w. w.decode token key algorithm) w v1
            ≡ (ok (some claims), v')
          → Decoded w cached uri token algorithm key_id claims
      by_key none v1 holds k = absurd (cc (ap (λ r. r.0) k))
      by_key (some key) v1 holds k = elim (Bool-cases (equals (obj key) (obj jwk))) [
        | inl same ↦
            let result = sym (if-true _ (ok none, v1) _ same) ∙ k in
            absurd (cc (ap (λ r. r.0) result))
        | inr differs ↦
            let result = sym (if-false _ (ok none, v1) _ differs) ∙ k in
            by_claims key (holds key refl) (w.decode token key algorithm) refl
              (ap (λ r. r.0) result)
      ]

  pub claims_of-Decoded :
      {claims : Fields} {v' : Verifier}
      → Sourced w cached uri v
      → Holds w cached uri key_id jwk
      → claims_of cfg uri token algorithm key_id jwk w v ≡ (ok (some claims), v')
      → Decoded w cached uri token algorithm key_id claims
  unfolding claims_of
  claims_of-Decoded {claims} {v'} sourced holds h = by_decode (w.decode token jwk algorithm) refl h
    where
      by_decode :
          (r : Result Failure Fields)
          → w.decode token jwk algorithm ≡ r
          → (elim r as (λ _. Result Failure (Option Fields) × Verifier) [
            | ok c ↦ (ok (some c), v)
            | err invalid_signature ↦ decode_again cfg uri token algorithm key_id jwk w v
            | err e ↦ (err e, v)
          ])
            ≡ (ok (some claims), v')
          → Decoded w cached uri token algorithm key_id claims
      by_decode (ok c) eq k =
          let first : ok (some c) ≡ ok (some claims) = ap (λ r. r.0) k in
          let same : c ≡ claims = cc first in
          record { key = jwk; holds = holds; decoded = eq ∙ ap ok same }
      by_decode (err invalid_signature) eq k = decode_again-Decoded sourced k
      by_decode (err caught) eq k = absurd (cc (ap (λ r. r.0) k))
      by_decode (err attribute_error) eq k = absurd (cc (ap (λ r. r.0) k))
