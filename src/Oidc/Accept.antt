-- ===== src/Oidc/Accept.antt =====
-- auth/oidc.py: what a token that `verify_token` accepts has shown.
use unifi_mcp.Base.{
  ℕ, String, ◌≡◌, refl, sym, ap, subst, ◌∙◌, inl, Bool, true, false, ◌&&◌, Option, none, some, List,
  [], if◌then◌else◌, and-true, Result, ok, err, elem,
}
use unifi_mcp.Base.Json.{null, text, Fields, get_field, get_or}
use unifi_mcp.Oidc.{
  Failure, caught, invalid_signature, attribute_error, World, Config, Verifier, AccessToken, pure,
  of_result, get_discovery, well_known, ◌>>=◌,
}
use unifi_mcp.Oidc.Verify.{
  find_key, usable_header, usable_key, accept, filled, client_of, parse_scopes, claims_of, or_force,
  accepted, with_key, uri_of, with_first, with_uri, with_discovery, with_header, verify_body,
  verify_token, is_int,
}
use unifi_mcp.Oidc.Metadata.{Origin, Sourced, step-ok, get_discovery-Origin}
use unifi_mcp.Oidc.Keys.{Holds, Decoded, find_key-Holds, claims_of-Decoded}
use unifi_mcp.Oidc.Header.{by_algorithm, uri_of-text}

-- What an accepted token has shown: its header names an allowed algorithm and a key, which the issuer
-- has at the URL that its metadata names, and which verifies the token under this algorithm; and the
-- claims under that signature carry the required scope.
pub record Shown (cfg : Config) (w : World) (v : Verifier) (token : String) (t : AccessToken)
    : Type 0 where
  pub header : Fields
  pub algorithm : String
  pub key_id : String
  pub discovery : Fields
  pub uri : String
  pub key : Fields
  pub claims : Fields
  pub header_read : w.get_unverified_header token ≡ ok header
  pub algorithm_named : get_or "alg" null header ≡ text algorithm
  pub algorithm_allowed : elem algorithm cfg.algorithms ≡ true
  pub key_named : get_or "kid" null header ≡ text key_id
  pub discovered : Origin w v.discovery (well_known cfg) discovery
  pub uri_named : get_field "jwks_uri" discovery ≡ some (text uri)
  pub held : Holds w v.jwks uri key_id key
  pub decoded : w.decode token key algorithm ≡ ok claims
  pub result : accept cfg w token claims ≡ some t
  pub scope_held : elem cfg.required_scope t.scopes ≡ true

scopes_of : Option AccessToken → List String
scopes_of none = []
scopes_of (some t) = t.scopes

accept-scope :
    (cfg : Config) (w : World) (token : String) (claims : Fields) {t : AccessToken}
    → accept cfg w token claims ≡ some t
    → elem cfg.required_scope t.scopes ≡ true
unfolding accept scopes_of
accept-scope cfg w token claims {t} h =
    by_subject (filled (get_or "sub" null claims)) (filled (client_of claims))
      (parse_scopes w (get_or "scope" null claims)) h
  where
    by_scopes :
        (subject client_id : String) (scopes : List String) (test : Bool)
        → (test ≡ true → elem cfg.required_scope scopes ≡ true)
        → (if test
            then some (record {
              token = token;
              client_id = client_id;
              scopes = scopes;
              expires_at = get_or "exp" null claims;
              subject = subject;
              resource = cfg.audience;
            })
            else none)
          ≡ some t
        → elem cfg.required_scope t.scopes ≡ true
    by_scopes subject client_id scopes true held k =
        let same : scopes ≡ t.scopes = ap scopes_of k in
        subst (λ s. elem cfg.required_scope s ≡ true) same (held refl)
    by_scopes subject client_id scopes false held k = cc

    by_subject :
        (subject client_id : Option String) (scopes : Option (List String))
        → (elim subject as (λ _. Option AccessToken) [
          | none ↦ none
          | some s ↦ elim client_id [
            | none ↦ none
            | some c ↦ elim scopes [
              | none ↦ none
              | some ss ↦
                  if elem cfg.required_scope ss && is_int (get_or "exp" null claims)
                  then some (record {
                    token = token;
                    client_id = c;
                    scopes = ss;
                    expires_at = get_or "exp" null claims;
                    subject = s;
                    resource = cfg.audience;
                  })
                  else none
            ]
          ]
        ])
          ≡ some t
        → elem cfg.required_scope t.scopes ≡ true
    by_subject none client_id scopes k = cc
    by_subject (some s) none scopes k = cc
    by_subject (some s) (some c) none k = cc
    by_subject (some s) (some c) (some ss) k =
        by_scopes s c ss (elem cfg.required_scope ss && is_int (get_or "exp" null claims))
          (λ both. (and-true (elem cfg.required_scope ss) _ both).0) k

-- The key that either lookup gives is one of the issuer's.
or_force-Holds :
    (cfg : Config) (w : World) (cached : Option (ℕ × Fields)) (uri key_id : String) (v : Verifier)
    (first key : Option Fields) (v1 v2 : Verifier)
    → Sourced w cached uri v
    → find_key cfg uri key_id false w v ≡ (ok first, v1)
    → or_force cfg uri key_id first w v1 ≡ (ok key, v2)
    → Sourced w cached uri v2 × ((k : Fields) → key ≡ some k → Holds w cached uri key_id k)
or_force-Holds cfg w cached uri key_id v none key v1 v2 sourced looked forced =
    find_key-Holds cfg uri key_id true w cached v1
      (find_key-Holds cfg uri key_id false w cached v sourced looked).0 forced
or_force-Holds cfg w cached uri key_id v (some j) key v1 v2 sourced looked forced =
    let first : ok (some j) ≡ ok key = ap (λ r. r.0) forced in
    let (sourced', holds) = find_key-Holds cfg uri key_id false w cached v sourced looked in
    (
      subst (Sourced w cached uri) (ap (λ r. r.1) forced) sourced',
      λ k is_k. let same : some j ≡ some k = cc (first, is_k) in holds k same,
    )

module _ (cfg : Config) (w : World) (start : Verifier) (token : String) (t : AccessToken) where
  Verified : (algorithm key_id uri : String) → Type 0
  Verified algorithm key_id uri =
      (claims : Fields) × Decoded w start.jwks uri token algorithm key_id claims
      × (accept cfg w token claims ≡ some t)

  with_claims :
      (algorithm key_id uri : String) (jwk : Fields) (v : Verifier) {v' : Verifier}
      → Sourced w start.jwks uri v
      → Holds w start.jwks uri key_id jwk
      → (claims_of cfg uri token algorithm key_id jwk >>= accepted cfg token) w v
        ≡ (ok (some t), v')
      → Verified algorithm key_id uri
  unfolding Verified
  with_claims algorithm key_id uri jwk v {v'} sourced holds h =
      let (claims, v1, decoded, h1) =
        step-ok (claims_of cfg uri token algorithm key_id jwk) (accepted cfg token) w v h in
      by_claims claims v1 decoded h1
    where
      by_claims :
          (claims : Option Fields) (v1 : Verifier)
          → claims_of cfg uri token algorithm key_id jwk w v ≡ (ok claims, v1)
          → accepted cfg token claims w v1 ≡ (ok (some t), v')
          → Verified algorithm key_id uri
      by_claims none v1 decoded k =
          let first : ok none ≡ ok (some t) = ap (λ r. r.0) k in absurd (cc first)
      by_claims (some c) v1 decoded k =
          let first : ok (accept cfg w token c) ≡ ok (some t) = ap (λ r. r.0) k in
          (
            c,
            claims_of-Decoded cfg uri token algorithm key_id jwk w start.jwks v sourced holds
                decoded,
            cc first,
          )

  with_key-claims :
      (algorithm key_id uri : String) (jwk : Option Fields) (v : Verifier) {v' : Verifier}
      → Sourced w start.jwks uri v
      → ((key : Fields) → jwk ≡ some key → Holds w start.jwks uri key_id key)
      → with_key cfg uri token algorithm key_id jwk w v ≡ (ok (some t), v')
      → Verified algorithm key_id uri
  with_key-claims algorithm key_id uri none v sourced holds h =
      let first : ok none ≡ ok (some t) = ap (λ r. r.0) h in absurd (cc first)
  with_key-claims algorithm key_id uri (some jwk) v {v'} sourced holds h =
      by_use (usable_key jwk algorithm) h
    where
      by_use :
          (test : Bool)
          → (if test
                then (claims_of cfg uri token algorithm key_id jwk >>= accepted cfg token)
                else pure none)
              w v
            ≡ (ok (some t), v')
          → Verified algorithm key_id uri
      by_use true k = with_claims algorithm key_id uri jwk v sourced (holds jwk refl) k
      by_use false k = let first : ok none ≡ ok (some t) = ap (λ r. r.0) k in absurd (cc first)

  with_header-Shown :
      (header : Fields) {v' : Verifier}
      → w.get_unverified_header token ≡ ok header
      → (usable : Option (String × String)) → usable_header cfg header ≡ usable
      → with_header cfg token usable w start ≡ (ok (some t), v')
      → Shown cfg w start token t
  unfolding Verified
  with_header-Shown header read none is_usable h =
      let first : ok none ≡ ok (some t) = ap (λ r. r.0) h in absurd (cc first)
  with_header-Shown header read (some (algorithm, key_id)) is_usable h =
      let (discovery, v1, got, h1) =
        step-ok (get_discovery cfg) (with_discovery cfg token algorithm key_id) w start h in
      let (discovered, kept) = get_discovery-Origin cfg w start got in
      let (uri, v2, is_uri, h2) =
        step-ok (of_result (uri_of discovery)) (with_uri cfg token algorithm key_id) w v1 h1 in
      let same : v2.jwks ≡ start.jwks = sym (ap (λ r. r.1.jwks) is_uri) ∙ kept in
      let (first, v3, looked, h3) =
        step-ok (find_key cfg uri key_id false) (with_first cfg token algorithm key_id uri) w v2
          h2 in
      let (key, v4, forced, h4) =
        step-ok (or_force cfg uri key_id first) (with_key cfg uri token algorithm key_id) w v3 h3 in
      let (sourced, holds) =
        or_force-Holds cfg w start.jwks uri key_id v2 first key v3 v4
          (λ until jwks held. inl (until, sym same ∙ held)) looked forced in
      let (claims, decoding, result) =
        with_key-claims algorithm key_id uri key v4 sourced holds h4 in
      let (alg, kid, allowed) =
        by_algorithm cfg algorithm key_id (get_or "alg" null header) (get_or "kid" null header)
          is_usable in
      record {
        header = header;
        algorithm = algorithm;
        key_id = key_id;
        discovery = discovery;
        uri = uri;
        key = decoding.key;
        claims = claims;
        header_read = read;
        algorithm_named = alg;
        algorithm_allowed = allowed;
        key_named = kid;
        discovered = discovered;
        uri_named = uri_of-text (get_field "jwks_uri" discovery) uri (ap (λ r. r.0) is_uri);
        held = decoding.holds;
        decoded = decoding.decoded;
        result = result;
        scope_held = accept-scope cfg w token claims result;
      }

-- A token is accepted only if its header names an allowed algorithm and a key id; the issuer's
-- metadata names a URL, and a key with this id stands among the keys there (each document is what the
-- issuer answered with, or what was cached at the start); this key has decoded the token under this
-- algorithm; and the claims so decoded, and no others, give the result, the scopes of which have the
-- required one.
pub verify_token-Shown :
    (cfg : Config) (token : String) (w : World) (v : Verifier) (t : AccessToken) (v' : Verifier)
    → verify_token cfg token w v ≡ (ok (some t), v')
    → Shown cfg w v token t
unfolding verify_token verify_body
verify_token-Shown cfg token w v t v' h = by_body (verify_body cfg token w v) refl h
  where
    by_body :
        (r : Result Failure (Option AccessToken) × Verifier)
        → verify_body cfg token w v ≡ r
        → (elim r.0 as (λ _. Result Failure (Option AccessToken) × Verifier) [
          | ok answer ↦ (ok answer, r.1)
          | err attribute_error ↦ (err attribute_error, r.1)
          | err e ↦ (ok none, r.1)
        ])
          ≡ (ok (some t), v')
        → Shown cfg w v token t
    by_body (ok answer, v1) eq k =
        let (header, v2, read, h1) =
          step-ok (λ w v. (w.get_unverified_header token, v))
            (λ header. with_header cfg token (usable_header cfg header)) w v (eq ∙ k) in
        with_header-Shown cfg w v token t header (ap (λ r. r.0) read) (usable_header cfg header)
          refl
          (ap (λ u. with_header cfg token (usable_header cfg header) w u) (ap (λ r. r.1) read) ∙ h1)
    by_body (err caught, v1) eq k =
        let first : ok none ≡ ok (some t) = ap (λ r. r.0) k in absurd (cc first)
    by_body (err invalid_signature, v1) eq k =
        let first : ok none ≡ ok (some t) = ap (λ r. r.0) k in absurd (cc first)
    by_body (err attribute_error, v1) eq k = absurd (cc (ap (λ r. r.0) k))
