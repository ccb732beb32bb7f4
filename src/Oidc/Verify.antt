-- ===== src/Oidc/Verify.antt =====
-- `verify_token` of auth/oidc.py.
use unifi_mcp.Base.{
  String, Bool, true, false, not, ◌&&◌, ◌||◌, Option, none, some, List, [], ◌∷◌, ◌==◌, str_eq,
  if◌then◌else◌, Result, ok, err, length, elem,
}
use unifi_mcp.Base.Json.{
  Json, null, bool, int, neg, text, arr, obj, Items, nil, cons, Fields, truthy, get_field, get_or,
  is_text, equals,
}
use unifi_mcp.Base.Table.{select_where}
use unifi_mcp.Oidc.{
  Failure, caught, invalid_signature, attribute_error, World, Config, AccessToken, Step, pure,
  of_result, get_discovery, get_jwks, key_by_id, ◌>>=◌,
}

abbrev pub ask : {A : Type 0} → (World → Result Failure A) → Step A
ask f w v = (f w, v)

-- `_find_key`
unfoldable pub find_key : Config → (uri key_id : String) (force : Bool) → Step (Option Fields)
unfolding get_jwks key_by_id
find_key cfg uri key_id force = do jwks ← get_jwks cfg uri force; of_result (key_by_id jwks key_id)

-- The algorithm and the key id of the header, if they may be used.
abbrev pub usable_header : Config → Fields → Option (String × String)
usable_header cfg header = elim (get_or "alg" null header) [
  | text algorithm ↦ elim (get_or "kid" null header) [
    | text key_id ↦
        if elem algorithm cfg.algorithms && not (str_eq key_id "")
        then some (algorithm, key_id)
        else none
    | _ ↦ none
  ]
  | _ ↦ none
]

-- value in {None, wanted}; a value that has no hash ends in the same refusal.
abbrev pub none_or : Json → String → Bool
none_or null wanted = true
none_or value wanted = is_text value wanted

abbrev pub usable_key : Fields → (algorithm : String) → Bool
usable_key jwk algorithm =
    none_or (get_or "alg" null jwk) algorithm && none_or (get_or "use" null jwk) "sig"

abbrev pub is_int : Json → Bool
is_int (bool b) = true
is_int (int n) = true
is_int (neg n) = true
is_int value = false

-- list(dict.fromkeys(scopes))
abbrev pub unique : List String → List String
unique [] = []
unique (s ∷ ss) = s ∷ select_where (λ t. not (str_eq t s)) (unique ss)

abbrev pub texts_of : Items → Option (List String)
texts_of nil = some []
texts_of (cons (text s) xs) =
    let rest = texts_of xs in elim rest [ none ↦ none | some ss ↦ some (s ∷ ss) ]
texts_of (cons x xs) = none

abbrev pub any_blank : World → List String → Bool
any_blank w [] = false
any_blank w (s ∷ ss) = (str_eq s "" || w.has_space s) || any_blank w ss

abbrev pub well_formed : World → Option (List String) → Option (List String)
well_formed w none = none
well_formed w (some scopes) =
    if length scopes == 0 || any_blank w scopes then none else some (unique scopes)

-- `_parse_scopes`
unfoldable pub parse_scopes : World → Json → Option (List String)
parse_scopes w (text s) = well_formed w (some (w.split s))
parse_scopes w (arr xs) = well_formed w (texts_of xs)
parse_scopes w value = none

abbrev pub filled : Json → Option String
filled (text s) = if str_eq s "" then none else some s
filled value = none

abbrev pub or_else : Json → Json → Json
or_else a b = if truthy a then a else b

-- claims.get("client_id") or claims.get("azp") or subject
abbrev pub client_of : Fields → Json
client_of claims =
    or_else (or_else (get_or "client_id" null claims) (get_or "azp" null claims))
      (get_or "sub" null claims)

-- From the claims to the token that is accepted.
unfoldable pub accept : Config → World → (token : String) → (claims : Fields) → Option AccessToken
unfolding parse_scopes
accept cfg w token claims = elim (filled (get_or "sub" null claims)) [
  | none ↦ none
  | some subject ↦ elim (filled (client_of claims)) [
    | none ↦ none
    | some client_id ↦ elim (parse_scopes w (get_or "scope" null claims)) [
      | none ↦ none
      | some scopes ↦
          if elem cfg.required_scope scopes && is_int (get_or "exp" null claims)
          then some (record {
            token = token;
            client_id = client_id;
            scopes = scopes;
            expires_at = get_or "exp" null claims;
            subject = subject;
            resource = cfg.audience;
          })
          else none
    ]
  ]
]

abbrev pub claims_or : Result Failure Fields → Result Failure (Option Fields)
claims_or (ok claims) = ok (some claims)
claims_or (err e) = err e

-- The claims under a refreshed key, unless there is none or it is the same.
abbrev pub of_answer :
    Option Fields → (jwk : Fields) → (Fields → World → Result Failure Fields) → Step (Option Fields)
of_answer none jwk decode w v = (ok none, v)
of_answer (some key) jwk decode w v =
    if equals (obj key) (obj jwk) then (ok none, v) else (claims_or (decode key w), v)

-- The claims of a token whose signature failed: its key is looked up in refreshed metadata.
unfoldable pub decode_again :
    Config → (uri token algorithm key_id : String) → (jwk : Fields) → Step (Option Fields)
unfolding find_key
decode_again cfg uri token algorithm key_id jwk = do
  refreshed ← find_key cfg uri key_id true
  of_answer refreshed jwk (λ key w. w.decode token key algorithm)

-- try: _decode; except InvalidSignatureError
unfoldable pub claims_of :
    Config → (uri token algorithm key_id : String) → (jwk : Fields) → Step (Option Fields)
unfolding decode_again
claims_of cfg uri token algorithm key_id jwk w v = elim (w.decode token jwk algorithm) [
  | ok claims ↦ (ok (some claims), v)
  | err invalid_signature ↦ decode_again cfg uri token algorithm key_id jwk w v
  | err e ↦ (err e, v)
]

-- The second lookup, if the first has found nothing.
abbrev pub or_force : Config → (uri key_id : String) → Option Fields → Step (Option Fields)
or_force cfg uri key_id none = find_key cfg uri key_id true
or_force cfg uri key_id (some jwk) = pure (some jwk)

abbrev pub accepted : Config → (token : String) → Option Fields → Step (Option AccessToken)
accepted cfg token none = pure none
accepted cfg token (some claims) = ask (λ w. ok (accept cfg w token claims))

abbrev pub with_key :
    Config → (uri token algorithm key_id : String) → Option Fields → Step (Option AccessToken)
with_key cfg uri token algorithm key_id none = pure none
with_key cfg uri token algorithm key_id (some jwk) =
    if usable_key jwk algorithm
    then claims_of cfg uri token algorithm key_id jwk >>= accepted cfg token
    else pure none

abbrev pub uri_of : Fields → Result Failure String
uri_of discovery = elim (get_field "jwks_uri" discovery) [
  | some (text uri) ↦ ok uri
  | _ ↦ err caught
]

abbrev pub with_first :
    Config → (token algorithm key_id uri : String) → Option Fields → Step (Option AccessToken)
with_first cfg token algorithm key_id uri first =
    or_force cfg uri key_id first >>= with_key cfg uri token algorithm key_id

abbrev pub with_uri : Config → (token algorithm key_id uri : String) → Step (Option AccessToken)
with_uri cfg token algorithm key_id uri =
    find_key cfg uri key_id false >>= with_first cfg token algorithm key_id uri

abbrev pub with_discovery :
    Config → (token algorithm key_id : String) → Fields → Step (Option AccessToken)
with_discovery cfg token algorithm key_id discovery =
    of_result (uri_of discovery) >>= with_uri cfg token algorithm key_id

abbrev pub with_header :
    Config → (token : String) → Option (String × String) → Step (Option AccessToken)
with_header cfg token none = pure none
with_header cfg token (some (algorithm, key_id)) =
    get_discovery cfg >>= with_discovery cfg token algorithm key_id

-- The body of the `try`
unfoldable pub verify_body : Config → (token : String) → Step (Option AccessToken)
unfolding get_discovery find_key claims_of accept
verify_body cfg token = do
  header ← ask (λ w. w.get_unverified_header token)
  with_header cfg token (usable_header cfg header)

-- `verify_token`; the `err` is an AttributeError.
unfoldable pub verify_token : Config → (token : String) → Step (Option AccessToken)
unfolding verify_body
verify_token cfg token w v =
    let (r, v') = verify_body cfg token w v in
    elim r [
      | ok answer ↦ (ok answer, v')
      | err attribute_error ↦ (err attribute_error, v')
      | err e ↦ (ok none, v')
    ]
