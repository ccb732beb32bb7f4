-- ===== src/Settings/Safe.antt =====
-- config.py: what settings that pass validation promise of the server.
use unifi_mcp.Base.{
  ℕ, ◌≤◌, String, ◌≡◌, refl, ◌≢◌, ◌⊎◌, inl, inr, Bool, true, false, not, ◌&&◌, ◌||◌, Option, none,
  some, List, [], ◌∷◌, arith, ltb, ◌==◌, str_eq, if◌then◌else◌, and-true, or-false, not-false,
  raise_if-ok, raise_if-false, neqb→neq, ltb-false, str_eq→eq, ok, length, All, All-map, elem, ap,
  subst, Bool-cases, eq_iff,
}
use unifi_mcp.Settings.{
  Texts, ParsedUrl, UniFiSettings, bad_delays, remote_prometheus, bad_token_env,
  required_not_allowed, bad_algorithms, incomplete_http, bad_url, bad_path, bad_scopes, remote_http,
  filled, comma_items, subset, loopback_hosts, allowed_algorithms, bad_env, bad_parsed, url_of,
  bad_scope, same_scopes, check_http, validate,
}

-- A host on which only this machine is heard.
pub data Loopback : String → Type 0 where
  ipv4 : Loopback "127.0.0.1"
  ipv6 : Loopback "::1"
  named : Loopback "localhost"

-- An algorithm under which who can verify a token cannot sign one.
pub data Asymmetric : String → Type 0 where
  rs256 : Asymmetric "RS256"
  rs384 : Asymmetric "RS384"
  rs512 : Asymmetric "RS512"
  es256 : Asymmetric "ES256"
  es384 : Asymmetric "ES384"
  es512 : Asymmetric "ES512"

-- A part of a URL that is missing or empty.
abbrev pub Absent : Option String → Type 0
Absent part = (part ≡ none) ⊎ (part ≡ some "")

-- An HTTPS URL of some host, without credentials, query and fragment.
pub record SecureUrl (u : ParsedUrl) : Type 0 where
  pub scheme : u.scheme ≡ "https"
  pub netloc : u.netloc ≢ ""
  pub username : Absent u.username
  pub password : Absent u.password
  pub query : u.query ≡ ""
  pub fragment : u.fragment ≡ ""

-- The HTTP transport is complete: both URLs are HTTPS without credentials, the path is the one of the
-- public URL, the three scopes differ, and it listens on a loopback host unless remote is allowed.
pub record HttpSafe (t : Texts) (urlparse : String → ParsedUrl) (s : UniFiSettings) : Type 0 where
  pub issuer_url : (url : String) × (s.oidc_issuer ≡ some url) × SecureUrl (urlparse url)
  pub audience : (audience : String) × (s.oidc_audience ≡ some audience) × (audience ≢ "")
  pub public_url :
      (url : String) × (s.http_public_url ≡ some url)
      × SecureUrl (urlparse url)
      × ((urlparse url).path ≡ s.http_path)
  pub no_traversal : elem ".." (t.split_slashes s.http_path) ≡ false
  pub scopes :
      (s.oidc_read_scope ≢ s.oidc_write_scope)
      × (s.oidc_read_scope ≢ s.oidc_admin_scope)
      × (s.oidc_write_scope ≢ s.oidc_admin_scope)
  pub host : Loopback s.http_host ⊎ (s.http_allow_remote ≡ true)

pub record SafeSettings (t : Texts) (urlparse : String → ParsedUrl) (s : UniFiSettings)
    : Type 0 where
  pub delays : s.mutation_verify_initial_delay ≤ s.mutation_verify_max_delay
  pub prometheus :
      (s.prometheus_enabled ≡ false)
      ⊎ Loopback s.prometheus_host
      ⊎ ((s.prometheus_allow_remote ≡ true)
          × ((env : String) × (s.prometheus_bearer_token_env ≡ some env) × (env ≢ "")))
  pub plugins :
      All
        (λ name. elem name (comma_items t s.plugin_allowlist) ≡ true)
        (comma_items t s.plugin_required)
  pub algorithms :
      (1 ≤ length (comma_items t s.oidc_algorithms))
      × All Asymmetric (comma_items t s.oidc_algorithms)
  pub http : (s.streamable_http ≡ false) ⊎ HttpSafe t urlparse s

-- What holds of each text of a list holds of one that is found in it.
elem-All : (P : String → Type 0) (x : String) (ys : List String) → All P ys → elem x ys ≡ true → P x
elem-All P x [] all h = absurd (cc h)
elem-All P x (y ∷ ys) all h = elim (Bool-cases (str_eq y x)) [
  | inl same ↦ subst P (str_eq→eq y x same) all.0
  | inr other ↦ elem-All P x ys all.1 (ground (arith, other, h))
]

elem-Loopback : (host : String) → elem host loopback_hosts ≡ true → Loopback host
elem-Loopback host h = elem-All Loopback host loopback_hosts (ipv4, (ipv6, (named, tt))) h

elem-Asymmetric : (a : String) → elem a allowed_algorithms ≡ true → Asymmetric a
elem-Asymmetric a h =
    elem-All Asymmetric a allowed_algorithms
      (rs256, (rs384, (rs512, (es256, (es384, (es512, tt)))))) h

str_eq-ne : (s t : String) → str_eq s t ≡ false → s ≢ t
str_eq-ne s t h e = cc ((eq_iff s t).1 e)

filled-some : (o : Option String) → filled o ≡ true → (s : String) × (o ≡ some s) × (s ≢ "")
filled-some none h = cc
filled-some (some s) h = (s, refl, str_eq-ne s "" (not-true (str_eq s "") h))
  where
    not-true : (b : Bool) → not b ≡ true → b ≡ false
    not-true true k = cc
    not-true false k = refl

filled-Absent : (o : Option String) → filled o ≡ false → Absent o
filled-Absent none h = inl refl
filled-Absent (some s) h = inr (ap some (str_eq→eq s "" (not-false (str_eq s "") h)))

bad_parsed-SecureUrl : (u : ParsedUrl) → bad_parsed u ≡ false → SecureUrl u
bad_parsed-SecureUrl u h =
    let (h1, fragment) = or-false _ (not (str_eq u.fragment "")) h in
    let (h2, query) = or-false _ (not (str_eq u.query "")) h1 in
    let (h3, password) = or-false _ (filled u.password) h2 in
    let (h4, username) = or-false _ (filled u.username) h3 in
    let (scheme, netloc) = or-false (not (str_eq u.scheme "https")) (str_eq u.netloc "") h4 in
    record {
      scheme = str_eq→eq u.scheme "https" (not-false _ scheme);
      netloc = str_eq-ne u.netloc "" netloc;
      username = filled-Absent u.username username;
      password = filled-Absent u.password password;
      query = str_eq→eq u.query "" (not-false _ query);
      fragment = str_eq→eq u.fragment "" (not-false _ fragment);
    }

-- The URL that a setting holds, with what its check has shown of it.
url_of-Secure :
    (urlparse : String → ParsedUrl) (o : Option String) (path : String)
    → filled o ≡ true
    → bad_parsed (urlparse (url_of o)) ≡ false
    → (urlparse (url_of o)).path ≡ path
    → (url : String) × (o ≡ some url) × SecureUrl (urlparse url) × ((urlparse url).path ≡ path)
url_of-Secure urlparse none path h checked same = cc
url_of-Secure urlparse (some url) path h checked same =
    (url, refl, bad_parsed-SecureUrl (urlparse url) checked, same)

subset-All : (a b : List String) → subset a b ≡ true → All (λ x. elem x b ≡ true) a
subset-All [] b h = tt
subset-All (x ∷ a) b h =
    let (held, more) = and-true (elem x b) (subset a b) h in (held, subset-All a b more)

-- A combination that is refused leaves one of its ways out.
allowed : (t u : Bool) → (not t && not u) ≡ false → (t ≡ true) ⊎ (u ≡ true)
allowed true u h = inl refl
allowed false true h = inr refl
allowed false false h = cc

exposed :
    (on loopback remote token : Bool)
    → (on && not loopback && (not remote || not token)) ≡ false
    → (on ≡ false) ⊎ (loopback ≡ true) ⊎ ((remote ≡ true) × (token ≡ true))
exposed false loopback remote token h = inl refl
exposed true true remote token h = inr (inl refl)
exposed true false true true h = inr (inr (refl, refl))
exposed true false true false h = cc
exposed true false false token h = cc

in_left : {A B C : Type 0} → (A → B) → A ⊎ C → B ⊎ C
in_left f (inl a) = inl (f a)
in_left f (inr c) = inr c

check_http-HttpSafe :
    (t : Texts) (urlparse : String → ParsedUrl) (s : UniFiSettings)
    → check_http t urlparse s ≡ ok tt
    → HttpSafe t urlparse s
unfolding check_http
check_http-HttpSafe t urlparse s h =
    let (complete, h1) =
      raise_if-ok
        (not (filled s.oidc_issuer)
          || not (filled s.oidc_audience)
          || not (filled s.http_public_url))
        incomplete_http _ h in
    let (issuer_ok, h2) = raise_if-ok (bad_parsed (urlparse (url_of s.oidc_issuer))) bad_url _ h1 in
    let (public_ok, h3) =
      raise_if-ok (bad_parsed (urlparse (url_of s.http_public_url))) bad_url _ h2 in
    let (path_ok, h4) = raise_if-ok _ bad_path _ h3 in
    let (scopes_ok, h5) = raise_if-ok _ bad_scopes _ h4 in
    let host_ok = raise_if-false _ remote_http h5 in
    let (rest, no_public) =
      or-false (not (filled s.oidc_issuer) || not (filled s.oidc_audience))
        (not (filled s.http_public_url)) complete in
    let (no_issuer, no_audience) =
      or-false (not (filled s.oidc_issuer)) (not (filled s.oidc_audience)) rest in
    let (more, same) =
      or-false (not (t.starts_with_slash s.http_path) || elem ".." (t.split_slashes s.http_path))
        (not (str_eq (urlparse (url_of s.http_public_url)).path s.http_path)) path_ok in
    let (_, plain) =
      or-false (not (t.starts_with_slash s.http_path)) (elem ".." (t.split_slashes s.http_path))
        more in
    let (one, _) =
      or-false (same_scopes s || bad_scope t s.oidc_read_scope || bad_scope t s.oidc_write_scope)
        (bad_scope t s.oidc_admin_scope) scopes_ok in
    let (two, _) =
      or-false (same_scopes s || bad_scope t s.oidc_read_scope) (bad_scope t s.oidc_write_scope)
        one in
    let (differ, _) = or-false (same_scopes s) (bad_scope t s.oidc_read_scope) two in
    let same_path =
      str_eq→eq (urlparse (url_of s.http_public_url)).path s.http_path
        (not-false (str_eq (urlparse (url_of s.http_public_url)).path s.http_path) same) in
    let (read, write_admin) = or-false _ (str_eq s.oidc_write_scope s.oidc_admin_scope) differ in
    let (read_write, read_admin) =
      or-false (str_eq s.oidc_read_scope s.oidc_write_scope)
        (str_eq s.oidc_read_scope s.oidc_admin_scope) read in
    let (issuer, is_issuer, secure, _) =
      url_of-Secure urlparse s.oidc_issuer _ (not-false (filled s.oidc_issuer) no_issuer) issuer_ok
        refl in
    record {
      issuer_url = (issuer, is_issuer, secure);
      audience = filled-some s.oidc_audience (not-false (filled s.oidc_audience) no_audience);
      public_url =
          url_of-Secure urlparse s.http_public_url s.http_path
            (not-false (filled s.http_public_url) no_public) public_ok same_path;
      no_traversal = plain;
      scopes = (
        str_eq-ne s.oidc_read_scope s.oidc_write_scope read_write,
        str_eq-ne s.oidc_read_scope s.oidc_admin_scope read_admin,
        str_eq-ne s.oidc_write_scope s.oidc_admin_scope write_admin,
      );
      host =
          in_left (elem-Loopback s.http_host)
            (allowed (elem s.http_host loopback_hosts) s.http_allow_remote host_ok);
    }

-- Settings that pass validation let the server listen on a host that is not a loopback one only where
-- that is allowed (for Prometheus with a token besides), ask for tokens under asymmetric algorithms
-- only, require allowlisted plugins only, and, for the HTTP transport, name an HTTPS issuer and public
-- URL without credentials, a path without "..", and three different scopes.
pub validate-SafeSettings :
    (t : Texts) (urlparse : String → ParsedUrl) (s : UniFiSettings)
    → validate t urlparse s ≡ ok tt
    → SafeSettings t urlparse s
unfolding validate
validate-SafeSettings t urlparse s h =
    let (delays_ok, h1) =
      raise_if-ok (ltb s.mutation_verify_max_delay s.mutation_verify_initial_delay) bad_delays _
        h in
    let (prometheus_ok, h2) = raise_if-ok _ remote_prometheus _ h1 in
    let (_, h3) = raise_if-ok (bad_env t s.prometheus_bearer_token_env) bad_token_env _ h2 in
    let (plugins_ok, h4) =
      raise_if-ok
        (not (subset (comma_items t s.plugin_required) (comma_items t s.plugin_allowlist)))
        required_not_allowed _ h3 in
    let (algorithms_ok, h5) = raise_if-ok _ bad_algorithms _ h4 in
    let (some_algorithm, known) =
      or-false (length (comma_items t s.oidc_algorithms) == 0) _ algorithms_ok in
    record {
      delays = ltb-false s.mutation_verify_max_delay s.mutation_verify_initial_delay delays_ok;
      prometheus = served (
          exposed s.prometheus_enabled (elem s.prometheus_host loopback_hosts)
            s.prometheus_allow_remote (filled s.prometheus_bearer_token_env) prometheus_ok);
      plugins = subset-All _ _ (not-false _ plugins_ok);
      algorithms = (
        positive (length (comma_items t s.oidc_algorithms)) (neqb→neq _ 0 some_algorithm),
        All-map _ Asymmetric elem-Asymmetric _ (subset-All _ _ (not-false _ known)),
      );
      http = by_transport s.streamable_http refl h5;
    }
  where
    positive : (n : ℕ) → n ≢ 0 → 1 ≤ n
    positive n k = omega (arith, k)

    served :
        (s.prometheus_enabled ≡ false)
          ⊎ (elem s.prometheus_host loopback_hosts ≡ true)
          ⊎ ((s.prometheus_allow_remote ≡ true) × (filled s.prometheus_bearer_token_env ≡ true))
        → (s.prometheus_enabled ≡ false)
          ⊎ Loopback s.prometheus_host
          ⊎ ((s.prometheus_allow_remote ≡ true)
              × ((env : String) × (s.prometheus_bearer_token_env ≡ some env) × (env ≢ "")))
    served (inl off) = inl off
    served (inr (inl near)) = inr (inl (elem-Loopback s.prometheus_host near))
    served (inr (inr (remote, token))) =
        inr (inr (remote, filled-some s.prometheus_bearer_token_env token))

    by_transport :
        (http : Bool)
        → s.streamable_http ≡ http
        → (if http then check_http t urlparse s else ok tt) ≡ ok tt
        → (s.streamable_http ≡ false) ⊎ HttpSafe t urlparse s
    by_transport true eq k = inr (check_http-HttpSafe t urlparse s k)
    by_transport false eq k = inl eq
