-- ===== src/Destinations/Ssrf.antt =====
-- What a webhook request can reach.
use unifi_mcp.Base.{
  ℕ, ◌≤◌, String, ◌≡◌, refl, ◌≢◌, ◌⊎◌, inl, inr, Bool, true, false, not, ◌||◌, Option, none, some,
  List, [], ◌∷◌, map, arith, eq_iff, ◌==◌, str_eq, if◌then◌else◌, Bool-cases, Option-cases, Result,
  ok, err, raise_if, bind-ok, length, All, sorted_set, All-sorted_set, sorted_set-pos,
}
use unifi_mcp.Destinations.{
  SplitResult, IpAddress, DestinationError, not_https, has_credentials, has_fragment, no_address,
  ValidatedWebhookDestination, Post, responds, http_error, PostError, transport_error, other_error,
  assertion_error, is_some, addresses_of, check_global, check_hostname, validate_webhook_url,
  PinnedUrl, pinned, pinned_urls, post_first, post_validated,
}

-- The text is an address, and a global one.
abbrev pub Global : IpAddress → String → Type 0
Global ip a = (x : ip.Address) × (ip.ip_address a ≡ some x) × (ip.is_global x ≡ true)

-- What a validated destination has passed.
pub record Passed (ip : IpAddress) (allow_private : Bool) (d : ValidatedWebhookDestination)
    : Type 0 where
  pub https : d.parsed.scheme ≡ "https"
  pub no_username : d.parsed.username ≡ none
  pub no_password : d.parsed.password ≡ none
  pub no_fragment : d.parsed.fragment ≡ ""
  pub found : 1 ≤ length d.addresses
  pub reachable : (allow_private ≡ true) ⊎ All (Global ip) d.addresses

is_some-false : (o : Option String) → is_some o ≡ false → o ≡ none
is_some-false none h = refl
is_some-false (some s) h = cc

module _ (ip : IpAddress) where
  check_global-Global :
      (addresses : List String) → check_global ip addresses ≡ ok tt → All (Global ip) addresses
  unfolding check_global
  check_global-Global [] h = tt
  check_global-Global (a ∷ more) h = elim (Option-cases (ip.ip_address a)) [
    | inl unread ↦ cc (rw (unread, check_global) at h)
    | inr (x, read) ↦ elim (Bool-cases (ip.is_global x)) [
      | inl global ↦
          ((x, read, global), check_global-Global more (rw (read, global, check_global) at h))
      | inr local ↦ cc (rw (read, local, check_global) at h)
    ]
  ]

  check_reachable :
      (allow_private : Bool) (addresses : List String) (u : Unit {0})
      → (if allow_private then ok tt else check_global ip addresses) ≡ ok u
      → (allow_private ≡ true) ⊎ All (Global ip) (sorted_set addresses)
  check_reachable true addresses u h = inl refl
  check_reachable false addresses u h =
      inr (All-sorted_set (Global ip) addresses (check_global-Global addresses h))

  -- A URL that passes validation is HTTPS, has no credentials and no fragment, has at least one
  -- address, and, unless private destinations are allowed, has only global ones.
  pub validate_webhook_url-Passed :
      (allow_private : Bool) (resolver : String → Option (List String)) (parsed : SplitResult)
      (d : ValidatedWebhookDestination)
      → validate_webhook_url ip allow_private resolver parsed ≡ ok d
      → Passed ip allow_private d × (d.parsed ≡ parsed)
  unfolding validate_webhook_url
  validate_webhook_url-Passed allow_private resolver parsed d h =
      let (_, https, h1) = bind-ok (raise_if (not (str_eq parsed.scheme "https")) not_https) _ h in
      let (_, plain, h2) =
        bind-ok (raise_if (is_some parsed.username || is_some parsed.password) has_credentials) _
          h1 in
      let (_, whole, h3) = bind-ok (raise_if (not (str_eq parsed.fragment "")) has_fragment) _ h2 in
      let (hostname, named, h4) = bind-ok (check_hostname ip parsed.hostname) _ h3 in
      let (addresses, resolved, h5) = bind-ok (addresses_of ip resolver hostname) _ h4 in
      let (_, some_address, h6) = bind-ok (raise_if (length addresses == 0) no_address) _ h5 in
      let (u, global, h7) =
        bind-ok (if allow_private then ok tt else check_global ip addresses) _ h6 in
      let whole_d : record { parsed = parsed; addresses = sorted_set addresses } ≡ d = cc h7 in
      rw (← whole_d) (
        record {
          https = ground (arith, https, eq_iff parsed.scheme "https");
          no_username = is_some-false parsed.username (ground (arith, plain));
          no_password = is_some-false parsed.password (ground (arith, plain));
          no_fragment = ground (arith, whole, eq_iff parsed.fragment "");
          found = sorted_set-pos addresses (ground (arith, some_address));
          reachable = check_reachable allow_private addresses u global;
        },
        refl,
      )

  abbrev GlobalUrl : PinnedUrl → Type 0
  GlobalUrl u = Global ip u.address

  All-pinned :
      (port : Option ℕ) (addresses : List String)
      → All (Global ip) addresses
      → All GlobalUrl (map (pinned port) addresses)
  All-pinned port [] h = tt
  All-pinned port (a ∷ more) h = (h.0, All-pinned port more h.1)

  All-post_first :
      (post : PinnedUrl → Post) (urls : List PinnedUrl) (last : Result PostError ℕ)
      → All GlobalUrl urls
      → All GlobalUrl (post_first post urls last).1
  unfolding post_first
  All-post_first post [] last h = tt
  All-post_first post (u ∷ us) last h =
      by_answer (post u) refl (All-post_first post us (err transport_error) h.1)
    where
      by_answer :
          (p : Post)
          → post u ≡ p
          → All GlobalUrl (post_first post us (err transport_error)).1
          → All GlobalUrl (post_first post (u ∷ us) last).1
      by_answer (responds status) e rest = rw (e, post_first) (h.0, tt)
      by_answer http_error e rest = rw (e, post_first) (h.0, rest)
      by_answer other_error e rest = rw (e, post_first) (h.0, tt)

post_first-ne-assertion :
    (post : PinnedUrl → Post) (urls : List PinnedUrl) (last : Result PostError ℕ)
    → (1 ≤ length urls) ⊎ (last ≢ err assertion_error)
    → (post_first post urls last).0 ≢ err assertion_error
unfolding post_first
post_first-ne-assertion post [] last (inl h) = absurd (omega arith)
post_first-ne-assertion post [] last (inr h) = h
post_first-ne-assertion post (u ∷ us) last h =
    by_answer (post u) refl (post_first-ne-assertion post us (err transport_error) (inr (λ e. cc)))
  where
    by_answer :
        (p : Post)
        → post u ≡ p
        → (post_first post us (err transport_error)).0 ≢ err assertion_error
        → (post_first post (u ∷ us) last).0 ≢ err assertion_error
    by_answer (responds status) e rest = rw (e, post_first) (λ q. cc)
    by_answer http_error e rest = rw (e, post_first) rest
    by_answer other_error e rest = rw (e, post_first) (λ q. cc)

length-pinned :
    (port : Option ℕ) (addresses : List String)
    → length (map (pinned port) addresses) ≡ length addresses
length-pinned port [] = refl
length-pinned port (a ∷ more) = omega (arith, length-pinned port more)

public_only : {A : Type 0} → (false ≡ true) ⊎ A → A
public_only (inl e) = cc
public_only (inr a) = a

-- Unless private destinations are allowed, every address that a webhook request contacts is a
-- global one, whatever the name resolves to; and the loop over the addresses never ends without an
-- error to raise, so its assertion holds.
pub post_validated-Global :
    (ip : IpAddress) (resolver : String → Option (List String)) (post : PinnedUrl → Post)
    (parsed : SplitResult)
    → let (result, contacted) = post_validated ip false resolver post parsed in
      All (λ u. Global ip u.address) contacted × (result ≢ err assertion_error)
unfolding post_validated pinned_urls
post_validated-Global ip resolver post parsed =
    by_validation (validate_webhook_url ip false resolver parsed) refl
  where
    by_validation :
        (v : Result DestinationError ValidatedWebhookDestination)
        → validate_webhook_url ip false resolver parsed ≡ v
        → All (λ u. Global ip u.address) (post_validated ip false resolver post parsed).1
          × ((post_validated ip false resolver post parsed).0 ≢ err assertion_error)
    by_validation (err e) h = rw (h, post_validated) (tt, λ q. cc)
    by_validation (ok d) h =
        let passed = (validate_webhook_url-Passed ip false resolver parsed d h).0 in
        elim (Bool-cases parsed.port_invalid) [
          | inl bad ↦ rw (h, post_validated) (rw bad (tt, λ q. cc))
          | inr good ↦
              rw (h, post_validated)
                (rw good (
                  All-post_first ip post (pinned_urls d) (err assertion_error)
                      (All-pinned ip d.parsed.port d.addresses (public_only passed.reachable)),
                  post_first-ne-assertion post (pinned_urls d) (err assertion_error)
                      (inl (omega (arith, length-pinned d.parsed.port d.addresses, passed.found))),
                ))
        ]
