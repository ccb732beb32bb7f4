-- ===== src/Oidc/Header.antt =====
-- auth/oidc.py: what a usable header and the metadata name.
use unifi_mcp.Base.{
  String, ◌≡◌, refl, ap, subst, Bool, true, false, not, ◌&&◌, Option, none, some, if◌then◌else◌,
  and-true, str_eq, Result, ok, err, elem,
}
use unifi_mcp.Base.Json.{Json, null, bool, int, neg, float, text, arr, obj}
use unifi_mcp.Oidc.{Failure, caught, Config}

module _ (cfg : Config) (algorithm key_id : String) where
  by_key_id :
      (named : String) (kid : Json)
      → (elim kid as (λ _. Option (String × String)) [
        | text k ↦ if elem named cfg.algorithms && not (str_eq k "") then some (named, k) else none
        | _ ↦ none
      ])
        ≡ some (algorithm, key_id)
      → (named ≡ algorithm) × (kid ≡ text key_id) × (elem algorithm cfg.algorithms ≡ true)
  by_key_id named (text k) h = by_test (elem named cfg.algorithms && not (str_eq k "")) refl h
    where
      by_test :
          (test : Bool)
          → (elem named cfg.algorithms && not (str_eq k "")) ≡ test
          → ◌≡◌ {A = Option (String × String)}
              (if test then some (named, k) else none)
              (some (algorithm, key_id))
          → (named ≡ algorithm) × (text k ≡ text key_id) × (elem algorithm cfg.algorithms ≡ true)
      by_test true is e =
          let both : ◌≡◌ {A = String × String} (named, k) (algorithm, key_id) = cc e in
          let same : named ≡ algorithm = ap (λ p. p.0) both in
          (
            same,
            ap (λ p. text p.1) both,
            subst (λ a. elem a cfg.algorithms ≡ true) same
                (and-true (elem named cfg.algorithms) _ is).0,
          )
      by_test false is e = absurd (cc e)
  by_key_id named null h = absurd (cc h)
  by_key_id named (bool b) h = absurd (cc h)
  by_key_id named (int n) h = absurd (cc h)
  by_key_id named (neg n) h = absurd (cc h)
  by_key_id named (float b s) h = absurd (cc h)
  by_key_id named (arr xs) h = absurd (cc h)
  by_key_id named (obj fs) h = absurd (cc h)

  -- A header that may be used names an allowed algorithm and a key.
  pub by_algorithm :
      (alg kid : Json)
      → (elim alg as (λ _. Option (String × String)) [
        | text a ↦ elim kid [
          | text k ↦ if elem a cfg.algorithms && not (str_eq k "") then some (a, k) else none
          | _ ↦ none
        ]
        | _ ↦ none
      ])
        ≡ some (algorithm, key_id)
      → (alg ≡ text algorithm) × (kid ≡ text key_id) × (elem algorithm cfg.algorithms ≡ true)
  by_algorithm (text a) kid h =
      let (same, named, allowed) = by_key_id a kid h in (ap (λ x. text x) same, named, allowed)
  by_algorithm null kid h = absurd (cc h)
  by_algorithm (bool b) kid h = absurd (cc h)
  by_algorithm (int n) kid h = absurd (cc h)
  by_algorithm (neg n) kid h = absurd (cc h)
  by_algorithm (float b s) kid h = absurd (cc h)
  by_algorithm (arr xs) kid h = absurd (cc h)
  by_algorithm (obj fs) kid h = absurd (cc h)

pub uri_of-text :
    (field : Option Json) (uri : String)
    → (elim field as (λ _. Result Failure String) [ some (text u) ↦ ok u | _ ↦ err caught ])
      ≡ ok uri
    → field ≡ some (text uri)
uri_of-text none uri h = absurd (cc h)
uri_of-text (some (text u)) uri h = let same : u ≡ uri = cc h in ap (λ x. some (text x)) same
uri_of-text (some null) uri h = absurd (cc h)
uri_of-text (some (bool b)) uri h = absurd (cc h)
uri_of-text (some (int n)) uri h = absurd (cc h)
uri_of-text (some (neg n)) uri h = absurd (cc h)
uri_of-text (some (float b s)) uri h = absurd (cc h)
uri_of-text (some (arr xs)) uri h = absurd (cc h)
uri_of-text (some (obj fs)) uri h = absurd (cc h)
