-- ===== src/Verification/Bounded.antt =====
-- What the result of a verification says of the reads that it made.
use unifi_mcp.Base.{
  ℕ, zero, suc, ◌+◌, ◌-◌, ◌≤◌, ◌<◌, String, ◌≡◌, refl, subst, Bool, true, false, Option, none, some,
  List, [], All, All-append, length, length-append, arith, Result, ok, err,
}
use unifi_mcp.Verification.{VerificationResult, sleep, read, verify_from, verify_eventually}

module _ {T O : Type 0} (fetch : ℕ → Result String T)
    (evaluate : T → Result String (Bool × O)) where
  -- The read of one attempt.
  abbrev pub seen : ℕ → Result String (Bool × O)
  seen attempt = read (fetch attempt) evaluate

  -- The read shows no match.
  pub data Unmatched : Result String (Bool × O) → Type 0 where
    differs : (o : O) → Unmatched (ok (false, o))
    fails : (name : String) → Unmatched (err name)

  -- `last o e n`: after the first `n` reads, none of which has matched, `o` is what the last
  -- successful one has observed, and `e` the exception of the last one, if it raised.
  pub data Last : Option O → Option String → ℕ → Type 0 where
    unread : Last none none 0
    observes :
        {o : Option O} {e : Option String} {n : ℕ} (x : O)
        → Last o e n
        → seen n ≡ ok (false, x)
        → Last (some x) none (n + 1)
    raises :
        {o : Option O} {e : Option String} {n : ℕ} (name : String)
        → Last o e n
        → seen n ≡ err name
        → Last o (some name) (n + 1)

  -- How a verification of `attempts` reads ends.
  pub data Verified (attempts : ℕ) (r : VerificationResult O) : Type 0 where
    match :
        {o : Option O} {e : Option String} (n : ℕ) (x : O)
        → Last o e n
        → n < attempts
        → seen n ≡ ok (true, x)
        → r.matched ≡ true
        → r.observed ≡ some x
        → r.error_type ≡ none
        → r.reads ≡ n + 1
        → Verified attempts r
    exhausted :
        Last r.observed r.error_type attempts
        → r.matched ≡ false
        → r.reads ≡ attempts
        → Verified attempts r

  module _ (initial_delay max_delay : ℕ) where
    verify_from-Verified :
        (left attempt : ℕ) (o : Option O) (e : Option String) (slept : List ℕ)
        → Last o e attempt
        → Verified
            (attempt + left)
            (verify_from fetch evaluate initial_delay max_delay left attempt o e slept)
    unfolding verify_from
    verify_from-Verified zero attempt o e slept last =
        subst
          (λ n. Verified n (verify_from fetch evaluate initial_delay max_delay 0 attempt o e slept))
          (omega arith) (exhausted last refl refl)
    verify_from-Verified (suc left) attempt o e slept last =
        by_read (seen attempt) refl (λ o' e' slept' last'.
          subst
            (λ n.
              Verified n (
                verify_from fetch evaluate initial_delay max_delay left (attempt + 1) o' e' slept'))
            (omega arith) (verify_from-Verified left (attempt + 1) o' e' slept' last'))
      where
        by_read :
            (r : Result String (Bool × O))
            → seen attempt ≡ r
            → ((o' : Option O) (e' : Option String) (slept' : List ℕ)
                → Last o' e' (attempt + 1)
                → Verified (attempt + suc left) (
                    verify_from fetch evaluate initial_delay max_delay left
                      (attempt + 1)
                      o'
                      e'
                      slept'))
            → Verified
                (attempt + suc left)
                (verify_from fetch evaluate initial_delay max_delay (suc left) attempt o e slept)
        by_read (err name) h more = rw (h, verify_from) (more o (some name) _ (raises name last h))
        by_read (ok (true, x)) h more =
            rw (h, verify_from) (match attempt x last (omega arith) h refl refl refl refl)
        by_read (ok (false, x)) h more =
            rw (h, verify_from) (more (some x) none _ (observes x last h))

    -- The pauses so far: one after each read, none of them too long.
    abbrev Paced : (left attempt : ℕ) → List ℕ → Type 0
    Paced zero attempt pauses = All (λ p. p ≤ max_delay) pauses × (length pauses ≡ attempt - 1)
    Paced (suc left) attempt pauses = All (λ p. p ≤ max_delay) pauses × (length pauses ≡ attempt)

    sleep-Paced :
        (left attempt : ℕ) (pauses : List ℕ)
        → Paced (suc left) attempt pauses
        → Paced left (attempt + 1) (sleep initial_delay max_delay attempt left pauses)
    unfolding sleep
    sleep-Paced zero attempt pauses (short, count) = (short, omega (arith, count))
    sleep-Paced (suc left) attempt pauses (short, count) = (
      All-append _ pauses _ short (ground arith, tt),
      omega (arith, count, length-append {0} pauses),
    )

    abbrev Rested : VerificationResult O → Type 0
    Rested r = All (λ p. p ≤ max_delay) r.pauses × (length r.pauses ≡ r.reads - 1)

    verify_from-Rested :
        (left attempt : ℕ) (o : Option O) (e : Option String) (pauses : List ℕ)
        → Paced left attempt pauses
        → Rested (verify_from fetch evaluate initial_delay max_delay left attempt o e pauses)
    unfolding verify_from
    verify_from-Rested zero attempt o e pauses paced = paced
    verify_from-Rested (suc left) attempt o e pauses paced = by_read (seen attempt) refl (λ o' e'.
        verify_from-Rested left (attempt + 1) o' e'
          (sleep initial_delay max_delay attempt left pauses)
          (sleep-Paced left attempt pauses paced))
      where
        by_read :
            (r : Result String (Bool × O))
            → seen attempt ≡ r
            → ((o' : Option O) (e' : Option String)
                → Rested (
                    verify_from fetch evaluate initial_delay max_delay left
                      (attempt + 1)
                      o'
                      e'
                      (sleep initial_delay max_delay attempt left pauses)))
            → Rested
                (verify_from fetch evaluate initial_delay max_delay (suc left) attempt o e pauses)
        by_read (err name) h more = rw (h, verify_from) (more o (some name))
        by_read (ok (true, x)) h more = rw (h, verify_from) (paced.0, omega (arith, paced.1))
        by_read (ok (false, x)) h more = rw (h, verify_from) (more (some x) none)

    -- The verification ends after at most `attempts` reads. It matches at the first read that
    -- matches, and reports what that one observed; otherwise it has made all the reads, reports what
    -- the last successful one observed, and names an exception only if the last read raised it. It
    -- makes one pause fewer than reads, and each of them is of at most `max_delay`.
    pub verify_eventually-Verified :
        (attempts : ℕ)
        → let r = verify_eventually fetch evaluate attempts initial_delay max_delay in
          Verified attempts r × All (λ p. p ≤ max_delay) r.pauses × (length r.pauses ≡ r.reads - 1)
    unfolding verify_eventually
    verify_eventually-Verified attempts =
        let rested = verify_from-Rested attempts 0 none none [] (starts attempts) in
        (
          subst
              (λ n.
                Verified n
                  (verify_from fetch evaluate initial_delay max_delay attempts 0 none none []))
              (omega arith) (verify_from-Verified attempts 0 none none [] unread),
          rested.0,
          rested.1,
        )
      where
        starts : (left : ℕ) → Paced left 0 []
        starts zero = (tt, omega arith)
        starts (suc left) = (tt, refl)
