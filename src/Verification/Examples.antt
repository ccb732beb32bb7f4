-- ===== src/Verification/Examples.antt =====
-- A controller that fails once, shows the old state once, and then the new one.
use unifi_mcp.Base.{
  ℕ, ◌-◌, ◌≤◌, String, ◌≡◌, refl, Bool, true, none, some, [], ◌∷◌, ◌==◌, if◌then◌else◌, Result, ok,
  err, All, length,
}
use unifi_mcp.Verification.{verify_eventually}
use unifi_mcp.Verification.Bounded.{Verified, verify_eventually-Verified}

abbrev fetch : ℕ → Result String ℕ
fetch attempt = if attempt == 0 then err "UniFiConnectionError" else ok attempt

abbrev evaluate : ℕ → Result String (Bool × ℕ)
evaluate n = ok (n == 2, n)

converges : verify_eventually fetch evaluate 5 10 15 ≡ record {
  matched = true;
  observed = some 2;
  error_type = none;
  reads = 3;
  pauses = 10 ∷ 15 ∷ [];
}
unfolding verify_eventually
converges = refl

verify_eventually-Verified_example :
    Verified fetch evaluate 5 (verify_eventually fetch evaluate 5 10 15)
    × All (λ p. p ≤ 15) (verify_eventually fetch evaluate 5 10 15).pauses
    × (length (verify_eventually fetch evaluate 5 10 15).pauses
        ≡ (verify_eventually fetch evaluate 5 10 15).reads - 1)
verify_eventually-Verified_example = verify_eventually-Verified fetch evaluate 10 15 5
