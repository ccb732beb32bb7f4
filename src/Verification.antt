-- ===== src/Verification.antt =====
-- tools/network/_verification.py: `verify_eventually`, and the results of a mutation.
pub mod Compare
pub mod Bounded
mod Examples
use unifi_mcp.Base.{
  ℕ, zero, suc, ◌+◌, ◌*◌, ◌^◌, min, String, Bool, true, false, Option, none, some, List, [], ◌∷◌,
  ◌++◌, Result, ok, err, ◌>>=◌, ◌>>◌,
}
use unifi_mcp.Base.Json.{}

-- `VerificationResult`, with what the loop has done: its reads, and its pauses.
pub record VerificationResult (O : Type 0) : Type 0 where
  pub matched : Bool
  pub observed : Option O
  pub error_type : Option String
  pub reads : ℕ
  pub pauses : List ℕ

-- asyncio.sleep(min(initial_delay * 2 ** attempt, max_delay)), after every attempt but the last
unfoldable pub sleep : (initial_delay max_delay attempt more : ℕ) → List ℕ → List ℕ
sleep initial_delay max_delay attempt zero pauses = pauses
sleep initial_delay max_delay attempt (suc more) pauses =
    pauses ++ min (initial_delay * 2 ^ attempt) max_delay ∷ []

module _ {T O : Type 0} where
  -- evaluate(await fetch()), either of which may raise; an exception is its class name.
  unfoldable pub read : Result String T → (T → Result String (Bool × O)) → Result String (Bool × O)
  read fetched evaluate = fetched >>= evaluate

  -- The attempts that are left, from `attempt` on; `fetch` answers each of them.
  unfoldable pub verify_from :
      (fetch : ℕ → Result String T) (evaluate : T → Result String (Bool × O))
      (initial_delay max_delay : ℕ) (left attempt : ℕ) (observed : Option O)
      (error_type : Option String) (pauses : List ℕ)
      → VerificationResult O
  unfolding read sleep
  verify_from fetch evaluate initial_delay max_delay zero attempt observed error_type pauses =
      record {
        matched = false;
        observed = observed;
        error_type = error_type;
        reads = attempt;
        pauses = pauses;
      }
  verify_from fetch evaluate initial_delay max_delay (suc left) attempt observed error_type pauses =
      let slept = sleep initial_delay max_delay attempt left pauses in
      elim (read (fetch attempt) evaluate) [
        | err name ↦
            verify_from fetch evaluate initial_delay max_delay left (attempt + 1) observed
              (some name) slept
        | ok (true, o) ↦ record {
          matched = true;
          observed = some o;
          error_type = none;
          reads = attempt + 1;
          pauses = pauses;
        }
        | ok (false, o) ↦
            verify_from fetch evaluate initial_delay max_delay left (attempt + 1) (some o) none
              slept
      ]

  unfoldable pub verify_eventually :
      (fetch : ℕ → Result String T) (evaluate : T → Result String (Bool × O))
      (attempts initial_delay max_delay : ℕ)
      → VerificationResult O
  unfolding verify_from
  verify_eventually fetch evaluate attempts initial_delay max_delay =
      verify_from fetch evaluate initial_delay max_delay attempts 0 none none []
