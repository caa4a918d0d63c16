-- ===== src/Proxy/Retry.antt =====
-- internal/proxy/retry.go: `withRetries`. An attempt reads and changes the world outside, and each runs
-- under a timeout of its own, which is a part of the attempt. Logging is left out.
pub mod First
use mitmania.Prelude.{ℕ, zero, suc, List, [], ◌∷◌}
use mitmania.Prelude.Int.{ℤ, pos, negsuc}

pub data Result (E A : Type 0) : Type 0 where
  value : A → Result E A
  error : E → Result E A

-- `misconfigured` stands for the error on a number of tries that is not positive.
module _ {World E A : Type 0} (misconfigured : E) (attempt : World → World × Result E A) where
  -- The rounds left behind an attempt.
  unfoldable pub rounds : ℕ → World × Result E A → World × Result E A
  rounds zero outcome = outcome
  rounds (suc n) (world, value a) = (world, value a)
  rounds (suc n) (world, error e) = rounds n (attempt world)

  unfoldable pub with_retries : ℤ → World → World × Result E A
  unfolding rounds
  with_retries (negsuc n) world = (world, error misconfigured)
  with_retries (pos zero) world = (world, error misconfigured)
  with_retries (pos (suc n)) world = rounds n (attempt world)
