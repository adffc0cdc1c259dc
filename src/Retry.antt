-- ===== src/Retry.antt =====
-- src/dayu_agent/runtime/retry.py: the retry budget of one run.
use dayu_water_agent.Prelude.{ℕ, ◌-◌, ◌≡◌, Bool, false, not, ◌&&◌, arith, ltb, if◌then◌else◌}

-- The floating-point numbers of the platform. All that is used of their order is that no number
-- is less than itself.
pub record FloatArith : Type 1 where
  pub Float : Type 0
  pub zero : Float
  pub half : Float
  pub add : Float → Float → Float
  pub sub : Float → Float → Float
  pub mul : Float → Float → Float
  pub power_of_two : ℕ → Float
  pub lt : Float → Float → Bool
  pub is_zero : Float → Bool
  pub lt_irrefl : (x : Float) → lt x x ≡ false

module _ (F : FloatArith) where
  open F use {Float, half, add, mul, power_of_two, lt, is_zero, lt_irrefl}

  pub record RetryBudget : Type 0 where
    pub max_attempts : ℕ
    pub max_elapsed_seconds : Float
    pub base_delay : Float
    pub max_delay : Float
    pub jitter : Bool

  -- Python's `min(a, b)`
  unfoldable pub smaller : Float → Float → Float
  smaller a b = if lt b a then b else a

  -- `max(0, failed_attempt - 1)` is the truncated difference.
  unfoldable pub delay_after : RetryBudget → ℕ → Float → Float
  unfolding smaller
  delay_after budget failed_attempt random_value =
      let delay =
        smaller budget.max_delay (mul budget.base_delay (power_of_two (failed_attempt - 1))) in
      let jittered =
        if budget.jitter && not (is_zero delay) then mul delay (add half random_value) else delay in
      smaller jittered budget.max_delay

  unfoldable pub permits_retry : RetryBudget → ℕ → Float → Float → Bool
  permits_retry budget failed_attempt elapsed delay =
      ltb failed_attempt budget.max_attempts && lt (add elapsed delay) budget.max_elapsed_seconds

  -- The backoff never exceeds the cap, whatever the attempt and the jitter.
  pub delay_after_bounds :
      (budget : RetryBudget) (failed_attempt : ℕ) (random_value : Float)
      → lt budget.max_delay (delay_after budget failed_attempt random_value) ≡ false
  unfolding delay_after
  delay_after_bounds budget failed_attempt random_value = grind (arith, lt_irrefl)
