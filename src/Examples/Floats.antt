-- ===== src/Examples/Floats.antt =====
-- Natural numbers in place of the platform's floating-point numbers, and a budget of them.
use dayu_water_agent.Prelude.{ℕ, ◌+◌, ◌-◌, ◌*◌, ◌^◌, ◌≡◌, true, false, ltb, leb, arith}
use dayu_water_agent.Retry.{FloatArith, RetryBudget, delay_after, delay_after_bounds}

pub ltb_irrefl : (x : ℕ) → ltb x x ≡ false
ltb_irrefl x = ground arith

abbrev pub whole : FloatArith
whole = record {
  Float = ℕ;
  zero = 0;
  half = 1;
  add = λ a b. a + b;
  sub = λ a b. a - b;
  mul = λ a b. a * b;
  power_of_two = λ n. 2 ^ n;
  lt = ltb;
  is_zero = λ a. leb a 0;
  lt_irrefl = ltb_irrefl;
}

abbrev pub budget : RetryBudget whole
budget = record {
  max_attempts = 2;
  max_elapsed_seconds = 120;
  base_delay = 1;
  max_delay = 8;
  jitter = true;
}

delay_after_bounds_example : ltb 8 (delay_after whole budget 5 1) ≡ false
delay_after_bounds_example = delay_after_bounds whole budget 5 1
