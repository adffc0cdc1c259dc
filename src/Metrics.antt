-- ===== src/Metrics.antt =====
-- src/dayu_agent/observability/metrics.py. The lock makes each method one step. A duration is a
-- number of a fixed small unit, and one that is negative is 0.
use dayu_water_agent.Prelude.{
  ℕ, ◌+◌, ◌-◌, ◌≤◌, ◌<◌, ◌≡◌, refl, Bool, false, ◌&&◌, arith, if◌then◌else◌,
}

pub record RuntimeMetrics : Type 0 where
  pub agent_runs_total : ℕ
  pub agent_runs_failed : ℕ
  pub agent_runs_cancelled : ℕ
  pub provider_attempts_total : ℕ
  pub provider_retries_total : ℕ
  pub agent_run_duration_count : ℕ
  pub agent_run_duration_sum_seconds : ℕ
  pub active_runs : ℕ
  pub stream_resume_total : ℕ

-- RuntimeMetrics()
abbrev pub new_metrics : RuntimeMetrics
new_metrics = record {
  agent_runs_total = 0;
  agent_runs_failed = 0;
  agent_runs_cancelled = 0;
  provider_attempts_total = 0;
  provider_retries_total = 0;
  agent_run_duration_count = 0;
  agent_run_duration_sum_seconds = 0;
  active_runs = 0;
  stream_resume_total = 0;
}

unfoldable pub run_started : RuntimeMetrics → RuntimeMetrics
run_started m = record m {
  agent_runs_total = m.agent_runs_total + 1;
  active_runs = m.active_runs + 1;
}

-- `max(0, active_runs - 1)` is the truncated difference.
unfoldable pub run_finished : ℕ → Bool → Bool → RuntimeMetrics → RuntimeMetrics
run_finished duration_seconds failed cancelled m = record m {
  active_runs = m.active_runs - 1;
  agent_run_duration_count = m.agent_run_duration_count + 1;
  agent_run_duration_sum_seconds = m.agent_run_duration_sum_seconds + duration_seconds;
  agent_runs_failed = if failed then m.agent_runs_failed + 1 else m.agent_runs_failed;
  agent_runs_cancelled = if cancelled then m.agent_runs_cancelled + 1 else m.agent_runs_cancelled;
}

unfoldable pub provider_attempt : RuntimeMetrics → RuntimeMetrics
provider_attempt m = record m { provider_attempts_total = m.provider_attempts_total + 1 }

unfoldable pub provider_retry : RuntimeMetrics → RuntimeMetrics
provider_retry m = record m { provider_retries_total = m.provider_retries_total + 1 }

unfoldable pub stream_resume : RuntimeMetrics → RuntimeMetrics
stream_resume m = record m { stream_resume_total = m.stream_resume_total + 1 }

-- Metrics that calls can reach when each run that finishes was started, and does not finish both
-- failed and cancelled.
pub data Recorded : RuntimeMetrics → Type 0 where
  fresh : Recorded new_metrics
  start : {m : RuntimeMetrics} → Recorded m → Recorded (run_started m)
  finish :
      {m : RuntimeMetrics}
      → Recorded m
      → (duration : ℕ) (failed cancelled : Bool) → 0 < m.active_runs
      → (failed && cancelled) ≡ false
      → Recorded (run_finished duration failed cancelled m)
  attempt : {m : RuntimeMetrics} → Recorded m → Recorded (provider_attempt m)
  retry : {m : RuntimeMetrics} → Recorded m → Recorded (provider_retry m)
  resume : {m : RuntimeMetrics} → Recorded m → Recorded (stream_resume m)

-- When each run that finishes was started, and none finishes both failed and cancelled: the active
-- runs are those that were started and are not finished, and the failed and the cancelled
-- runs are among the finished ones.
pub Recorded-balance :
    {m : RuntimeMetrics}
    → Recorded m
    → (m.active_runs + m.agent_run_duration_count ≡ m.agent_runs_total)
      × (m.agent_runs_failed + m.agent_runs_cancelled ≤ m.agent_run_duration_count)
unfolding run_started run_finished provider_attempt provider_retry stream_resume
Recorded-balance fresh = (refl, omega arith)
Recorded-balance (start h) = (omega (arith, Recorded-balance h), omega (arith, Recorded-balance h))
Recorded-balance (finish h duration failed cancelled pos excl) =
    (ground (arith, Recorded-balance h), ground (arith, Recorded-balance h))
Recorded-balance (attempt h) = Recorded-balance h
Recorded-balance (retry h) = Recorded-balance h
Recorded-balance (resume h) = Recorded-balance h
