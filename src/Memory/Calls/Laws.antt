-- ===== src/Memory/Calls/Laws.antt =====
-- Every reachable store is valid.
use dayu_water_agent.Prelude.{refl, arith}
use dayu_water_agent.Dict.{get}
use dayu_water_agent.Memory.Store.{MemoryStore, empty}
use dayu_water_agent.Memory.Invariant.{IsValid}
use dayu_water_agent.Memory.Invariant.Steps.{
  mark_run_running-IsValid, increment_run_attempt-IsValid, append_stream_event-IsValid,
  commit_run_success-IsValid, fail_run-IsValid, cancel_run-IsValid,
}
use dayu_water_agent.Memory.Invariant.Reserve.{
  create_session-IsValid, append_message-IsValid, clear_session-IsValid, reserve_run-IsValid,
}
use dayu_water_agent.Memory.Interrupts.{
  interrupt_worker_runs-IsValid, reconcile_orphaned_runs-IsValid,
}
use dayu_water_agent.Memory.Pruning.{prune_stream_events-IsValid}
use dayu_water_agent.Memory.Calls.{
  Call, create_session, append_message, clear_session, reserve_run, mark_run_running,
  increment_run_attempt, append_stream_event, commit_run_success, fail_run, cancel_run,
  interrupt_worker_runs, reconcile_orphaned_runs, prune_stream_events, step, IsFresh, Reach, start,
  call,
}

pub empty-IsValid : IsValid empty
empty-IsValid =
    unfold get in
    record {
      distinct_runs = tt;
      distinct_events = tt;
      session_key = λ k x h. ground arith;
      run_key = λ k x h. ground arith;
      has_messages = λ k h. ground arith;
      has_events = λ k. refl;
      has_session = λ k r h. ground arith;
      single_active = λ j k a b h. ground arith;
      idempotent = λ key k h. absurd (ground arith);
      fields = λ k r h. absurd (ground arith);
      transcripts = λ k ms h. absurd (ground arith);
      streams = λ k es h. absurd (ground arith);
    }

-- Every call, whether it returns or raises, keeps a valid store valid, if a drawn run id is fresh.
pub step-IsValid : (s : MemoryStore) (c : Call) → IsFresh s c → IsValid s → IsValid (step s c)
unfolding step
step-IsValid s (create_session metadata id user stamp) f v =
    create_session-IsValid s v metadata id user stamp
step-IsValid s (append_message id role content metadata stamp) f v =
    append_message-IsValid s v id role content metadata stamp
step-IsValid s (clear_session id now) f v = clear_session-IsValid s v id now
step-IsValid s (reserve_run q session_stamp run_stamp) f v =
    reserve_run-IsValid s v q session_stamp run_stamp f
step-IsValid s (mark_run_running id worker stamp) f v = mark_run_running-IsValid s v id worker stamp
step-IsValid s (increment_run_attempt id) f v = increment_run_attempt-IsValid s v id
step-IsValid s (append_stream_event id type payload stamp) f v =
    append_stream_event-IsValid s v id type payload stamp
step-IsValid s (commit_run_success id turn a b stamp) f v =
    commit_run_success-IsValid s v id turn a b stamp
step-IsValid s (fail_run id error_code stamp) f v = fail_run-IsValid s v id error_code stamp
step-IsValid s (cancel_run id worker stamp) f v = cancel_run-IsValid s v id worker stamp
step-IsValid s (interrupt_worker_runs worker draw) f v =
    interrupt_worker_runs-IsValid s worker draw v
step-IsValid s (reconcile_orphaned_runs worker draw) f v =
    reconcile_orphaned_runs-IsValid s worker draw v
step-IsValid s (prune_stream_events before) f v = prune_stream_events-IsValid before s v

-- Every store that a sequence of calls by any tasks reaches from a new one, each run under a fresh
-- id, is valid: what it holds under a key has that id; a session has at most one active run, and it
-- is there; a bound idempotency key names a run with that key; the fields of a run fit its status;
-- a transcript is numbered from 1 without a gap; and a stream holds events of its run only.
pub Reach-IsValid : {s : MemoryStore} → Reach s → IsValid s
Reach-IsValid start = empty-IsValid
Reach-IsValid (call r c f) = step-IsValid _ c f (Reach-IsValid r)
