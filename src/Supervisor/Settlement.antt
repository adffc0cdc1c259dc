-- ===== src/Supervisor/Settlement.antt =====
-- How the task of a run leaves it.
use dayu_water_agent.Prelude.{sym, String, ◌≡◌, refl, ◌∙◌, ap, some, arith, inl, inr, ◌⊎◌}
use dayu_water_agent.Dict.{get}
use dayu_water_agent.Errors.{
  Failure, domain, key_error, task_cancelled, other_exception, Result, ok, err, Result-cases,
}
use dayu_water_agent.Runtime.Result.{AgentResult}
use dayu_water_agent.Runtime.State.{completed, is_terminal, AgentRun}
use dayu_water_agent.Memory.Store.{MemoryStore}
use dayu_water_agent.Memory.Lifecycle.{mark_run_running, commit_run_success, fail_run, cancel_run}
use dayu_water_agent.Memory.Invariant.{IsValid}
use dayu_water_agent.Memory.Calls.{Call, step, Future}
use dayu_water_agent.Supervisor.Bounds.{Attempted, Future-Attempted, step-Attempted, IsPeaceful}
use dayu_water_agent.Supervisor.Execution.{
  Execution, Outcome, caught, ensure_cancelled_if_active, raise_after, wrapped, handle, committed,
  commit, work_started, body, closed, execute_owned,
}
use dayu_water_agent.Supervisor.Endings.{
  IsFinished, fail_run-finished, IsReleased, cancel_run-IsReleased, committed_run,
}

-- What other tasks and the work of the run do to the store is calls of it.
pub record IsOrderly (x : Execution) : Type 0 where
  pub before : IsPeaceful x.before
  pub interlude : IsPeaceful x.interlude
  pub work : (s : MemoryStore) → Future s (x.work s).1

-- A task ends in one of two ways.
abbrev pub IsSettled : Execution → Outcome → Type 0
IsSettled x (out, t) =
    IsFinished x.run_id t
    ⊎ ((out ≡ err task_cancelled) × IsReleased x.run_id x.worker_instance_id t)

raise_after-ok {ℓ} :
    {A : Type ℓ} (f : Failure) (a : A) (p : Result A × MemoryStore)
    → p.0 ≡ ok a
    → raise_after f p ≡ (err f, p.1)
unfolding raise_after
raise_after-ok f a (ok b, s) e = refl
raise_after-ok f a (err g, s) e = absurd (ground arith)

failed-IsSettled :
    (x : Execution) (f : Failure) (code : String) (s : MemoryStore)
    → Attempted x.run_id 0 s
    → IsSettled x (raise_after f (fail_run x.run_id code x.close_stamp s))
failed-IsSettled x f code s a =
    let (r, out, there, done) = fail_run-finished x.run_id code x.close_stamp s a in
    rw (raise_after-ok f r (fail_run x.run_id code x.close_stamp s) out) (inl (r, there, done))

handle-IsSettled :
    (x : Execution) (f : Failure) (s : MemoryStore)
    → Attempted x.run_id 0 s
    → IsSettled x (handle x f s)
unfolding handle
handle-IsSettled x task_cancelled s a =
    let (out, free) = cancel_run-IsReleased x.run_id x.worker_instance_id x.close_stamp s a in
    unfold ensure_cancelled_if_active in
    rw
      (raise_after-ok task_cancelled tt
        (caught (cancel_run x.run_id x.worker_instance_id x.close_stamp s)) out)
      (inr (refl, free))
handle-IsSettled x (domain e) s a = failed-IsSettled x (domain e) _ s a
handle-IsSettled x (key_error k) s a = failed-IsSettled x (domain (wrapped x)) _ s a
handle-IsSettled x other_exception s a = failed-IsSettled x (domain (wrapped x)) _ s a

started-Attempted :
    (x : Execution) (s : MemoryStore)
    → IsOrderly x
    → Attempted x.run_id 0 s
    → Attempted x.run_id 0
        (mark_run_running x.run_id x.worker_instance_id x.start_stamp (x.before s)).1
unfolding step
started-Attempted x s o a =
    step-Attempted x.run_id 0 (x.before s)
      (Call.mark_run_running x.run_id x.worker_instance_id x.start_stamp) tt
      (Future-Attempted x.run_id 0 s (x.before s) (o.before s) a)

ended-Attempted :
    (x : Execution) (result : AgentResult) (s : MemoryStore)
    → Attempted x.run_id 0 s
    → Attempted x.run_id 0
        (commit_run_success x.run_id
          (x.turn result)
          x.user_stamp
          x.assistant_stamp
          x.commit_stamp
          s).1
unfolding step
ended-Attempted x result s a =
    step-Attempted x.run_id 0 s
      (Call.commit_run_success x.run_id (x.turn result) x.user_stamp x.assistant_stamp
        x.commit_stamp)
      tt a

commit-Attempted :
    (x : Execution) (p : Outcome) → Attempted x.run_id 0 p.1 → Attempted x.run_id 0 (commit x p).1
unfolding commit committed
commit-Attempted x (err f, s) a = a
commit-Attempted x (ok result, s) a =
    let b = ended-Attempted x result s a in
    elim (Result-cases
      (commit_run_success x.run_id (x.turn result) x.user_stamp x.assistant_stamp x.commit_stamp
        s).0) [ inl (r, e) ↦ rw e b | inr (f, e) ↦ rw e b ]

-- Every way to the end of the `try` keeps the run.
body-Attempted :
    (x : Execution) (s : MemoryStore)
    → IsOrderly x
    → Attempted x.run_id 0 s
    → Attempted x.run_id 0 (body x s).1
unfolding body work_started
body-Attempted x s o a =
    let c = started-Attempted x s o a in
    elim (Result-cases
      (mark_run_running x.run_id x.worker_instance_id x.start_stamp (x.before s)).0) [
        | inl (r, e) ↦
            rw e (commit-Attempted x (x.work _) (Future-Attempted x.run_id 0 _ _ (o.work _) c))
        | inr (f, e) ↦ rw e c
      ]

-- The run is completed in the store with this result and usage.
abbrev pub IsCompleted : Execution → AgentResult → MemoryStore → Type 0
IsCompleted x result t =
    (r : AgentRun) × (get t.runs x.run_id ≡ some r)
    × (r.status ≡ completed)
    × (r.result ≡ some (x.turn result).dumped)
    × (r.usage ≡ (x.turn result).result.usage)

commit-IsCompleted :
    (x : Execution) (p : Outcome) (result : AgentResult)
    → IsValid p.1
    → (commit x p).0 ≡ ok result
    → IsCompleted x result (commit x p).1
unfolding commit committed
commit-IsCompleted x (err f, s) result v e = absurd (ground arith)
commit-IsCompleted x (ok result', s) result v e =
    elim (Result-cases
      (commit_run_success x.run_id (x.turn result') x.user_stamp x.assistant_stamp x.commit_stamp
        s).0) [
          | inl (r, h) ↦
              let (there, done, out, usage) =
                committed_run s x.run_id (x.turn result') x.user_stamp x.assistant_stamp
                  x.commit_stamp r v h in
              let same : result' ≡ result = ground (arith, e, h) in
              rw (h, ← same) (r, there, done, out, usage)
          | inr (f, h) ↦ absurd (ground (arith, e, h))
        ]

work_started-ok :
    (x : Execution) (p : Result AgentRun × MemoryStore) (r : AgentRun)
    → p.0 ≡ ok r
    → work_started x p ≡ commit x (x.work p.1)
unfolding work_started
work_started-ok x (ok r', s) r e = refl
work_started-ok x (err f, s) r e = absurd (ground arith)

body-IsCompleted :
    (x : Execution) (s : MemoryStore) (result : AgentResult)
    → IsOrderly x
    → Attempted x.run_id 0 s
    → (body x s).0 ≡ ok result
    → IsCompleted x result (body x s).1
unfolding body
body-IsCompleted x s result o a e =
    let c = started-Attempted x s o a in
    elim (Result-cases
      (mark_run_running x.run_id x.worker_instance_id x.start_stamp (x.before s)).0) [
        | inl (r, h) ↦
            let b = Future-Attempted x.run_id 0 _ _ (o.work _) c in
            let same =
              work_started-ok x
                (mark_run_running x.run_id x.worker_instance_id x.start_stamp (x.before s)) r h in
            rw same (commit-IsCompleted x (x.work _) result b.valid (ap (λ q. q.0) (sym same) ∙ e))
        | inr (f, h) ↦ absurd (unfold work_started in ground (arith, e, h))
      ]

raise_after-raises {ℓ} :
    {A : Type ℓ} (f : Failure) (p : Result A × MemoryStore) (result : AgentResult)
    → ¬ ((raise_after f p).0 ≡ ok result)
unfolding raise_after
raise_after-raises f (ok b, s) result e = ground arith
raise_after-raises f (err g, s) result e = ground arith

handle-raises :
    (x : Execution) (f : Failure) (s : MemoryStore) (result : AgentResult)
    → ¬ ((handle x f s).0 ≡ ok result)
unfolding handle
handle-raises x task_cancelled s result e = raise_after-raises task_cancelled _ result e
handle-raises x (domain d) s result e = raise_after-raises (domain d) _ result e
handle-raises x (key_error k) s result e = raise_after-raises (domain (wrapped x)) _ result e
handle-raises x other_exception s result e = raise_after-raises (domain (wrapped x)) _ result e

closed-ok :
    (x : Execution) (p : Outcome) (result : AgentResult)
    → (closed x p).0 ≡ ok result
    → (p.0 ≡ ok result) × (closed x p ≡ p)
unfolding closed
closed-ok x (ok result', s) result e = (e, refl)
closed-ok x (err f, s) result e = absurd (handle-raises x f (x.interlude s) result e)

-- When the store is valid and holds the run, and other tasks and the work only make calls of it,
-- the task returns a result only when
-- the store holds the run as completed, with that result and its usage.
pub execute_owned-IsCompleted :
    (x : Execution) (s : MemoryStore) (r : AgentRun) (result : AgentResult)
    → IsOrderly x
    → IsValid s
    → get s.runs x.run_id ≡ some r
    → (execute_owned x s).0 ≡ ok result
    → IsCompleted x result (execute_owned x s).1
unfolding execute_owned
execute_owned-IsCompleted x s r result o v h e =
    let a : Attempted x.run_id 0 s = record { valid = v; run = r; at = h; count = omega arith } in
    let (out, same) = closed-ok x (body x s) result e in
    rw same (body-IsCompleted x s result o a out)

closed-IsSettled :
    (x : Execution) (p : Outcome)
    → IsOrderly x
    → Attempted x.run_id 0 p.1
    → ((result : AgentResult) → p.0 ≡ ok result → IsCompleted x result p.1)
    → IsSettled x (closed x p)
unfolding closed is_terminal
closed-IsSettled x (ok result, s) o a done =
    let (r, there, status, _, _) = done result refl in inl (r, there, rw status refl)
closed-IsSettled x (err f, s) o a done =
    handle-IsSettled x f (x.interlude s)
      (Future-Attempted x.run_id 0 s (x.interlude s) (o.interlude s) a)

-- When the store is valid and holds the run, and other tasks and the work only make calls of it,
-- the end of the run's task leaves the
-- run finished, however the work ends; only a cancelled task may leave it unfinished, and then the
-- run belongs to another worker.
pub execute_owned-IsSettled :
    (x : Execution) (s : MemoryStore) (r : AgentRun)
    → IsOrderly x
    → IsValid s
    → get s.runs x.run_id ≡ some r
    → IsSettled x (execute_owned x s)
unfolding execute_owned
execute_owned-IsSettled x s r o v h =
    let a : Attempted x.run_id 0 s = record { valid = v; run = r; at = h; count = omega arith } in
    closed-IsSettled x (body x s) o (body-Attempted x s o a)
      (λ result e. body-IsCompleted x s result o a e)
