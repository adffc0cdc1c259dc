-- ===== src/Supervisor/Stages.antt =====
-- The stages of a task, its start, its commit and its `except` clauses, keep the runs and the tasks
-- together.
use dayu_water_agent.Prelude.{
  String, ◌≡◌, refl, sym, subst, true, false, some, arith, inl, inr, eq_iff, ℕ,
}
use dayu_water_agent.Dict.{get, put}
use dayu_water_agent.Errors.{
  Failure, domain, key_error, task_cancelled, other_exception, Result, ok, err, Result-cases,
}
use dayu_water_agent.Errors.Kinds.{error_code, provider}
use dayu_water_agent.Runtime.Result.{AgentResult}
use dayu_water_agent.Runtime.State.{is_active, is_terminal, AgentRun, CancelResult}
use dayu_water_agent.Memory.Store.{MemoryStore, Stamp}
use dayu_water_agent.Memory.Lifecycle.{mark_run_running, commit_run_success, fail_run, cancel_run}
use dayu_water_agent.Memory.Calls.{Call, step}
use dayu_water_agent.Supervisor.Execution
use dayu_water_agent.Supervisor.Execution.{Execution, Outcome, caught, commit}
use dayu_water_agent.Supervisor.Endings.{
  fail_run-finished, IsReleased, cancel_run-IsReleased, committed_run,
}
use dayu_water_agent.Supervisor.Bounds.{Attempted}
use dayu_water_agent.Supervisor.Agent.{Host, working, ended, raising, Task, SupervisorAgent}
use dayu_water_agent.Supervisor.Tasks.{
  Executes, run_entered, enter, result_committed, commit_result, unit_of, closing, run_closed,
  close_run,
}
use dayu_water_agent.Supervisor.Owners.{step-Advance, mark_run_running-Advance}
use dayu_water_agent.Supervisor.Custody.{IsOwned, Advance-IsOwned, rephase-IsOwned}
use dayu_water_agent.Supervisor.Starts.{OwnedBy}
use dayu_water_agent.Supervisor.Moves.{finished-idle}

unit_of_store : {A : Type 0} (o : Result A × MemoryStore) → (unit_of o).1 ≡ o.1
unit_of_store (ok _, s) = refl
unit_of_store (err f, s) = refl

caught_store : (o : Result CancelResult × MemoryStore) → (caught o).1 ≡ o.1
unfolding caught
caught_store (ok _, s) = refl
caught_store (err (domain e), s) = refl
caught_store (err (key_error k), s) = refl
caught_store (err task_cancelled, s) = refl
caught_store (err other_exception, s) = refl

module _ (h : Host) where
  abbrev w : String
  w = h.worker_instance_id

  module _ (id : String) (t : Task) (a : SupervisorAgent) (o : OwnedBy h a)
      (at : get a.tasks id ≡ some t) where
    entered_run-IsOwned :
        (out : Result AgentRun × MemoryStore)
        → IsOwned w out.1 a.tasks
        → OwnedBy h (run_entered id t a out)
    entered_run-IsOwned (ok r, s) v = rephase-IsOwned w s a.tasks id t working at (λ _ _ _. refl) v
    entered_run-IsOwned (err f, s) v =
        rephase-IsOwned w s a.tasks id t (raising f) at (λ _ _ _. refl) v

    pub enter-IsOwned : (stamp : Stamp) → OwnedBy h (enter h id t stamp a)
    unfolding enter
    enter-IsOwned stamp =
        let s = a.session_store in
        let (r, stored, own, _) = o.fits id t at in
        let out = mark_run_running id w stamp s in
        entered_run-IsOwned out (
          Advance-IsOwned w s out.1 a.tasks
            (mark_run_running-Advance s id w stamp r o.valid stored own) o)

    Attempted-run : Attempted id 0 a.session_store
    Attempted-run =
        let (r, stored, _, _) = o.fits id t at in
        record { valid = o.valid; run = r; at = stored; count = omega arith }

    -- A task is done once its run is finished.
    pub ended-IsOwned :
        (s : MemoryStore)
        → ((r : AgentRun) → get s.runs id ≡ some r → is_active r.status ≡ false)
        → IsOwned w s a.tasks
        → IsOwned w s (put a.tasks id (record t { phase = ended }))
    ended-IsOwned s idle v =
        rephase-IsOwned w s a.tasks id t ended at
          (λ r stored active. absurd (ground (arith, idle r stored, active))) v

    committed_result-IsOwned :
        (duration : ℕ) (out : Outcome)
        → ((result : AgentResult)
            → out.0 ≡ ok result
            → (r : AgentRun) → get out.1.runs id ≡ some r
            → is_active r.status ≡ false)
        → IsOwned w out.1 a.tasks
        → OwnedBy h (result_committed id t duration a out)
    committed_result-IsOwned duration (ok result, s) idle v = ended-IsOwned s (idle result refl) v
    committed_result-IsOwned duration (err f, s) idle v =
        rephase-IsOwned w s a.tasks id t (raising f) at (λ _ _ _. refl) v

    -- What `commit` answers and stores, by the call of the store.
    commit-split :
        (x : Execution) (result : AgentResult) (s : MemoryStore)
        → x.run_id ≡ id
        → IsOwned w s a.tasks
        → ((out : AgentResult)
            → (commit x (ok result, s)).0 ≡ ok out
            → (r : AgentRun) → get (commit x (ok result, s)).1.runs id ≡ some r
            → is_active r.status ≡ false)
          × IsOwned w (commit x (ok result, s)).1 a.tasks
    unfolding commit Execution.committed is_active
    commit-split x result s same v =
        let turn = x.turn result in
        let call =
          commit_run_success x.run_id turn x.user_stamp x.assistant_stamp x.commit_stamp s in
        let kept =
          Advance-IsOwned w s call.1 a.tasks
            (unfold step in
              step-Advance s
                (Call.commit_run_success x.run_id turn x.user_stamp x.assistant_stamp
                  x.commit_stamp)
                tt v.valid)
            v in
        elim (Result-cases call.0) [
          | inl (r, e) ↦
              let (there, complete, _, _) =
                committed_run s x.run_id turn x.user_stamp x.assistant_stamp x.commit_stamp r
                  v.valid e in
              rw e (
                (λ out _ r' stored.
                    let one : r ≡ r' = ground (arith, there, stored, same) in
                    rw (← one) (rw complete refl)),
                kept,
              )
          | inr (f, e) ↦
              rw e ((λ out impossible r' stored. absurd (ground (arith, impossible))), kept)
        ]

    pub commit_result-IsOwned :
        (x : Execution) (result : AgentResult) (duration : ℕ)
        → Executes h id t x
        → OwnedBy h (commit_result x id t result duration a)
    unfolding commit_result
    commit_result-IsOwned x result duration runs =
        let (idle, kept) = commit-split x result a.session_store runs.run_id o in
        committed_result-IsOwned duration (commit x (ok result, a.session_store)) idle kept

    -- The run is not active any more.
    abbrev Closed : MemoryStore → Type 0
    Closed s =
        IsOwned w s a.tasks × ((r : AgentRun) → get s.runs id ≡ some r → is_active r.status ≡ false)

    failing-Closed :
        (code : String) (stamp : Stamp)
        → Closed (unit_of (fail_run id code stamp a.session_store)).1
    failing-Closed code stamp =
        let s = a.session_store in
        let call = fail_run id code stamp s in
        let (r, _, there, over) = fail_run-finished id code stamp s Attempted-run in
        subst Closed (sym (unit_of_store call)) (
          Advance-IsOwned w s call.1 a.tasks
              (unfold step in step-Advance s (Call.fail_run id code stamp) tt o.valid) o,
          λ r' at'. finished-idle call.1 id r r' there over at',
        )

    releasing-Closed : (stamp : Stamp) → Closed (caught (cancel_run id w stamp a.session_store)).1
    releasing-Closed stamp =
        let s = a.session_store in
        let call = cancel_run id w stamp s in
        let v =
          Advance-IsOwned w s call.1 a.tasks
            (unfold step in step-Advance s (Call.cancel_run id w stamp) tt o.valid) o in
        let (_, free) = cancel_run-IsReleased id w stamp s Attempted-run in
        let (r, there, over) = subst (IsReleased id w) (caught_store call) free in
        let (r0, there0, own, _) = v.fits id t at in
        let same : r0 ≡ r = ground (arith, there, there0) in
        let finished : is_terminal r.status ≡ true =
          ground (arith, over, own, same, eq_iff r.worker_instance_id w) in
        subst Closed (sym (caught_store call))
          (v, λ r' at'. finished-idle call.1 id r r' there finished at')

    closing-Closed :
        (x : Execution) (f : Failure) → Executes h id t x → Closed (closing x f a.session_store).1
    unfolding closing Execution.ensure_cancelled_if_active
    closing-Closed x task_cancelled runs =
        rw (runs.run_id, runs.worker) (releasing-Closed x.close_stamp)
    closing-Closed x (domain e) runs =
        rw (runs.run_id) (failing-Closed (error_code e.kind) x.close_stamp)
    closing-Closed x (key_error k) runs =
        rw (runs.run_id) (failing-Closed (error_code provider) x.close_stamp)
    closing-Closed x other_exception runs =
        rw (runs.run_id) (failing-Closed (error_code provider) x.close_stamp)

    run_closed-IsOwned :
        (f : Failure) (duration : ℕ) (out : Result (Unit {0}) × MemoryStore)
        → Closed out.1
        → OwnedBy h (run_closed id t f duration a out)
    run_closed-IsOwned f duration (ok u, s) (v, idle) = ended-IsOwned s idle v
    run_closed-IsOwned f duration (err g, s) (v, idle) = ended-IsOwned s idle v

    pub close_run-IsOwned :
        (x : Execution) (f : Failure) (duration : ℕ)
        → Executes h id t x
        → OwnedBy h (close_run x id t f duration a)
    unfolding close_run
    close_run-IsOwned x f duration runs =
        run_closed-IsOwned f duration (closing x f a.session_store) (closing-Closed x f runs)
