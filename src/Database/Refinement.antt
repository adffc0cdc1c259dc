-- ===== src/Database/Refinement.antt =====
-- The database store does to runs what the in-memory store does, unless the database fails.
use dayu_water_agent.Prelude.{
  ◌+◌, ◌≡◌, refl, ◌∙◌, ap, sym, subst, String, not, some, [], ◌∷◌, ◌==◌, ◌⊎◌, inl, inr,
}
use dayu_water_agent.Errors.{
  failure, Failure, domain, key_error, task_cancelled, other_exception, Result, ok, err,
}
use dayu_water_agent.Json.{string}
use dayu_water_agent.Errors.Kinds.{cancellation_unavailable}
use dayu_water_agent.Runtime.State.{
  status_value, running, failed, cancelled, same_status, is_terminal, validate_run_transition,
  run_started, run_failed, run_cancelled, AgentRun, CancelResult, CancelDisposition,
  newly_cancelled, already_cancelled, already_terminal,
}
use dayu_water_agent.Memory.Store.{MemoryStore, Stamp, Exec}
use dayu_water_agent.Memory.Lifecycle
use dayu_water_agent.Memory.Lifecycle.{status_payload}
use dayu_water_agent.Memory.Cases.{started, failed_with, cancelled_run}
use dayu_water_agent.Memory.Calls.{Call}
use dayu_water_agent.Memory.Invariant.{IsValid}
use dayu_water_agent.Memory.Contract.Atomicity.{IsAtomic, call-IsAtomic}
use dayu_water_agent.Database.Models.{AgentRunModel, parse_status-status_value}
use dayu_water_agent.Database.Engine.{
  Answer, rows, integrity_error, database_error, Database, IsDatabase,
}
use dayu_water_agent.Database.Transactions.{
  finish, Ending, done, conflicted, broken, raised, Tx, close, method, translated, transaction,
  returned, shown, unavailable, status_of,
}
use dayu_water_agent.Database.Lifecycle.{
  marked, mark_run_running, attempted, increment_run_attempt, failing, fail_run, failed_row,
  cancelling, cancel_run, cancelled_row, cancel_outcome,
}
use dayu_water_agent.Database.Updates.{Sim-advance, Sim-update}
use dayu_water_agent.Database.Simulation.{
  Reads, Reads-run_record, Related, Agree, Sim, Sim-shown, Sim-if, Sim-check, Sim-locked, Sim-raise,
  running-or-checked,
}

module _ (D : Database) where
  -- The database has failed and holds what it held, or the two results are the same and the two stores
  -- hold the same runs.
  abbrev pub Agrees :
      {B : Type 0} → String → D.Db → Result B × D.Db → Result B × MemoryStore → Type 0
  Agrees operation d (x, d') (y, s') =
      ((x ≡ err (unavailable operation)) × (d' ≡ d)) ⊎ ((x ≡ y) × Related D d' s')

  module _ {A B : Type 0} (operation : String) (convert : A → Result B) (R : A → B → Type 0)
      (reads : (a : A) (b : B) → R a b → convert a ≡ ok b) where
    committed-Agrees :
        (a : A) (b : B) (d d1 rolled : D.Db) (s1 : MemoryStore) (x : Answer D.Db)
        → rolled ≡ d
        → ((d2 : D.Db) → x ≡ rows d2 → d2 ≡ d1)
        → R a b
        → Related D d1 s1
        → Agrees operation d
            (returned D convert (translated operation (finish a x rolled).0, (finish a x rolled).1))
            (ok b, s1)
    unfolding translated
    committed-Agrees a b d d1 rolled s1 (rows d2) back same h p =
        inr (reads a b h, subst (λ z. Related D z s1) (sym (same d2 refl)) p)
    committed-Agrees a b d d1 rolled s1 integrity_error back same h p = inl (refl, back)
    committed-Agrees a b d d1 rolled s1 database_error back same h p = inl (refl, back)

    raised-same : (f : Failure) (s s1 : MemoryStore) → IsAtomic {A = B} s (err f, s1) → s1 ≡ s
    raised-same (domain e) s s1 h = h
    raised-same (key_error k) s s1 h = absurd h
    raised-same task_cancelled s s1 h = absurd h
    raised-same other_exception s s1 h = absurd h

    closed-Agrees :
        (L : IsDatabase D) (d : D.Db) (s : MemoryStore) (x : Ending A × D.Db)
        (y : Result B × MemoryStore)
        → Related D d s
        → Agree D (Related D) R x y
        → IsAtomic s y
        → Agrees operation d
            (returned D convert (
              translated operation (close D.commit D.rollback x d).0,
              (close D.commit D.rollback x d).1,
            ))
            y
    unfolding translated
    closed-Agrees L d s (conflicted, d1) y p h t = inl (refl, L.rollback_lem d d1)
    closed-Agrees L d s (broken, d1) y p h t = inl (refl, L.rollback_lem d d1)
    closed-Agrees L d s (done a, d1) (ok b, s1) p h t =
        committed-Agrees a b d d1 (D.rollback d d1) s1 (D.commit d1) (L.rollback_lem d d1)
          (λ d2 e. L.commit_lem d1 d2 e) h.0 h.1
    closed-Agrees L d s (done a, d1) (err f, s1) p h t = absurd h
    closed-Agrees L d s (raised e, d1) (ok b, s1) p h t = absurd h
    closed-Agrees L d s (raised e, d1) (err f, s1) p h t = inr (
      ap err h,
      subst (λ z. Related D z s1) (sym (L.rollback_lem d d1))
          (subst (λ z. Related D d z) (sym (raised-same f s s1 t)) p),
    )

    method-Agrees :
        (L : IsDatabase D) (m : Tx D.Db A) (n : Exec B) (d : D.Db) (s : MemoryStore)
        → Sim D A B (Related D) (Related D) R m n
        → Related D d s
        → IsAtomic s (n s)
        → Agrees operation d (returned D convert (method D operation m d)) (n s)
    unfolding method transaction
    method-Agrees L m n d s sim p t = closed-Agrees L d s (m d) (n s) p (sim.at d s p) t

  -- A row that takes a status is read with that status.
  status_of-Reads :
      (row : AgentRunModel) (r : AgentRun) → Reads D row r → status_of row ≡ ok r.status
  status_of-Reads row r same = rw same.status refl

  abbrev started_row : AgentRunModel → String → Stamp → AgentRunModel
  started_row row worker stamp = record row {
    status = status_value running;
    started_at = some stamp.now;
    worker_instance_id = worker;
  }

  started-Reads :
      (row : AgentRunModel) (r : AgentRun) (worker : String) (stamp : Stamp)
      → Reads D row r
      → Reads D (started_row row worker stamp) (started r worker stamp)
  started-Reads row r worker stamp same = record {
    status = parse_status-status_value running;
    usage = same.usage;
    fields = ap (λ x. started x worker stamp) same.fields;
  }

  failed-Reads :
      (row : AgentRunModel) (r : AgentRun) (code : String) (stamp : Stamp)
      → Reads D row r
      → Reads D (failed_row D row code stamp) (failed_with r code stamp)
  failed-Reads row r code stamp same = record {
    status = parse_status-status_value failed;
    usage = same.usage;
    fields = ap (λ x. failed_with x code stamp) same.fields;
  }

  cancelled-Reads :
      (row : AgentRunModel) (r : AgentRun) (stamp : Stamp)
      → Reads D row r
      → Reads D (cancelled_row D row stamp) (cancelled_run r stamp)
  cancelled-Reads row r stamp same = record {
    status = parse_status-status_value cancelled;
    usage = same.usage;
    fields = ap (λ x. cancelled_run x stamp) same.fields;
  }

  marked-Sim :
      (L : IsDatabase D) (id worker : String) (stamp : Stamp)
      → Sim D AgentRunModel AgentRun
          (Related D)
          (Related D)
          (Reads D)
          (marked D id worker stamp)
          (Lifecycle.mark_run_running id worker stamp)
  unfolding marked Lifecycle.mark_run_running
  marked-Sim L id worker stamp = Sim-locked D (Related D) (Reads D) L id λ row r same named.
      rw same.status (
        Sim-check D (validate_run_transition r.status running) λ _.
          let after = started-Reads row r worker stamp same in
          Sim-advance D (Reads D) (started_row row worker stamp) (started r worker stamp) L id
            (started_row row worker stamp) (started r worker stamp) run_started
            (status_payload running) stamp after after named)

  failing-Sim :
      (L : IsDatabase D) (id code : String) (stamp : Stamp)
      → Sim D AgentRunModel AgentRun
          (Related D)
          (Related D)
          (Reads D)
          (failing D id code stamp)
          (Lifecycle.fail_run id code stamp)
  unfolding failing Lifecycle.fail_run
  failing-Sim L id code stamp = Sim-locked D (Related D) (Reads D) L id λ row r same named.
      rw same.status
        let after = failed-Reads row r code stamp same in
          (Sim-if D (is_terminal r.status) (is_terminal r.status) refl
            (Sim-shown D row r row r same (λ d s p. p.0) same)
            (Sim-check D (validate_run_transition r.status failed) λ _.
              Sim-advance D (Reads D) (failed_row D row code stamp) (failed_with r code stamp) L id
                (failed_row D row code stamp) (failed_with r code stamp) run_failed
                (("status", string (status_value failed)) ∷ ("error_code", string code) ∷ []) stamp
                after after named))

  abbrev attempted_row : AgentRunModel → AgentRunModel
  attempted_row row = record row { attempt_count = row.attempt_count + 1 }

  incremented : AgentRun → AgentRun
  incremented r = record r { attempt_count = r.attempt_count + 1 }

  attempted-Reads :
      (row : AgentRunModel) (r : AgentRun)
      → Reads D row r
      → Reads D (attempted_row row) (incremented r)
  unfolding incremented
  attempted-Reads row r same = record {
    status = same.status;
    usage = same.usage;
    fields = ap incremented same.fields;
  }

  attempted-Sim :
      (L : IsDatabase D) (id : String)
      → Sim D AgentRunModel AgentRun
          (Related D)
          (Related D)
          (Reads D)
          (attempted D id)
          (Lifecycle.increment_run_attempt id)
  unfolding attempted Lifecycle.increment_run_attempt incremented
  attempted-Sim L id = Sim-locked D (Related D) (Reads D) L id λ row r same named. rw same.status (
      running-or-checked D (same_status r.status running) (validate_run_transition r.status running)
        (Sim-update D L id (attempted_row row) (incremented r) (attempted-Reads row r same) named))

  -- A disposition with a row, and the answer that is made of them.
  abbrev Answers : CancelDisposition × AgentRunModel → CancelResult → Type 0
  Answers (disposition, row) out = (out.disposition ≡ disposition) × Reads D row out.run

  abbrev unavailable_details : String → String → Failure
  unavailable_details id worker =
      failure cancellation_unavailable
        (("run_id", string id) ∷ ("worker_instance_id", string worker) ∷ [])

  cancelling-Sim :
      (L : IsDatabase D) (id worker : String) (stamp : Stamp)
      → Sim D
          (CancelDisposition × AgentRunModel)
          CancelResult
          (Related D)
          (Related D)
          Answers
          (cancelling D id worker stamp)
          (Lifecycle.cancel_run id worker stamp)
  unfolding cancelling Lifecycle.cancel_run
  cancelling-Sim L id worker stamp = Sim-locked D (Related D) Answers L id λ row r same named.
      rw same.status
        let after = cancelled-Reads row r stamp same in
          let owner : row.worker_instance_id ≡ r.worker_instance_id =
            sym (ap (λ x. x.worker_instance_id) same.fields) in
          let id_same : row.id ≡ r.id = sym (ap (λ x. x.id) same.fields) in
          (Sim-if D (same_status r.status cancelled) (same_status r.status cancelled) refl
            (Sim-shown D row r (already_cancelled, row)
              (record { run = r; disposition = already_cancelled }) same (λ d s p. p.0)
              (refl, same))
            (Sim-if D (is_terminal r.status) (is_terminal r.status) refl
              (Sim-shown D row r (already_terminal, row)
                (record { run = r; disposition = already_terminal }) same (λ d s p. p.0)
                (refl, same))
              (Sim-if D (not (row.worker_instance_id == worker))
                (not (r.worker_instance_id == worker)) (ap (λ x. not (x == worker)) owner)
                (Sim-raise D (unavailable_details row.id row.worker_instance_id)
                  (unavailable_details r.id r.worker_instance_id)
                  (ap (λ x. unavailable_details x row.worker_instance_id) id_same
                    ∙ ap (unavailable_details r.id) owner))
                (Sim-check D (validate_run_transition r.status cancelled) λ _.
                  Sim-advance D Answers (newly_cancelled, cancelled_row D row stamp)
                    (record { run = cancelled_run r stamp; disposition = newly_cancelled }) L id
                    (cancelled_row D row stamp) (cancelled_run r stamp) run_cancelled
                    (status_payload cancelled) stamp (refl, after) after named))))

  answered-ok :
      (a : CancelDisposition × AgentRunModel) (b : CancelResult)
      → Answers a b
      → cancel_outcome D a ≡ ok b
  answered-ok (disposition, row) b h =
      rw (Reads-run_record D row b.run h.1) (ap (λ x. ok (record b { disposition = x })) (sym h.0))

  -- The database store refines the in-memory store on the lifecycle of runs: when the two hold the same
  -- runs, starting, attempting, failing and cancelling a run each give the same result in both, error
  -- or not, and leave them with the same runs, or the database fails and keeps what it held.
  pub lifecycle-Agrees :
      (L : IsDatabase D) (d : D.Db) (s : MemoryStore) (id worker code : String) (stamp : Stamp)
      → IsValid s
      → Related D d s
      → Agrees "mark_run_running" d
          (mark_run_running D id worker stamp d)
          (Lifecycle.mark_run_running id worker stamp s)
        × Agrees "increment_run_attempt" d
            (increment_run_attempt D id d)
            (Lifecycle.increment_run_attempt id s)
        × Agrees "fail_run" d (fail_run D id code stamp d) (Lifecycle.fail_run id code stamp s)
        × Agrees "cancel_run" d
            (cancel_run D id worker stamp d)
            (Lifecycle.cancel_run id worker stamp s)
  unfolding mark_run_running increment_run_attempt fail_run cancel_run
  lifecycle-Agrees L d s id worker code stamp v p = (
    method-Agrees "mark_run_running" (shown D) (Reads D) (Reads-run_record D) L _ _ d s
        (marked-Sim L id worker stamp) p
        (call-IsAtomic s (Call.mark_run_running id worker stamp) v tt),
    method-Agrees "increment_run_attempt" (shown D) (Reads D) (Reads-run_record D) L _ _ d s
        (attempted-Sim L id) p (call-IsAtomic s (Call.increment_run_attempt id) v tt),
    method-Agrees "fail_run" (shown D) (Reads D) (Reads-run_record D) L _ _ d s
        (failing-Sim L id code stamp) p (call-IsAtomic s (Call.fail_run id code stamp) v tt),
    method-Agrees "cancel_run" (cancel_outcome D) Answers answered-ok L _ _ d s
        (cancelling-Sim L id worker stamp) p
        (call-IsAtomic s (Call.cancel_run id worker stamp) v tt),
  )
