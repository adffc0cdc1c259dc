-- ===== src/Supervisor/Halting.antt =====
-- What `shutdown` of the supervisor leaves behind.
use dayu_water_agent.Prelude.{
  ℕ, String, ◌≡◌, refl, true, false, some, arith, inl, inr, Bool-cases, Option-cases, keep_if,
  length,
}
use dayu_water_agent.Dict.{get, values}
use dayu_water_agent.Errors.{Result, ok, err}
use dayu_water_agent.Runtime.State.{is_active, AgentRun}
use dayu_water_agent.Memory.Store.{MemoryStore, Stamp}
use dayu_water_agent.Memory.Maintenance.{owned_by, interrupt_worker_runs}
use dayu_water_agent.Memory.Interrupts.{interrupt_matching_lem, owned_by-active}
use dayu_water_agent.Memory.Invariant.{IsValid}
use dayu_water_agent.Supervisor.Agent.{
  Host, is_ended, Task, SupervisorAgent, cancel_task, stopped, shutdown,
}
use dayu_water_agent.Supervisor.Requests.{StartRequest, Draws, unavailable, start}
use dayu_water_agent.Supervisor.Custody.{get-cancel_all}
use dayu_water_agent.Supervisor.Moves.{swept-idle}

-- The supervisor takes no request, no run of its worker is pending or running, and each of its tasks
-- that is not done is cancelled.
pub record IsHalted (h : Host) (a : SupervisorAgent) : Type 0 where
  pub refuses : (q : StartRequest) (d : Draws) → start h q d a ≡ (err unavailable, a)
  pub idle :
      (k : String) (r : AgentRun)
      → get a.session_store.runs k ≡ some r
      → r.worker_instance_id ≡ h.worker_instance_id
      → is_active r.status ≡ false
  pub signalled :
      (k : String) (t : Task)
      → get a.tasks k ≡ some t
      → is_ended t.phase ≡ false
      → t.cancelling ≡ true

closed-refuses :
    (h : Host) (q : StartRequest) (d : Draws) (a : SupervisorAgent)
    → a.accepting ≡ false
    → start h q d a ≡ (err unavailable, a)
unfolding start
closed-refuses h q d a e = rw e refl

cancel_task-signalled :
    (t : Task) → is_ended (cancel_task t).phase ≡ false → (cancel_task t).cancelling ≡ true
cancel_task-signalled t alive = elim (Bool-cases (is_ended t.phase)) [
  | inl y ↦ absurd (ground (arith, alive, y))
  | inr n ↦ rw n refl
]

stopped-IsHalted :
    (h : Host) (a : SupervisorAgent) (out : Result ℕ × MemoryStore) (n : ℕ)
    → out.0 ≡ ok n
    → ((k : String) (r : AgentRun)
        → get out.1.runs k ≡ some r
        → r.worker_instance_id ≡ h.worker_instance_id
        → is_active r.status ≡ false)
    → ((stopped a out).0 ≡ ok n) × IsHalted h (stopped a out).1
stopped-IsHalted h a (err f, s) n e idle = absurd (ground (arith, e))
stopped-IsHalted h a (ok m, s) n e idle = (
  e,
  record {
    refuses = λ q d. closed-refuses h q d _ refl;
    idle = idle;
    signalled = λ k t at alive. elim (Option-cases (get a.tasks k)) [
      | inl none_there ↦ absurd (ground (arith, at, get-cancel_all a.tasks k, none_there))
      | inr (t0, there) ↦
          let same : t ≡ cancel_task t0 = ground (arith, at, get-cancel_all a.tasks k, there) in
          rw same (cancel_task-signalled t0 (rw (← same) alive))
    ];
  },
)

-- In a valid store, `shutdown` counts the worker's pending and running runs. After it, every request
-- is refused as unavailable and changes nothing, no run of the worker is pending or running, and
-- each task in the table that is not done is cancelled.
pub shutdown-IsHalted :
    (h : Host) (draw : String → Stamp) (a : SupervisorAgent)
    → IsValid a.session_store
    → ((shutdown h draw a).0
        ≡ ok (length (keep_if (owned_by h.worker_instance_id) (values a.session_store.runs))))
      × IsHalted h (shutdown h draw a).1
unfolding shutdown interrupt_worker_runs
shutdown-IsHalted h draw a v =
    let w = h.worker_instance_id in
    let s = a.session_store in
    let (fine, _) = interrupt_matching_lem (owned_by w) draw s v (owned_by-active w) in
    stopped-IsHalted h a (interrupt_worker_runs w draw s) _ fine
      λ k r at own. swept-idle h s draw k r v at own
