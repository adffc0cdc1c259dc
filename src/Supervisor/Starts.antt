-- ===== src/Supervisor/Starts.antt =====
-- A request keeps the runs and the tasks of a supervisor together.
use dayu_water_agent.Prelude.{
  ◌≡◌, refl, ap, Bool, true, false, not, none, arith, inl, inr, Bool-cases, ◌==◌, if◌then◌else◌,
}
use dayu_water_agent.Dict.{get, put}
use dayu_water_agent.Dict.Laws.{get-put, put-Distinct}
use dayu_water_agent.Errors.{Result, ok, err}
use dayu_water_agent.Guardrails.{check}
use dayu_water_agent.Runtime.State.{RunReservation}
use dayu_water_agent.Memory.Store.{MemoryStore}
use dayu_water_agent.Memory.Runs.{reserve_run}
use dayu_water_agent.Memory.Invariant.{IsValid}
use dayu_water_agent.Memory.Calls.{Call, step}
use dayu_water_agent.Memory.Calls.Laws.{step-IsValid}
use dayu_water_agent.Memory.Calls.Lifetimes.{Kept}
use dayu_water_agent.Memory.Calls.Histories.{step-Kept}
use dayu_water_agent.Supervisor.Agent.{Host, SupervisorAgent}
use dayu_water_agent.Supervisor.Requests.{
  StartRequest, Draws, new_task, reservation_request, strip, started, admitted, unavailable, start,
}
use dayu_water_agent.Supervisor.Reserved.{Reserved, Entered, reserve_run-Reserved}
use dayu_water_agent.Supervisor.Owners.{Advance, same-SameOwners}
use dayu_water_agent.Supervisor.Custody.{IsOwned, Advance-IsOwned}

abbrev pub OwnedBy : Host → SupervisorAgent → Type 0
OwnedBy h a = IsOwned h.worker_instance_id a.session_store a.tasks

module _ (h : Host) (q : StartRequest) (d : Draws) (a : SupervisorAgent) where
  Entered-IsOwned :
      (res : RunReservation) (s : MemoryStore)
      → OwnedBy h a
      → IsValid s
      → Entered a.session_store (reservation_request h q d) d.run_stamp res s
      → IsOwned h.worker_instance_id s (put a.tasks res.run.id (new_task h q d res.run))
  unfolding new_task reservation_request
  Entered-IsOwned res s o v (owns, (x, (new, runs))) =
      let id = res.run.id in
      let t = new_task h q d res.run in
      let own : res.run.worker_instance_id ≡ h.worker_instance_id =
        ap (λ z. z.worker_instance_id) new in
      record {
        valid = v;
        distinct = put-Distinct a.tasks id t o.distinct;
        owned = λ k r at active mine. elim (Bool-cases (id == k)) [
          | inl y ↦ (t, ground (arith, get-put a.tasks id k t, y), refl)
          | inr n ↦
              let (u, there, alive) =
                o.owned k r (ground (arith, at, runs, get-put a.session_store.runs id k res.run, n))
                  active mine in
              (u, ground (arith, get-put a.tasks id k t, n, there), alive)
        ];
        fits = λ k u at. elim (Bool-cases (id == k)) [
          | inl y ↦ (
            res.run,
            ground (arith, runs, get-put a.session_store.runs id k res.run, y),
            own,
            let same : u ≡ t = ground (arith, at, get-put a.tasks id k t, y) in
                λ c. absurd (ground (arith, same, c)),
          )
          | inr n ↦
              let (r, stored, mine, stop) =
                o.fits k u (ground (arith, at, get-put a.tasks id k t, n)) in
              (
                r,
                ground (arith, runs, get-put a.session_store.runs id k res.run, n, stored),
                mine,
                stop,
              )
        ];
      }

  same_runs-Advance :
      (s : MemoryStore)
      → IsValid s
      → Kept a.session_store s
      → s.runs ≡ a.session_store.runs
      → Advance a.session_store s
  same_runs-Advance s v kept same = record {
    valid = v;
    kept = kept;
    owners = same-SameOwners a.session_store s same;
  }

  started-IsOwned :
      (out : Result RunReservation × MemoryStore)
      → OwnedBy h a
      → IsValid out.1
      → Kept a.session_store out.1
      → Reserved a.session_store (reservation_request h q d) d.run_stamp out
      → OwnedBy h (started h q d a out).1
  started-IsOwned (err f, s) o v kept same =
      Advance-IsOwned h.worker_instance_id a.session_store s a.tasks
        (same_runs-Advance s v kept same) o
  started-IsOwned (ok res, s) o v kept (inl (owns, same)) = rw owns (
      Advance-IsOwned h.worker_instance_id a.session_store s a.tasks
        (same_runs-Advance s v kept same) o)
  started-IsOwned (ok res, s) o v kept (inr new) = rw (new.0) (Entered-IsOwned res s o v new)

  admitted-IsOwned :
      (checked : Result (Unit {0}))
      → OwnedBy h a
      → get a.session_store.runs d.run_stamp.id ≡ none
      → OwnedBy h (admitted h q d a checked).1
  admitted-IsOwned (err f) o fresh = o
  admitted-IsOwned (ok _) o fresh =
      let q' = reservation_request h q d in
      let c = Call.reserve_run q' d.session_stamp d.run_stamp in
      started-IsOwned (reserve_run q' d.session_stamp d.run_stamp a.session_store) o
        (unfold step in step-IsValid a.session_store c fresh o.valid)
        (unfold step in step-Kept a.session_store c fresh o.valid)
        (reserve_run-Reserved a.session_store q' d.session_stamp d.run_stamp)

  gate-IsOwned :
      (accepting : Bool) (checked : Result (Unit {0}))
      → OwnedBy h a
      → get a.session_store.runs d.run_stamp.id ≡ none
      → OwnedBy h (if not accepting then (err unavailable, a) else admitted h q d a checked).1
  gate-IsOwned true checked o fresh = admitted-IsOwned checked o fresh
  gate-IsOwned false checked o fresh = o

  pub start-IsOwned :
      OwnedBy h a → get a.session_store.runs d.run_stamp.id ≡ none → OwnedBy h (start h q d a).1
  unfolding start
  start-IsOwned o fresh =
      gate-IsOwned a.accepting (check h.input_guardrails (strip q.message)) o fresh
