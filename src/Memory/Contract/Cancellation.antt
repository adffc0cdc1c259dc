-- ===== src/Memory/Contract/Cancellation.antt =====
-- A cancellation is settled once and for all.
use dayu_water_agent.Prelude.{
  String, ◌≡◌, ◌∙◌, ap, true, some, arith, inl, inr, Option-cases, eq_refl, if◌then◌else◌,
}
use dayu_water_agent.Dict.{get}
use dayu_water_agent.Dict.Laws.{get-put}
use dayu_water_agent.Errors.{ok}
use dayu_water_agent.Runtime.State.{
  RunStatus, is_terminal, CancelResult, same_status, already_cancelled, already_terminal,
}
use dayu_water_agent.Memory.Store.{MemoryStore, Stamp}
use dayu_water_agent.Memory.Lifecycle.{cancel_run}
use dayu_water_agent.Memory.Invariant.{IsValid}
use dayu_water_agent.Memory.Invariant.Steps.{IsValid-HasEvents, cancel_run-IsValid}
use dayu_water_agent.Memory.Calls.{Future}
use dayu_water_agent.Memory.Cases.{cancelled_run}
use dayu_water_agent.Memory.Contract.Turns.{cancel_run-terminal}
use dayu_water_agent.Memory.Calls.Histories.{Future-Kept}

pub settled_run :
    (s : MemoryStore) (id worker : String) (stamp : Stamp) (out : CancelResult)
    → IsValid s
    → (cancel_run id worker stamp s).0 ≡ ok out
    → (get (cancel_run id worker stamp s).1.runs id ≡ some out.run)
      × (is_terminal out.run.status ≡ true)
unfolding cancel_run is_terminal
settled_run s id worker stamp out v e = elim (Option-cases (get s.runs id)) [
  | inl n ↦ absurd (ground arith)
  | inr (r, f) ↦
      let (es, h) = IsValid-HasEvents s v id r f in
      (ground (arith, get-put s.runs id id (cancelled_run r stamp), eq_refl id), ground arith)
]

-- In a valid store, once a cancellation of a run has been answered, then whatever calls follow, a
-- further cancellation by any worker returns that very run, as already cancelled or already
-- finished, and changes nothing.
pub cancel_run-settled :
    (s t : MemoryStore) (id worker worker' : String) (stamp stamp' : Stamp) (out : CancelResult)
    → IsValid s
    → (cancel_run id worker stamp s).0 ≡ ok out
    → Future (cancel_run id worker stamp s).1 t
    → cancel_run id worker' stamp' t ≡ (
      ok (record {
        run = out.run;
        disposition =
            if same_status out.run.status RunStatus.cancelled
            then already_cancelled
            else already_terminal;
      }),
      t,
    )
cancel_run-settled s t id worker worker' stamp stamp' out v e f =
    let (there, done) = settled_run s id worker stamp out v e in
    let kept = Future-Kept f (cancel_run-IsValid s v id worker stamp) in
    let (r, now, later) = kept.runs id out.run there in
    cancel_run-terminal t id worker' stamp' out.run (now ∙ ap some (later.final done)) done
