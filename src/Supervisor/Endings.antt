-- ===== src/Supervisor/Endings.antt =====
-- What the store holds after the calls that can end a run.
use dayu_water_agent.Prelude.{
  String, ◌≡◌, refl, true, false, some, arith, inl, inr, ◌⊎◌, Option-cases, Bool-cases, eq_refl,
  ◌==◌,
}
use dayu_water_agent.Dict.{get}
use dayu_water_agent.Dict.Laws.{get-put}
use dayu_water_agent.Errors.{ok}
use dayu_water_agent.Runtime.State.{running, completed, is_terminal, AgentRun}
use dayu_water_agent.Memory.Store.{MemoryStore, Stamp}
use dayu_water_agent.Memory.Lifecycle.{Turn, commit_run_success, fail_run, cancel_run}
use dayu_water_agent.Memory.Cases.{finished, failed_with, cancelled_run}
use dayu_water_agent.Memory.Invariant.{IsValid}
use dayu_water_agent.Memory.Invariant.Steps.{IsValid-HasEvents}
use dayu_water_agent.Memory.Contract.Atomicity.{session_of, transcript_of}
use dayu_water_agent.Memory.Contract.Turns.{commit_run_success_lem}
use dayu_water_agent.Supervisor.Bounds.{Attempted}
use dayu_water_agent.Supervisor.Execution.{caught}

-- The run is finished in the store.
abbrev pub IsFinished : String → MemoryStore → Type 0
IsFinished id s = (r : AgentRun) × (get s.runs id ≡ some r) × (is_terminal r.status ≡ true)

pub fail_run-finished :
    (id code : String) (stamp : Stamp) (s : MemoryStore)
    → Attempted id 0 s
    → (r : AgentRun) × ((fail_run id code stamp s).0 ≡ ok r)
      × (get (fail_run id code stamp s).1.runs id ≡ some r)
      × (is_terminal r.status ≡ true)
unfolding fail_run is_terminal
fail_run-finished id code stamp s a =
    let (es, h) = IsValid-HasEvents s a.valid id a.run a.at in
    let after = failed_with a.run code stamp in
    elim (Bool-cases (is_terminal a.run.status)) [
      | inl y ↦ (a.run, ground (arith, a.at), ground (arith, a.at), y)
      | inr n ↦ (
        after,
        ground (arith, a.at),
        ground (arith, a.at, get-put s.runs id id after, eq_refl id),
        refl,
      )
    ]

-- The run is finished, or it belongs to another worker.
abbrev pub IsReleased : String → String → MemoryStore → Type 0
IsReleased id worker s =
    (r : AgentRun) × (get s.runs id ≡ some r)
    × ((is_terminal r.status ≡ true) ⊎ ((r.worker_instance_id == worker) ≡ false))

pub cancel_run-IsReleased :
    (id worker : String) (stamp : Stamp) (s : MemoryStore)
    → Attempted id 0 s
    → ((caught (cancel_run id worker stamp s)).0 ≡ ok tt)
      × IsReleased id worker (caught (cancel_run id worker stamp s)).1
unfolding cancel_run caught is_terminal
cancel_run-IsReleased id worker stamp s a =
    let (es, h) = IsValid-HasEvents s a.valid id a.run a.at in
    let after = cancelled_run a.run stamp in
    elim (Bool-cases (is_terminal a.run.status)) [
      | inl y ↦ (ground (arith, a.at), (a.run, ground (arith, a.at), inl y))
      | inr n ↦ elim (Bool-cases (a.run.worker_instance_id == worker)) [
        | inl own ↦ (
          ground (arith, a.at),
          (after, ground (arith, a.at, get-put s.runs id id after, eq_refl id), inl refl),
        )
        | inr other ↦ (ground (arith, a.at), (a.run, ground (arith, a.at), inr other))
      ]
    ]

pub committed_run :
    (s : MemoryStore) (id : String) (turn : Turn) (a b stamp : Stamp) (out : AgentRun)
    → IsValid s
    → (commit_run_success id turn a b stamp s).0 ≡ ok out
    → (get (commit_run_success id turn a b stamp s).1.runs id ≡ some out)
      × (out.status ≡ completed)
      × (out.result ≡ some turn.dumped)
      × (out.usage ≡ turn.result.usage)
committed_run s id turn a b stamp out v e = elim (Option-cases (get s.runs id)) [
  | inl n ↦ absurd (unfold commit_run_success in ground arith)
  | inr (r, h) ↦
      let (es, g) = IsValid-HasEvents s v id r h in
      let (x, k) = session_of s v id r h in
      let (ms, m) = transcript_of s v r.session_id x k in
      let p : r.status ≡ running = unfold commit_run_success in ground (arith, e, h) in
      let same = commit_run_success_lem s id turn a b stamp r x ms es h p k m g in
      let fin : out ≡ finished r turn stamp = ground (arith, e, same) in
      rw fin (
        rw same (
          ground (arith, get-put s.runs id id (finished r turn stamp), eq_refl id),
          refl,
          refl,
          refl,
        ))
]
