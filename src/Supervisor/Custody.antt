-- ===== src/Supervisor/Custody.antt =====
-- The runs of a worker and the tasks of its table: what keeps them together.
use dayu_water_agent.Prelude.{
  String, ◌≡◌, refl, ◌∙◌, ap, sym, true, false, Option, none, some, arith, inl, inr, Bool-cases,
  Option-cases, eq_iff, ◌==◌, [], ◌∷◌,
}
use dayu_water_agent.Dict.{Dict, get, put, remove}
use dayu_water_agent.Dict.Laws.{Distinct, get-put, put-Distinct, get-remove, remove-Distinct}
use dayu_water_agent.Runtime.State.{is_active, is_terminal, AgentRun}
use dayu_water_agent.Runtime.Transitions.{active-not-terminal}
use dayu_water_agent.Memory.Store.{MemoryStore}
use dayu_water_agent.Memory.Invariant.{IsValid}
use dayu_water_agent.Supervisor.Agent.{Phase, is_ended, Task, cancel_task, cancel_all}
use dayu_water_agent.Supervisor.Owners.{Advance}

-- Every pending or running run of the worker has a task in the table that is not done. Every task
-- in the table is of a run of the worker that is stored, and is cancelled only if that is finished.
pub record IsOwned (worker : String) (s : MemoryStore) (tasks : Dict Task) : Type 0 where
  pub valid : IsValid s
  pub distinct : Distinct tasks
  pub owned :
      (k : String) (r : AgentRun)
      → get s.runs k ≡ some r
      → is_active r.status ≡ true
      → r.worker_instance_id ≡ worker
      → (t : Task) × (get tasks k ≡ some t) × (is_ended t.phase ≡ false)
  pub fits :
      (k : String) (t : Task)
      → get tasks k ≡ some t
      → (r : AgentRun) × (get s.runs k ≡ some r)
        × (r.worker_instance_id ≡ worker)
        × (t.cancelling ≡ true → is_terminal r.status ≡ true)

module _ (worker : String) where
  -- A run that is active at a later time was active before.
  was_active :
      (r r' : AgentRun)
      → (is_terminal r.status ≡ true → r' ≡ r)
      → is_active r'.status ≡ true
      → is_active r.status ≡ true
  was_active r r' final now = elim (Bool-cases (is_active r.status)) [
    | inl y ↦ y
    | inr n ↦
        let same : r' ≡ r = final (ground (arith, active-not-terminal r.status, n)) in
        rw (← same) now
  ]

  pub Advance-IsOwned :
      (s s' : MemoryStore) (tasks : Dict Task)
      → Advance s s'
      → IsOwned worker s tasks
      → IsOwned worker s' tasks
  Advance-IsOwned s s' tasks adv o = record {
    valid = adv.valid;
    distinct = o.distinct;
    owned = λ k r' at active own.
        let (r, there, same) = adv.owners.owner k r' at in
        let (r'', at'', later) = adv.kept.runs k r there in
        let one : r'' ≡ r' = ground (arith, at, at'') in
        o.owned k r there (was_active r r' (λ done. sym one ∙ later.final done) active)
          (sym same ∙ own);
    fits = λ k t at.
        let (r, there, own, stop) = o.fits k t at in
        let (r', at', later) = adv.kept.runs k r there in
        let (r0, at0, same) = adv.owners.owner k r' at' in
        let one : r0 ≡ r = ground (arith, at0, there) in
        (
          r',
          at',
          same ∙ ap (λ z. z.worker_instance_id) one ∙ own,
          λ c. ap (λ z. is_terminal z.status) (later.final (stop c)) ∙ stop c,
        );
  }

  -- The task of `id` is changed.
  pub retask-IsOwned :
      (s : MemoryStore) (tasks : Dict Task) (id : String) (t t' : Task)
      → get tasks id ≡ some t
      → ((r : AgentRun)
          → get s.runs id ≡ some r
          → is_active r.status ≡ true
          → is_ended t'.phase ≡ false)
      → ((r : AgentRun)
          → get s.runs id ≡ some r
          → t'.cancelling ≡ true
          → is_terminal r.status ≡ true)
      → IsOwned worker s tasks
      → IsOwned worker s (put tasks id t')
  retask-IsOwned s tasks id t t' there live stop o = record {
    valid = o.valid;
    distinct = put-Distinct tasks id t' o.distinct;
    owned = λ k r at active own. elim (Bool-cases (id == k)) [
      | inl y ↦
          (t', ground (arith, get-put tasks id k t', y), live r (rw ((eq_iff id k).0 y) at) active)
      | inr n ↦
          let (u, in_table, alive) = o.owned k r at active own in
          (u, ground (arith, get-put tasks id k t', n, in_table), alive)
    ];
    fits = λ k u at. elim (Bool-cases (id == k)) [
      | inl y ↦
          let (r, stored, own, _) = o.fits id t there in
          let same : u ≡ t' = ground (arith, at, get-put tasks id k t', y) in
          (r, ground (arith, stored, eq_iff id k, y), own, λ c. stop r stored (rw (← same) c))
      | inr n ↦ o.fits k u (ground (arith, at, get-put tasks id k t', n))
    ];
  }

  -- The task of `id` comes to another phase.
  pub rephase-IsOwned :
      (s : MemoryStore) (tasks : Dict Task) (id : String) (t : Task) (p : Phase)
      → get tasks id ≡ some t
      → ((r : AgentRun) → get s.runs id ≡ some r → is_active r.status ≡ true → is_ended p ≡ false)
      → IsOwned worker s tasks
      → IsOwned worker s (put tasks id (record t { phase = p }))
  rephase-IsOwned s tasks id t p there live o =
      retask-IsOwned s tasks id t (record t { phase = p }) there live
        (λ r at c.
          let (r', stored, _, stop) = o.fits id t there in
          let same : r' ≡ r = ground (arith, stored, at) in rw (← same) (stop c))
        o

  -- A task that is done leaves the table.
  pub remove-IsOwned :
      (s : MemoryStore) (tasks : Dict Task) (id : String) (t : Task)
      → get tasks id ≡ some t
      → is_ended t.phase ≡ true
      → IsOwned worker s tasks
      → IsOwned worker s (remove tasks id)
  remove-IsOwned s tasks id t there over o = record {
    valid = o.valid;
    distinct = remove-Distinct tasks id o.distinct;
    owned = λ k r at active own.
        let (u, in_table, alive) = o.owned k r at active own in
        elim (Bool-cases (id == k)) [
          | inl y ↦
              let same : u ≡ t = ground (arith, in_table, there, eq_iff id k, y) in
              absurd (ground (arith, over, alive, same))
          | inr n ↦ (u, ground (arith, get-remove tasks id k o.distinct, n, in_table), alive)
        ];
    fits = λ k u at. elim (Bool-cases (id == k)) [
      | inl y ↦ absurd (ground (arith, at, get-remove tasks id k o.distinct, y))
      | inr n ↦ o.fits k u (ground (arith, at, get-remove tasks id k o.distinct, n))
    ];
  }

-- The table after `task.cancel()` of every task.
abbrev cancelled_in : Option Task → Option Task
cancelled_in none = none
cancelled_in (some t) = some (cancel_task t)

pub get-cancel_all :
    (tasks : Dict Task) (k : String) → get (cancel_all tasks) k ≡ cancelled_in (get tasks k)
unfolding cancel_all get
get-cancel_all [] k = refl
get-cancel_all ((j, t) ∷ tasks) k = elim (Bool-cases (j == k)) [
  | inl y ↦ rw y refl
  | inr n ↦ rw n (get-cancel_all tasks k)
]

cancel_all-Distinct : (tasks : Dict Task) → Distinct tasks → Distinct (cancel_all tasks)
unfolding cancel_all
cancel_all-Distinct [] d = tt
cancel_all-Distinct ((j, t) ∷ tasks) d =
    (rw (get-cancel_all tasks j) (rw d.0 refl), cancel_all-Distinct tasks d.1)

-- Every task is cancelled, when no run of the worker is pending or running.
pub cancel_all-IsOwned :
    (worker : String) (s : MemoryStore) (tasks : Dict Task)
    → ((k : String) (r : AgentRun)
        → get s.runs k ≡ some r
        → r.worker_instance_id ≡ worker
        → is_active r.status ≡ false)
    → IsOwned worker s tasks
    → IsOwned worker s (cancel_all tasks)
cancel_all-IsOwned worker s tasks idle o = record {
  valid = o.valid;
  distinct = cancel_all-Distinct tasks o.distinct;
  owned = λ k r at active own. absurd (ground (arith, idle k r at own, active));
  fits = λ k u at. elim (Option-cases (get tasks k)) [
    | inl n ↦ absurd (ground (arith, at, get-cancel_all tasks k, n))
    | inr (t, there) ↦
        let (r, stored, own, _) = o.fits k t there in
        (r, stored, own, λ c. ground (arith, active-not-terminal r.status, idle k r stored own))
  ];
}
