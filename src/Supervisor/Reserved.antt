-- ===== src/Supervisor/Reserved.antt =====
-- What `reserve_run` of the in-memory store does to the runs, by its result.
use dayu_water_agent.Prelude.{
  String, ◌≡◌, refl, ap, true, false, inl, inr, ◌⊎◌, Bool-cases, Option-cases, ◌==◌,
}
use dayu_water_agent.Dict.{get, put}
use dayu_water_agent.Errors.{Result, ok, err}
use dayu_water_agent.Runtime.Session.{SessionRecord}
use dayu_water_agent.Runtime.State.{AgentRun, RunReservation}
use dayu_water_agent.Memory.Store.{MemoryStore, Stamp, active_run_locked}
use dayu_water_agent.Memory.Runs.{
  RunRequest, new_run, known_key, replay, enter_run, reserve_new, reserve_run,
}
use dayu_water_agent.Memory.Entries.{with_session, reserve_new-none, reserve_new-some}

-- The caller owns a run that was entered just now.
abbrev pub Entered : MemoryStore → RunRequest → Stamp → RunReservation → MemoryStore → Type 0
Entered s q b res t =
    (res.owns_execution ≡ true)
    × ((x : String) × ((res.run ≡ new_run q x b) × (t.runs ≡ put s.runs b.id res.run)))

-- A refusal and a replay leave the runs as they were.
abbrev pub Reserved :
    MemoryStore → RunRequest → Stamp → Result RunReservation × MemoryStore → Type 0
Reserved s q b (err f, t) = t.runs ≡ s.runs
Reserved s q b (ok res, t) =
    ((res.owns_execution ≡ false) × (t.runs ≡ s.runs)) ⊎ Entered s q b res t

put_same :
    (s t : MemoryStore) (id : String) (r : AgentRun)
    → t.runs ≡ s.runs
    → put t.runs id r ≡ put s.runs id r
put_same s t id r same = ap (λ d. put d id r) same

enter_run-Reserved :
    (s t : MemoryStore) (q : RunRequest) (b : Stamp) (x : SessionRecord)
    → t.runs ≡ s.runs
    → Reserved s q b (enter_run q b x t)
unfolding enter_run active_run_locked
enter_run-Reserved s t q b x same = elim (Option-cases (active_run_locked x.id t)) [
  | inr (r, e) ↦ rw e same
  | inl e ↦ elim (Option-cases q.idempotency_key) [
    | inl n ↦ rw (e, n) (inr (refl, (x.id, (refl, put_same s t b.id _ same))))
    | inr (key, n) ↦ rw (e, n) (inr (refl, (x.id, (refl, put_same s t b.id _ same))))
  ]
]

replay-Reserved :
    (s : MemoryStore) (q : RunRequest) (b : Stamp) (r : AgentRun) → Reserved s q b (replay q r s)
unfolding replay
replay-Reserved s q b r = elim (Bool-cases (r.request_hash == q.request_hash)) [
  | inl y ↦ rw y (inl (refl, refl))
  | inr n ↦ rw n refl
]

reserve_new-Reserved :
    (s : MemoryStore) (q : RunRequest) (a b : Stamp) → Reserved s q b (reserve_new q a b s)
reserve_new-Reserved s q a b = elim (Option-cases q.session_id) [
  | inl e ↦ rw (reserve_new-none s q a b e) (enter_run-Reserved s (with_session s _) q b _ refl)
  | inr (id, e) ↦ elim (Option-cases (get s.sessions id)) [
    | inl f ↦ unfold reserve_new in rw e (rw f refl)
    | inr (x, f) ↦ rw (reserve_new-some s q a b id x e f) (enter_run-Reserved s s q b x refl)
  ]
]

pub reserve_run-Reserved :
    (s : MemoryStore) (q : RunRequest) (a b : Stamp) → Reserved s q b (reserve_run q a b s)
unfolding reserve_run
reserve_run-Reserved s q a b = elim (Option-cases (known_key q.idempotency_key s)) [
  | inl e ↦ rw (e, reserve_run) (reserve_new-Reserved s q a b)
  | inr (id, e) ↦
      rw (e, reserve_run)
        (elim (Option-cases (get s.runs id)) [
          | inl f ↦ rw f refl
          | inr (r, f) ↦ rw f (replay-Reserved s q b r)
        ])
]
