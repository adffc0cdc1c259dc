-- ===== src/Memory/Contract/Idempotency.antt =====
-- An idempotency key names one run, however often and in whatever order it is used.
use dayu_water_agent.Prelude.{
  sym, String, ◌≡◌, ◌∙◌, ap, true, false, some, none, arith, inl, inr, Option-cases, eq_refl, ◌==◌,
  if◌then◌else◌,
}
use dayu_water_agent.Dict.{get}
use dayu_water_agent.Dict.Laws.{get-put}
use dayu_water_agent.Errors.{Result, ok, err, failure}
use dayu_water_agent.Errors.Kinds.{idempotency_conflict}
use dayu_water_agent.Runtime.Session.{SessionRecord}
use dayu_water_agent.Runtime.State.{AgentRun, RunReservation}
use dayu_water_agent.Memory.Store.{MemoryStore, Stamp}
use dayu_water_agent.Memory.Runs.{
  RunRequest, new_run, known_key, enter_run, reserve_new, reserve_run, conflict_details,
}
use dayu_water_agent.Memory.Entries.{with_session, reserve_new-none, reserve_new-some}
use dayu_water_agent.Memory.Sessions.{new_session}
use dayu_water_agent.Memory.Invariant.{IsValid}
use dayu_water_agent.Memory.Invariant.Reserve.{reserve_run-IsValid}
use dayu_water_agent.Memory.Calls.{Future}
use dayu_water_agent.Runtime.Transitions.{History}
use dayu_water_agent.Memory.Calls.Histories.{Future-Kept}

-- The run that a reservation owns is in the store, under its key.
abbrev Entered : RunRequest → AgentRun → MemoryStore → Type 0
Entered q run t =
    (get t.runs run.id ≡ some run)
    × (run.request_hash ≡ q.request_hash)
    × ((key : String) → q.idempotency_key ≡ some key → get t.idempotency key ≡ some run.id)

enter_run-Entered :
    (q : RunRequest) (stamp : Stamp) (x : SessionRecord) (s : MemoryStore) (run : AgentRun)
    → (enter_run q stamp x s).0 ≡ ok (record { run = run; owns_execution = true })
    → Entered q run (enter_run q stamp x s).1
unfolding enter_run
enter_run-Entered q stamp x s run e = (
  ground (arith, get-put s.runs stamp.id stamp.id (new_run q x.id stamp), eq_refl stamp.id),
  ground arith,
  λ key h. ground (arith, get-put s.idempotency key key stamp.id, eq_refl key),
)

reserve_new-Entered :
    (q : RunRequest) (a b : Stamp) (s : MemoryStore) (run : AgentRun)
    → (reserve_new q a b s).0 ≡ ok (record { run = run; owns_execution = true })
    → Entered q run (reserve_new q a b s).1
reserve_new-Entered q a b s run e = elim (Option-cases q.session_id) [
  | inl n ↦
      let x = new_session a.id q.user_id q.session_metadata a in
      let step = reserve_new-none s q a b n in
      rw step (enter_run-Entered q b x (with_session s x) run (rw step at e))
  | inr (id, n) ↦ elim (Option-cases (get s.sessions id)) [
    | inl f ↦ absurd (unfold reserve_new in ground arith)
    | inr (x, f) ↦
        let step = reserve_new-some s q a b id x n f in
        rw step (enter_run-Entered q b x s run (rw step at e))
  ]
]

reserve_run-Entered :
    (q : RunRequest) (a b : Stamp) (s : MemoryStore) (run : AgentRun)
    → (reserve_run q a b s).0 ≡ ok (record { run = run; owns_execution = true })
    → Entered q run (reserve_run q a b s).1
unfolding reserve_run
reserve_run-Entered q a b s run e = elim (Option-cases (known_key q.idempotency_key s)) [
  | inl n ↦ rw (n, reserve_run) (reserve_new-Entered q a b s run (ground arith))
  | inr (id, n) ↦ absurd (ground arith)
]

-- The reply to a request whose key names the run `r`.
abbrev pub replayed : RunRequest → AgentRun → Result RunReservation
replayed q r =
    if r.request_hash == q.request_hash
    then ok (record { run = r; owns_execution = false })
    else err (failure idempotency_conflict (conflict_details q.idempotency_key r.id))

reserve_run-known :
    (q : RunRequest) (a b : Stamp) (s : MemoryStore) (key : String) (r : AgentRun)
    → q.idempotency_key ≡ some key
    → get s.idempotency key ≡ some r.id
    → get s.runs r.id ≡ some r
    → reserve_run q a b s ≡ (replayed q r, s)
unfolding reserve_run
reserve_run-known q a b s key r k e f = ground arith

-- In a valid store, once a request has reserved a run, of a fresh id, under a key, then whatever
-- calls follow, a later request under that key reserves nothing and changes nothing: it gets that
-- same run, as far as it has come, if the two request hashes agree, and an idempotency conflict if
-- they differ.
pub reserve_run-replay :
    (s t : MemoryStore) (q q' : RunRequest) (a b a' b' : Stamp) (key : String) (run : AgentRun)
    → IsValid s
    → get s.runs b.id ≡ none
    → q.idempotency_key ≡ some key
    → q'.idempotency_key ≡ some key
    → (reserve_run q a b s).0 ≡ ok (record { run = run; owns_execution = true })
    → Future (reserve_run q a b s).1 t
    → (r : AgentRun) × (r.id ≡ run.id)
      × History run.status r.status
      × (r.request_hash ≡ q.request_hash)
      × (get t.runs run.id ≡ some r)
      × (reserve_run q' a' b' t ≡ (replayed q' r, t))
reserve_run-replay s t q q' a b a' b' key run v fresh k k' e f =
    let (at, hash, keys) = reserve_run-Entered q a b s run e in
    let kept = Future-Kept f (reserve_run-IsValid s v q a b fresh) in
    let (r, there, later) = kept.runs run.id run at in
    (
      r,
      later.id,
      later.history,
      later.hash ∙ hash,
      there,
      reserve_run-known q' a' b' t key r k'
          (kept.keys key run.id (keys key k) ∙ ap some (sym later.id)) (rw later.id there),
    )
