-- ===== src/Supervisor/Granted.antt =====
-- The whole store after `reserve_run` of the in-memory store, by its result.
use dayu_water_agent.Prelude.{
  String, ◌≡◌, refl, true, false, Option, none, some, inl, inr, ◌⊎◌, Bool-cases, Option-cases, ◌==◌,
  eq_iff, arith,
}
use dayu_water_agent.Dict.{get}
use dayu_water_agent.Errors.{Result, ok, err}
use dayu_water_agent.Runtime.Session.{SessionRecord}
use dayu_water_agent.Runtime.State.{AgentRun, RunReservation}
use dayu_water_agent.Memory.Store.{MemoryStore, Stamp, active_run_locked}
use dayu_water_agent.Memory.Runs.{
  RunRequest, new_run, known_key, replay, enter_run, reserve_new, reserve_run,
}
use dayu_water_agent.Memory.Entries.{with_session, with_run, reserve_new-none, reserve_new-some}
use dayu_water_agent.Memory.Invariant.{IsValid}
use dayu_water_agent.Memory.Contract.Atomicity.{no_run_of_fresh}

-- The run under the key that the request carries, with the hash of this request.
abbrev pub IsReplay : MemoryStore → Option String → String → AgentRun → Type 0
IsReplay s key hash run =
    (k : String) × (id : String) × (key ≡ some k)
    × (get s.idempotency k ≡ some id)
    × (get s.runs id ≡ some run)
    × (run.request_hash ≡ hash)

-- The session that a run is entered in, and the store with it: a new one where the request names
-- none, else the stored one that it names.
abbrev pub InSession :
    MemoryStore → Option String → SessionRecord → SessionRecord → MemoryStore → Type 0
InSession s named new x t =
    ((named ≡ none) × (x ≡ new) × (t ≡ with_session s new))
    ⊎ ((id : String) × (named ≡ some id) × (get s.sessions id ≡ some x) × (t ≡ s))

-- The session of a new reservation: what `SessionRecord(...)` gets from the request and the clock.
abbrev pub fresh_session : RunRequest → Stamp → SessionRecord
fresh_session q a = record {
  id = a.id;
  user_id = q.user_id;
  status = "open";
  metadata = q.session_metadata;
  version = 1;
  created_at = a.created_at;
  updated_at = a.now;
}

-- The store after the reservation: as before when it raised or replayed; else with the new run, in a
-- session that had no active one.
abbrev pub Answered :
    MemoryStore → RunRequest → Stamp → Stamp → Result RunReservation × MemoryStore → Type 0
Answered s q a b (err f, t) = t ≡ s
Answered s q a b (ok res, t) =
    ((res.owns_execution ≡ false) × (t ≡ s) × IsReplay s q.idempotency_key q.request_hash res.run)
    ⊎ ((res.owns_execution ≡ true)
        × (x : SessionRecord) × (s0 : MemoryStore) × InSession s q.session_id (fresh_session q a) x
            s0
        × (active_run_locked x.id s ≡ none)
        × (res.run ≡ new_run q x.id b)
        × (t ≡ with_run s0 (new_run q x.id b)))

module _ (s : MemoryStore) (q : RunRequest) (a b : Stamp) where
  replay-Answered :
      (k id : String) (r : AgentRun)
      → q.idempotency_key ≡ some k
      → get s.idempotency k ≡ some id
      → get s.runs id ≡ some r
      → Answered s q a b (replay q r s)
  unfolding replay
  replay-Answered k id r key bound there = elim (Bool-cases (r.request_hash == q.request_hash)) [
    | inl y ↦
        rw y
          (inl (refl, refl, (k, id, key, bound, there, (eq_iff r.request_hash q.request_hash).0 y)))
    | inr n ↦ rw n refl
  ]

  entered_lem :
      (x : SessionRecord) (t : MemoryStore)
      → active_run_locked x.id t ≡ none
      → enter_run q b x t ≡ (
        ok (record { run = new_run q x.id b; owns_execution = true }),
        with_run t (new_run q x.id b),
      )
  unfolding enter_run
  entered_lem x t free = elim (Option-cases q.idempotency_key) [
    | inl n ↦ ground arith
    | inr (key, n) ↦ ground arith
  ]

  -- `t` is the store with the session, which has the runs of `s`.
  enter_run-Answered :
      (x : SessionRecord) (t : MemoryStore)
      → InSession s q.session_id (fresh_session q a) x t
      → active_run_locked x.id t ≡ none
      → active_run_locked x.id s ≡ none
      → Answered s q a b (enter_run q b x t)
  enter_run-Answered x t place free idle =
      rw (entered_lem x t free) (inr (refl, x, t, place, idle, refl, refl))

  enter_named-Answered :
      (id : String) (x : SessionRecord)
      → q.session_id ≡ some id
      → get s.sessions id ≡ some x
      → Answered s q a b (enter_run q b x s)
  unfolding enter_run
  enter_named-Answered id x named there = elim (Option-cases (active_run_locked x.id s)) [
    | inl e ↦ enter_run-Answered x s (inr (id, named, there, refl)) e e
    | inr (r, e) ↦ rw e refl
  ]

  reserve_new-Answered :
      IsValid s → get s.sessions a.id ≡ none → Answered s q a b (reserve_new q a b s)
  reserve_new-Answered v fresh = elim (Option-cases q.session_id) [
    | inl e ↦
        let free = no_run_of_fresh s v a.id fresh in
        rw (reserve_new-none s q a b e) (
          enter_run-Answered (fresh_session q a) (with_session s (fresh_session q a))
            (inl (e, refl, refl)) (unfold active_run_locked in free) free)
    | inr (id, e) ↦ elim (Option-cases (get s.sessions id)) [
      | inl f ↦ unfold reserve_new in rw e (rw f refl)
      | inr (x, f) ↦ rw (reserve_new-some s q a b id x e f) (enter_named-Answered id x e f)
    ]
  ]

  known_bound :
      (key : Option String) (id : String)
      → known_key key s ≡ some id
      → (k : String) × (key ≡ some k) × (get s.idempotency k ≡ some id)
  unfolding known_key
  known_bound none id e = cc
  known_bound (some k) id e = (k, refl, e)

  pub reserve_run-Answered :
      IsValid s → get s.sessions a.id ≡ none → Answered s q a b (reserve_run q a b s)
  unfolding reserve_run
  reserve_run-Answered v fresh = elim (Option-cases (known_key q.idempotency_key s)) [
    | inl e ↦ rw (e, reserve_run) (reserve_new-Answered v fresh)
    | inr (id, e) ↦
        let (k, key, bound) = known_bound q.idempotency_key id e in
        rw (e, reserve_run)
          (elim (Option-cases (get s.runs id)) [
            | inl f ↦ rw f refl
            | inr (r, f) ↦ rw f (replay-Answered k id r key bound f)
          ])
  ]
