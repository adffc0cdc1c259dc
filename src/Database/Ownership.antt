-- ===== src/Database/Ownership.antt =====
-- Who may execute a run: the outcomes of `reserve_run` of the database store.
use dayu_water_agent.Prelude.{
  subst, ◌≡◌, refl, sym, ◌∙◌, ap, String, true, Option, none, some, ◌⊎◌, inl, inr,
}
use dayu_water_agent.Errors.{Result, ok, err}
use dayu_water_agent.Runtime.State.{AgentRun, RunReservation}
use dayu_water_agent.Memory.Store.{Stamp}
use dayu_water_agent.Memory.Runs.{RunRequest}
use dayu_water_agent.Memory.Sessions.{or_uuid}
use dayu_water_agent.Database.Models.{AgentRunModel}
use dayu_water_agent.Database.Engine.{
  Answer, rows, integrity_error, database_error, Database, IsDatabase,
}
use dayu_water_agent.Database.Transactions.{
  Ending, done, conflicted, broken, raised, ◌>>=◌, raise, reading, close, unavailable,
  idempotent_run, refuse_active, shown, finish, translated,
}
use dayu_water_agent.Database.Reservations.{
  run_row, reserving, race_resolved, resolve_reservation_race, owned, reserved, reserve_run,
}
use dayu_water_agent.Database.Outcomes.{Ends, bind-Ends}
use dayu_water_agent.Database.Replays.{
  IsStored, IsIdle, IsReplay, idempotent_reservation-IsReplay, idempotent_run-Found,
  refuse_active-IsIdle,
}
use dayu_water_agent.Database.Entering.{Reserving, reserving-Reserving}

module _ (D : Database) where
  -- A run that the caller may execute: its row is stored and pending, the result shows it, and no
  -- run of its session was pending or running before.
  abbrev pub IsGrant : RunRequest → String → Stamp → D.Db → D.Db → RunReservation → Type 0
  IsGrant q id stamp base d' res =
      (D.run d' stamp.id ≡ some (run_row q id stamp))
      × ((shown D (run_row q id stamp) ≡ ok res.run) × IsIdle D base id)

  -- A row with the request's key that was stored before the call, after its wait, or before a race
  -- was resolved.
  abbrev pub SeenBy : RunRequest → (D.Db → D.Db) → (D.Db → D.Db) → D.Db → AgentRunModel → Type 0
  SeenBy q others later d existing =
      IsStored D q d existing
      ⊎ (IsStored D q (others d) existing ⊎ IsStored D q (later (others d)) existing)

  abbrev pub Reservation :
      RunRequest
      → String
      → Stamp
      → (D.Db → D.Db)
      → (D.Db → D.Db)
      → D.Db
      → Result RunReservation × D.Db
      → Type 0
  Reservation q id stamp others later d (err f, d') = Unit
  Reservation q id stamp others later d (ok res, d') =
      IsReplay D (SeenBy q others later d) q res
      ⊎ ((res.owns_execution ≡ true) × IsGrant q id stamp (others d) d' res)

  module _ (L : IsDatabase D) (q : RunRequest) (id : String) (stamp : Stamp)
      (others later : D.Db → D.Db) (d : D.Db) where
    abbrev Outcome : Result RunReservation × D.Db → Type 0
    Outcome = Reservation q id stamp others later d

    abbrev Replays : RunReservation → D.Db → Type 0
    Replays res _ = IsReplay D (SeenBy q others later d) q res

    translated-Outcome :
        (operation : String) (x : Ending RunReservation) (d1 d' : D.Db)
        → Ends D Replays (x, d1)
        → Outcome (translated operation x, d')
    unfolding translated
    translated-Outcome operation (done res) d1 d' h = inl h
    translated-Outcome operation conflicted d1 d' h = tt
    translated-Outcome operation broken d1 d' h = tt
    translated-Outcome operation (raised e) d1 d' h = tt

    race_resolved-IsReplay :
        (o : Option AgentRunModel) (d' : D.Db)
        → ((existing : AgentRunModel) → o ≡ some existing → SeenBy q others later d existing)
        → Ends D Replays (race_resolved D q id o d')
    race_resolved-IsReplay (some existing) d' there =
        idempotent_reservation-IsReplay D (SeenBy q others later d) q existing d'
          (there existing refl)
    race_resolved-IsReplay none d' there =
        bind-Ends D Replays (refuse_active D id) (λ _. raise (unavailable "reserve_run")) d'
          (refuse_active-IsIdle D L id d') λ _ d'' h. tt

    resolved-Outcome : Outcome (resolve_reservation_race D q id (later (others d)))
    unfolding resolve_reservation_race reading
    resolved-Outcome =
        let d' = later (others d) in
        let body = idempotent_run D q.idempotency_key >>= race_resolved D q id in
        translated-Outcome "resolve_reservation_race" (body d').0 (body d').1 d' (
          bind-Ends D Replays (idempotent_run D q.idempotency_key) (race_resolved D q id) d'
            (idempotent_run-Found D L q d')
            λ o d'' h. race_resolved-IsReplay o d'' λ existing e. inr (inr (h.1 existing e)))

    owned-Outcome :
        (r : Result AgentRun) (d' : D.Db)
        → shown D (run_row q id stamp) ≡ r
        → D.run d' stamp.id ≡ some (run_row q id stamp)
        → IsIdle D (others d) id
        → Outcome (owned D r, d')
    owned-Outcome (ok run) d' e there idle = inr (refl, (there, (e, idle)))
    owned-Outcome (err f) d' e there idle = tt

    -- A replay of a run that the transaction saw.
    seen-IsReplay :
        (res : RunReservation)
        → IsReplay D (λ r. IsStored D q d r ⊎ IsStored D q (others d) r) q res
        → IsReplay D (SeenBy q others later d) q res
    seen-IsReplay res (owns, (existing, (inl there, same))) = (owns, (existing, (inl there, same)))
    seen-IsReplay res (owns, (existing, (inr there, same))) =
        (owns, (existing, (inr (inl there), same)))

    -- The race is resolved after the roll-back.
    rolled-Outcome :
        (rolled : D.Db)
        → rolled ≡ others d
        → Outcome (resolve_reservation_race D q id (later rolled))
    rolled-Outcome rolled back =
        subst (λ z. Outcome (resolve_reservation_race D q id (later z))) (sym back) resolved-Outcome

    finished-Outcome :
        (a : RunReservation ⊎ AgentRunModel) (d1 rolled : D.Db) (x : Answer D.Db)
        → rolled ≡ others d
        → ((d2 : D.Db) → x ≡ rows d2 → d2 ≡ d1)
        → Reserving D q id stamp d (others d) a d1
        → Outcome (reserved D q id later (finish a x rolled))
    finished-Outcome (inl res) d1 rolled (rows d2) back same h = inl (seen-IsReplay res h)
    finished-Outcome (inr model) d1 rolled (rows d2) back same h =
        let (row, (there, idle)) = h in
        owned-Outcome (shown D model) d2 (ap (shown D) (sym row))
          (ap (λ z. D.run z stamp.id) (same d2 refl) ∙ there ∙ ap some row) idle
    finished-Outcome a d1 rolled integrity_error back same h = rolled-Outcome rolled back
    finished-Outcome a d1 rolled database_error back same h = tt

    closed-Outcome :
        (x : Ending (RunReservation ⊎ AgentRunModel) × D.Db)
        → Ends D (Reserving D q id stamp d (others d)) x
        → Outcome (reserved D q id later (close D.commit D.rollback x (others d)))
    closed-Outcome (done a, d1) h =
        finished-Outcome a d1 (D.rollback (others d) d1) (D.commit d1)
          (L.rollback_lem (others d) d1) (λ d2 e. L.commit_lem d1 d2 e) h
    closed-Outcome (conflicted, d1) h =
        rolled-Outcome (D.rollback (others d) d1) (L.rollback_lem (others d) d1)
    closed-Outcome (broken, d1) h = tt
    closed-Outcome (raised e, d1) h = tt

  -- A reservation that `reserve_run` returns, whatever other transactions commit while it waits for a
  -- lock or before it resolves a race, is either a replay or a grant. A replay shows a run that is
  -- stored with the request's idempotency key and hash, before the call, after its wait, or when the
  -- race is resolved, and is not for the caller to execute. With a grant, the run is stored as pending
  -- and the result shows it, and no run of its session was pending or running after the wait.
  pub reserve_run-Reservation :
      (L : IsDatabase D) (q : RunRequest) (session_stamp stamp : Stamp) (others later : D.Db → D.Db)
      (d : D.Db)
      → Reservation q
          (or_uuid q.session_id session_stamp.id)
          stamp
          others
          later
          d
          (reserve_run D q session_stamp stamp others later d)
  unfolding reserve_run
  reserve_run-Reservation L q session_stamp stamp others later d =
      let id = or_uuid q.session_id session_stamp.id in
      closed-Outcome L q id stamp others later d (reserving D q id session_stamp stamp others d)
        (reserving-Reserving D L q id session_stamp stamp others d)
