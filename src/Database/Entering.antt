-- ===== src/Database/Entering.antt =====
-- What the transaction of a reservation in the database store returns, and what it has written.
use dayu_water_agent.Prelude.{
  ◌≡◌, refl, sym, subst, ◌∙◌, ap, eq_refl, String, Option, none, some, if◌then◌else◌, ◌⊎◌, inl, inr,
}
use dayu_water_agent.Runtime.State.{RunReservation}
use dayu_water_agent.Memory.Store.{Stamp}
use dayu_water_agent.Memory.Runs.{RunRequest}
use dayu_water_agent.Database.Models.{AgentSessionModel, AgentRunModel}
use dayu_water_agent.Database.Engine.{Database, IsDatabase}
use dayu_water_agent.Database.Transactions.{
  Tx, pure, query, execute, locked_session, idempotent_run, refuse_active, session_or_raise,
}
use dayu_water_agent.Database.Transcripts.{session_row}
use dayu_water_agent.Database.Reservations.{
  idempotent_reservation, owning_session, session_entered, run_row, run_entered, replay,
  unless_known, reserve_new, reserving,
}
use dayu_water_agent.Database.Outcomes.{Ends, bind-Ends, query-Ends, execute-Ends, written-Ends}
use dayu_water_agent.Database.Replays.{
  IsStored, IsIdle, IsReplay, idempotent_reservation-IsReplay, idempotent_run-Found,
  refuse_active-IsIdle,
}

module _ (D : Database) where
  abbrev SameRuns : D.Db → D.Db → Type 0
  SameRuns d d' = (k : String) → D.run d' k ≡ D.run d k

  locked-same :
      (id : String) (o : Option AgentSessionModel) (d : D.Db)
      → Ends D (λ _ d'. d' ≡ d) (session_or_raise D id o d)
  locked-same id none d = tt
  locked-same id (some x) d = refl

  session_entered-same :
      (L : IsDatabase D) (q : RunRequest) (id : String) (stamp : Stamp) (o : Option String)
      (d : D.Db)
      → Ends D (λ _ d'. SameRuns d d') (session_entered D q id stamp o d)
  unfolding locked_session
  session_entered-same L q id stamp none d =
      let x = session_row id q.user_id q.session_metadata stamp in
      written-Ends D (D.insert_session x d) d (λ _ d'. SameRuns d d')
        λ d' e k. L.insert_session_runs x d d' k e
  session_entered-same L q id stamp (some _) d =
      bind-Ends D (λ _ d'. SameRuns d d') (locked_session D id) (λ _. pure tt) d
        (bind-Ends D (λ _ d'. d' ≡ d) (query (D.select_session id)) (session_or_raise D id) d
          (query-Ends D (D.select_session id) d)
          λ o d' h.
            subst (λ z. Ends D (λ _ d''. d'' ≡ z) (session_or_raise D id o d')) h.1
              (locked-same id o d'))
        λ _ d' same k. ap (λ z. D.run z k) same

  -- A replay of a run that was stored at first or in `base`, or the row that it inserted while its
  -- session was idle; `base` is what the transaction sees once it has waited.
  abbrev pub Seen : RunRequest → D.Db → D.Db → AgentRunModel → Type 0
  Seen q d base existing = IsStored D q d existing ⊎ IsStored D q base existing

  abbrev pub Reserving :
      RunRequest → String → Stamp → D.Db → D.Db → RunReservation ⊎ AgentRunModel → D.Db → Type 0
  Reserving q id stamp d base (inl res) d' = IsReplay D (Seen q d base) q res
  Reserving q id stamp d base (inr model) d' =
      (model ≡ run_row q id stamp) × ((D.run d' stamp.id ≡ some model) × IsIdle D base id)

  module _ (L : IsDatabase D) (q : RunRequest) (id : String) (stamp : Stamp) (d base : D.Db) where
    abbrev Q : RunReservation ⊎ AgentRunModel → D.Db → Type 0
    Q = Reserving q id stamp d base

    unless_known-Reserving :
        (next : Tx D.Db (RunReservation ⊎ AgentRunModel)) (o : Option AgentRunModel) (d1 : D.Db)
        → ((existing : AgentRunModel) → o ≡ some existing → Seen q d base existing)
        → Ends D Q (next d1)
        → Ends D Q (unless_known D q.request_hash next o d1)
    unfolding replay
    unless_known-Reserving next none d1 there h = h
    unless_known-Reserving next (some existing) d1 there h =
        bind-Ends D Q (idempotent_reservation D existing q.request_hash) (λ res. pure (inl res)) d1
          (idempotent_reservation-IsReplay D (Seen q d base) q existing d1 (there existing refl))
          λ res d2 g. g

    run_entered-Reserving : (d1 : D.Db) → SameRuns base d1 → Ends D Q (run_entered D q id stamp d1)
    unfolding run_entered
    run_entered-Reserving d1 same =
        let row = run_row q id stamp in
        bind-Ends D Q (refuse_active D id) _ d1 (refuse_active-IsIdle D L id d1) λ _ d2 h.
          bind-Ends D Q (execute (D.insert_run row)) _ d2 (execute-Ends D (D.insert_run row) d2)
            λ _ d3 e. (
              refl,
              (
                L.insert_run_lem row d2 d3 stamp.id e
                    ∙ ap (λ z. if z then some row else D.run d2 stamp.id) (eq_refl stamp.id),
                λ k r there. h.1 k r (same k ∙ there),
              ),
            )

    -- A run that is stored after the session was entered was stored before.
    IsStored-before :
        (d1 : D.Db) (existing : AgentRunModel)
        → SameRuns base d1
        → IsStored D q d1 existing
        → IsStored D q base existing
    IsStored-before d1 existing same h = (sym (same existing.id) ∙ h.0, h.1)

  reserve_new-Reserving :
      (L : IsDatabase D) (q : RunRequest) (id : String) (session_stamp stamp : Stamp)
      (others : D.Db → D.Db) (d : D.Db)
      → Ends D (Reserving q id stamp d (others d)) (reserve_new D q id session_stamp stamp others d)
  unfolding reserve_new owning_session
  reserve_new-Reserving L q id session_stamp stamp others d =
      let base = others d in
      let Q = Reserving q id stamp d base in
      bind-Ends D Q (owning_session D q id session_stamp) _ base
        (session_entered-same L q id session_stamp q.session_id base)
        λ _ d1 same.
          bind-Ends D Q (idempotent_run D q.idempotency_key) _ d1 (idempotent_run-Found D L q d1)
            λ o d2 h.
              unless_known-Reserving L q id stamp d base (run_entered D q id stamp) o d2
                (λ existing e.
                  inr (IsStored-before L q id stamp d base d1 existing same (h.1 existing e)))
                (run_entered-Reserving L q id stamp d base d2 λ k. ap (λ z. D.run z k) h.0 ∙ same k)

  pub reserving-Reserving :
      (L : IsDatabase D) (q : RunRequest) (id : String) (session_stamp stamp : Stamp)
      (others : D.Db → D.Db) (d : D.Db)
      → Ends D (Reserving q id stamp d (others d)) (reserving D q id session_stamp stamp others d)
  unfolding reserving
  reserving-Reserving L q id session_stamp stamp others d =
      let Q = Reserving q id stamp d (others d) in
      let next = reserve_new D q id session_stamp stamp others in
      bind-Ends D Q (idempotent_run D q.idempotency_key) _ d (idempotent_run-Found D L q d)
        λ o d1 h.
          unless_known-Reserving L q id stamp d (others d) next o d1
            (λ existing e. inl (h.1 existing e))
            (subst (λ z. Ends D Q (next z)) (sym h.0)
              (reserve_new-Reserving L q id session_stamp stamp others d))
