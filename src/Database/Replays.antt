-- ===== src/Database/Replays.antt =====
-- What the checks of a reservation in the database store find: a run of the same key, an idle session.
use dayu_water_agent.Prelude.{
  ◌≡◌, refl, Bool-cases, eq_iff, String, false, Option, none, some, ◌==◌, inl, inr,
}
use dayu_water_agent.Errors.{Result, ok, err}
use dayu_water_agent.Runtime.State.{AgentRun, RunReservation}
use dayu_water_agent.Memory.Runs.{RunRequest}
use dayu_water_agent.Database.Models.{AgentRunModel}
use dayu_water_agent.Database.Transactions.{query, busy, idempotent_run, refuse_active, shown}
use dayu_water_agent.Database.Engine.{rows, Database, IsDatabase, is_active_value}
use dayu_water_agent.Database.Reservations.{idempotent_reservation, replayed}
use dayu_water_agent.Database.Outcomes.{Ends, bind-Ends, query-Ends, answered-Ends}

module _ (D : Database) where
  -- The row is stored, and has the key of the request.
  abbrev pub IsStored : RunRequest → D.Db → AgentRunModel → Type 0
  IsStored q d existing =
      (D.run d existing.id ≡ some existing) × (existing.idempotency_key ≡ q.idempotency_key)

  -- No run of the session is pending or running.
  abbrev pub IsIdle : D.Db → String → Type 0
  IsIdle d id =
      (k : String) (row : AgentRunModel)
      → D.run d k ≡ some row
      → row.session_id ≡ id
      → is_active_value row.status ≡ false

  -- The reservation is not for the caller to execute: it shows a run that `Seen` tells of, with the
  -- caller's request hash.
  abbrev pub IsReplay : (AgentRunModel → Type 0) → RunRequest → RunReservation → Type 0
  IsReplay Seen q res =
      (res.owns_execution ≡ false)
      × ((existing : AgentRunModel) × (Seen existing
            × ((existing.request_hash ≡ q.request_hash) × (shown D existing ≡ ok res.run))))

  module _ (Seen : AgentRunModel → Type 0) (q : RunRequest) where
    replayed-IsReplay :
        (existing : AgentRunModel) (r : Result AgentRun) (d : D.Db)
        → Seen existing
        → existing.request_hash ≡ q.request_hash
        → shown D existing ≡ r
        → Ends D (λ res _. IsReplay Seen q res) (replayed D r, d)
    replayed-IsReplay existing (ok run) d there h e = (refl, (existing, (there, (h, e))))
    replayed-IsReplay existing (err f) d there h e = tt

    pub idempotent_reservation-IsReplay :
        (existing : AgentRunModel) (d : D.Db)
        → Seen existing
        → Ends D (λ res _. IsReplay Seen q res) (idempotent_reservation D existing q.request_hash d)
    unfolding idempotent_reservation
    idempotent_reservation-IsReplay existing d there =
        elim (Bool-cases (existing.request_hash == q.request_hash)) [
          | inl y ↦ rw y (
              replayed-IsReplay existing (shown D existing) d there
                ((eq_iff existing.request_hash q.request_hash).0 y) refl)
          | inr n ↦ rw n tt
        ]

  -- The run that the key names, if it names one, is stored.
  abbrev pub Found : RunRequest → D.Db → Option AgentRunModel → D.Db → Type 0
  Found q d o d' =
      (d' ≡ d) × ((existing : AgentRunModel) → o ≡ some existing → IsStored q d existing)

  Found-by_key :
      (L : IsDatabase D) (q : RunRequest) (key : Option String) (d : D.Db)
      → q.idempotency_key ≡ key
      → Ends D (Found q d) (idempotent_run D key d)
  unfolding idempotent_run
  Found-by_key L q none d same = (refl, λ existing e. cc)
  Found-by_key L q (some key) d same =
      answered-Ends D (D.select_run_by_key key d) d (Found q d) λ o e. (
        refl,
        λ existing h.
            let (at, named) = L.select_run_by_key_lem key d existing (rw (← h) e) in
            (at, rw (named, same) refl),
      )

  pub idempotent_run-Found :
      (L : IsDatabase D) (q : RunRequest) (d : D.Db)
      → Ends D (Found q d) (idempotent_run D q.idempotency_key d)
  idempotent_run-Found L q d = Found-by_key L q q.idempotency_key d refl

  busy-IsIdle :
      (L : IsDatabase D) (id : String) (o : Option AgentRunModel) (d d' : D.Db)
      → D.select_active_run id d ≡ rows o
      → d' ≡ d
      → Ends D (λ _ d''. (d'' ≡ d) × IsIdle d id) (busy D id o d')
  busy-IsIdle L id none d d' e same = (same, λ k row. L.select_active_run_lem id k d row e)
  busy-IsIdle L id (some active) d d' e same = tt

  pub refuse_active-IsIdle :
      (L : IsDatabase D) (id : String) (d : D.Db)
      → Ends D (λ _ d'. (d' ≡ d) × IsIdle d id) (refuse_active D id d)
  unfolding refuse_active
  refuse_active-IsIdle L id d =
      bind-Ends D (λ _ d'. (d' ≡ d) × IsIdle d id) (query (D.select_active_run id)) (busy D id) d
        (query-Ends D (D.select_active_run id) d) λ o d' h. busy-IsIdle L id o d d' h.0 h.1
