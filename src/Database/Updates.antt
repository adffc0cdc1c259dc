-- ===== src/Database/Updates.antt =====
-- A run that both stores write stays the same in both.
use dayu_water_agent.Prelude.{
  ℕ, ◌+◌, ◌≡◌, refl, ◌∙◌, ap, String, some, List, [], ◌∷◌, ◌++◌, ◌==◌, arith, if◌then◌else◌,
  Bool-cases, inl, inr, eq_iff, length,
}
use dayu_water_agent.Dict.{get, put}
use dayu_water_agent.Dict.Laws.{get-put}
use dayu_water_agent.Json.{Payload}
use dayu_water_agent.Errors.{Result, ok}
use dayu_water_agent.Runtime.State.{StreamEventType, AgentRun, StreamEvent}
use dayu_water_agent.Memory.Store
use dayu_water_agent.Memory.Store.{
  MemoryStore, run_details, Stamp, Exec, put_run, run_locked, append_event_locked, events_at,
  new_event,
}
use dayu_water_agent.Database.Models.{AgentRunModel}
use dayu_water_agent.Database.Engine.{
  Answer, rows, integrity_error, database_error, Database, IsDatabase,
}
use dayu_water_agent.Database.Transactions
use dayu_water_agent.Database.Transactions.{
  Ending, done, conflicted, broken, raised, Tx, ◌>>=◌, ◌>>◌, pure, raise, lift, query, execute,
  answered, written, locked_run, append_event, status_of, run_or_raise,
}
use dayu_water_agent.Database.Simulation.{Reads, Related, Held, Agree, Sim}

module _ (D : Database) where
  module _ {A B : Type 0} (Q : D.Db → MemoryStore → Type 0) (R : A → B → Type 0) where
    executed :
        (x : Answer D.Db) (f : Tx D.Db A) (d : D.Db) (y : Result B × MemoryStore)
        → ((d' : D.Db) → x ≡ rows d' → Agree D Q R (f d') y)
        → Agree D Q R ((written x >>= λ _. f) d) y
    executed (rows d') f d y k = k d' refl
    executed integrity_error f d y k = tt
    executed database_error f d y k = tt

    -- A statement that writes; what follows is looked at where it succeeds.
    Agree-execute :
        (statement : D.Db → Answer D.Db) (f : Tx D.Db A) (d : D.Db) (y : Result B × MemoryStore)
        → ((d' : D.Db) → statement d ≡ rows d' → Agree D Q R (f d') y)
        → Agree D Q R ((execute statement >>= λ _. f) d) y
    Agree-execute statement f d y k = executed (statement d) f d y k

    inserted :
        {E : Type 0} (x : Answer D.Db) (e : E) (f : Tx D.Db A) (d : D.Db)
        (y : Result B × MemoryStore)
        → ((d' : D.Db) → x ≡ rows d' → Agree D Q R (f d') y)
        → Agree D Q R (((written x >>= λ _. pure e) >>= λ _. f) d) y
    inserted (rows d') e f d y k = k d' refl
    inserted integrity_error e f d y k = tt
    inserted database_error e f d y k = tt

    numbered :
        {E : Type 0} (x : Answer ℕ) (insert : ℕ → D.Db → Answer D.Db) (event : ℕ → E)
        (f : Tx D.Db A) (d : D.Db) (y : Result B × MemoryStore)
        → ((n : ℕ) (d' : D.Db) → insert n d ≡ rows d' → Agree D Q R (f d') y)
        → Agree D Q R
            (((answered x >>= λ n. execute (insert n) >>= λ _. pure (event n)) >>= λ _. f) d)
            y
    numbered (rows n) insert event f d y k = inserted (insert n d) (event n) f d y (k n)
    numbered integrity_error insert event f d y k = tt
    numbered database_error insert event f d y k = tt

  written-Related :
      (id : String) (row' : AgentRunModel) (r' : AgentRun) (d d' : D.Db) (s t : MemoryStore)
      → Reads D row' r'
      → row'.id ≡ id
      → ((k : String) → D.run d' k ≡ (if id == k then some row' else D.run d k))
      → t.runs ≡ put s.runs id r'
      → ((k : String) (es : List StreamEvent)
          → get s.events k ≡ some es
          → (es' : List StreamEvent) × (get t.events k ≡ some es'))
      → Held D id d s
      → (Related D) d' t
  written-Related id row' r' d d' s t same named now put_there kept held =
      let (p, (r0, h0)) = held in
      record {
        runs = λ k. elim (Bool-cases (id == k)) [
          | inl y ↦ rw (now k) (rw put_there (rw (get-put s.runs id k r') (rw y same)))
          | inr n ↦ rw (now k) (rw put_there (rw (get-put s.runs id k r') (rw n (p.runs k))))
        ];
        ids = λ k row e. elim (Bool-cases (id == k)) [
          | inl y ↦ ground (arith, e, now k, y, named, eq_iff id k)
          | inr n ↦ p.ids k row (ground (arith, e, now k, n))
        ];
        events = λ k x h. elim (Bool-cases (id == k)) [
          | inl y ↦
              let (es, there) = p.events id r0 h0 in kept k es (rw (← (eq_iff id k).0 y) there)
          | inr n ↦
              let (es, there) =
                p.events k x (ground (arith, h, put_there, get-put s.runs id k r')) in
              kept k es there
        ];
      }

  -- Both stores write the run, and append an event to its stream.
  pub Sim-advance :
      {A B : Type 0} (R : A → B → Type 0) (a : A) (b : B) (L : IsDatabase D) (id : String)
      (row' : AgentRunModel) (r' : AgentRun) (type : StreamEventType) (payload : Payload)
      (stamp : Stamp)
      → R a b
      → Reads D row' r'
      → row'.id ≡ id
      → Sim D A B
          (Held D id)
          (Related D)
          R
          (execute (D.update_run row') >>= λ _.
            append_event D row' type payload stamp >>= λ _. pure a)
          (Store.◌>>◌
            (Store.◌>>◌ (put_run id r') (append_event_locked id type payload stamp))
            (Store.pure b))
  unfolding append_event append_event_locked events_at
  Sim-advance R a b L id row' r' type payload stamp result same named = record {
    at = λ d s held.
        let (p, (r, h)) = held in
        let (es, there) = p.events id r h in
        let log = es ++ new_event id type payload stamp (length es + 1) ∷ [] in
        let after = record s { runs = put s.runs id r'; events = put s.events id log } in
        let y =
          Store.◌>>◌ (Store.◌>>◌ (put_run id r') (append_event_locked id type payload stamp))
            (Store.pure b) s in
        let mem : y ≡ (ok b, after) = ground (arith, there) in
        Agree-execute (Related D) R (D.update_run row')
          (append_event D row' type payload stamp >>= λ _. pure a) d y
          λ d1 e1.
            numbered (Related D) R (D.max_event_sequence row'.id d1)
              (λ n. D.insert_event (Transactions.new_event row'.id type payload stamp (n + 1)))
              (λ n. Transactions.new_event row'.id type payload stamp (n + 1)) (pure a) d1 y
              λ n d2 e2. rw mem (
                result,
                written-Related id row' r' d d2 s after same named
                    (λ k.
                      L.insert_event_runs
                        (Transactions.new_event row'.id type payload stamp (n + 1)) d1 d2 k e2
                      ∙ L.update_run_lem row' d d1 k e1
                      ∙ ap (λ z. if z == k then some row' else D.run d k) named)
                    refl
                    (λ k old e. elim (Bool-cases (id == k)) [
                      | inl y ↦ (log, ground (arith, get-put s.events id k log))
                      | inr m ↦ (old, ground (arith, e, get-put s.events id k log))
                    ])
                    held,
              );
  }

  -- Both stores write the run.
  pub Sim-update :
      (L : IsDatabase D) (id : String) (row' : AgentRunModel) (r' : AgentRun)
      → Reads D row' r'
      → row'.id ≡ id
      → Sim D AgentRunModel AgentRun
          (Held D id)
          (Related D)
          (Reads D)
          (execute (D.update_run row') >>= λ _. pure row')
          (Store.◌>>◌ (put_run id r') (Store.pure r'))
  Sim-update L id row' r' same named = record {
    at = λ d s held.
        Agree-execute (Related D) (Reads D) (D.update_run row') (pure row') d
          (ok r', record s { runs = put s.runs id r' })
          λ d1 e1. (
            same,
            written-Related id row' r' d d1 s (record s { runs = put s.runs id r' }) same named
                (λ k.
                  L.update_run_lem row' d d1 k e1
                  ∙ ap (λ z. if z == k then some row' else D.run d k) named)
                refl (λ k es e. (es, e)) held,
          );
  }
