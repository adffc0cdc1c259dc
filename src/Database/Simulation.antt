-- ===== src/Database/Simulation.antt =====
-- A relation between the two stores, and what keeps it: a transaction of the database store beside a
-- method of the in-memory store.
use dayu_water_agent.Prelude.{
  subst, ◌≡◌, refl, ap, sym, String, Bool, true, false, Option, none, some, List, if◌then◌else◌,
}
use dayu_water_agent.Dict.{get}
use dayu_water_agent.Errors.{failure, Failure, Result, ok, err}
use dayu_water_agent.Errors.Kinds.{run_not_found}
use dayu_water_agent.Runtime.State.{AgentRun, StreamEvent}
use dayu_water_agent.Memory.Store
use dayu_water_agent.Memory.Store.{
  MemoryStore, run_details, Stamp, Exec, put_run, run_locked, append_event_locked, events_at,
  new_event,
}
use dayu_water_agent.Database.Models.{
  AgentRunModel, parse_status, parsed_run, or_empty_object, run_record,
}
use dayu_water_agent.Database.Engine.{
  Answer, rows, integrity_error, database_error, Database, IsDatabase,
}
use dayu_water_agent.Database.Transactions.{
  Ending, done, conflicted, broken, raised, Tx, ◌>>=◌, pure, raise, lift, answered, locked_run,
  run_or_raise,
}

-- A row and the run that `_run` makes of it.
pub record Reads (D : Database) (row : AgentRunModel) (r : AgentRun) : Type 0 where
  pub status : parse_status row.status ≡ some r.status
  pub usage : D.validate_usage (or_empty_object row.usage_json) ≡ some r.usage
  pub fields : r ≡ parsed_run row r.status r.usage

module _ (D : Database) where
  pub Reads-run_record :
      (row : AgentRunModel) (r : AgentRun) → Reads D row r → run_record D.validate_usage row ≡ ok r
  unfolding run_record
  Reads-run_record row r h = rw (h.status, h.usage) (ap ok (sym h.fields))

  abbrev pub SameRun : Option AgentRunModel → Option AgentRun → Type 0
  SameRun none none = Unit
  SameRun (some row) (some r) = Reads D row r
  SameRun _ _ = ⊥

  -- The two stores hold the same runs.
  pub record Related (d : D.Db) (s : MemoryStore) : Type 0 where
    pub runs : (k : String) → SameRun (D.run d k) (get s.runs k)
    pub ids : (k : String) (row : AgentRunModel) → D.run d k ≡ some row → row.id ≡ k
    pub events :
        (k : String) (r : AgentRun)
        → get s.runs k ≡ some r
        → (es : List StreamEvent) × (get s.events k ≡ some es)

  -- They hold the same runs, and a run `id`.
  abbrev pub Held : String → D.Db → MemoryStore → Type 0
  Held id d s = Related d s × ((r : AgentRun) × (get s.runs id ≡ some r))

  -- A transaction that the database fails agrees with everything; else the two results agree.
  abbrev pub Agree :
      {A B : Type 0}
      → (D.Db → MemoryStore → Type 0)
      → (A → B → Type 0)
      → Ending A × D.Db
      → Result B × MemoryStore
      → Type 0
  Agree Q R (conflicted, d) y = Unit
  Agree Q R (broken, d) y = Unit
  Agree Q R (done a, d) (ok b, s) = R a b × Q d s
  Agree Q R (done a, d) (err f, s) = ⊥
  Agree Q R (raised e, d) (ok b, s) = ⊥
  Agree Q R (raised e, d) (err f, s) = e ≡ f

  pub record Sim (A B : Type 0) (P Q : D.Db → MemoryStore → Type 0) (R : A → B → Type 0)
      (m : Tx D.Db A) (n : Exec B) : Type 0 where
    pub at : (d : D.Db) (s : MemoryStore) → P d s → Agree Q R (m d) (n s)

  module _ {A B : Type 0} {P Q : D.Db → MemoryStore → Type 0} {R : A → B → Type 0} where
    pub Sim-pure :
        (a : A) (b : B)
        → ((d : D.Db) (s : MemoryStore) → P d s → Q d s)
        → R a b
        → Sim A B P Q R (pure a) (Store.pure b)
    Sim-pure a b k h = record { at = λ d s p. (h, k d s p) }

    pub Sim-raise : (e f : Failure) → e ≡ f → Sim A B P Q R (raise e) (Store.raise f)
    Sim-raise e f same = record { at = λ d s p. same }

    pub Sim-if :
        (c c' : Bool) {m m' : Tx D.Db A} {n n' : Exec B}
        → c ≡ c'
        → Sim A B P Q R m n
        → Sim A B P Q R m' n'
        → Sim A B P Q R (if c then m else m') (if c' then n else n')
    Sim-if true true e km kn = km
    Sim-if true false e km kn = cc
    Sim-if false true e km kn = cc
    Sim-if false false e km kn = kn

    -- A check that both stores make.
    pub Sim-check :
        (c : Result (Unit {0})) {m : Tx D.Db A} {n : Exec B}
        → (c ≡ ok tt → Sim A B P Q R m n)
        → Sim A B P Q R (lift c >>= λ _. m) (Store.◌>>=◌ (Store.lift c) λ _. n)
    Sim-check (ok tt) k = k refl
    Sim-check (err e) k = record { at = λ d s p. refl }

    -- A row that is shown, and the run that it is.
    pub Sim-shown :
        (row : AgentRunModel) (r : AgentRun) (a : A) (b : B)
        → Reads D row r
        → ((d : D.Db) (s : MemoryStore) → P d s → Q d s)
        → R a b
        → Sim A B P Q R (lift (run_record D.validate_usage row) >>= λ _. pure a) (Store.pure b)
    Sim-shown row r a b same k h = rw (Reads-run_record row r same) (Sim-pure a b k h)

    -- A check that both stores make unless `c`.
    pub running-or-checked :
        (c : Bool) (check : Result (Unit {0})) {m : Tx D.Db A} {n : Exec B}
        → Sim A B P Q R m n
        → Sim A B P Q R
            ((if c then pure tt else lift check) >>= λ _. m)
            (Store.◌>>=◌ (if c then Store.pure tt else Store.lift check) λ _. n)
    running-or-checked true check k = k
    running-or-checked false check k = Sim-check check λ _. k

  module _ {A B : Type 0} (Q : D.Db → MemoryStore → Type 0) (R : A → B → Type 0) where
    locked-Agree :
        (id : String) (f : AgentRunModel → Tx D.Db A) (g : AgentRun → Exec B) (d : D.Db)
        (s : MemoryStore) (x : Answer (Option AgentRunModel)) (o : Option AgentRun)
        → ((y : Option AgentRunModel) → x ≡ rows y → SameRun y o)
        → ((row : AgentRunModel) (r : AgentRun)
            → x ≡ rows (some row)
            → o ≡ some r
            → Agree Q R (f row d) (g r s))
        → Agree Q R
            ((answered x >>= run_or_raise D id >>= f) d)
            (Store.continue (Store.found (failure run_not_found (run_details id)) o) g s)
    locked-Agree id f g d s (rows none) none same k = refl
    locked-Agree id f g d s (rows none) (some r) same k = absurd (same none refl)
    locked-Agree id f g d s (rows (some row)) none same k = absurd (same (some row) refl)
    locked-Agree id f g d s (rows (some row)) (some r) same k = k row r refl refl
    locked-Agree id f g d s integrity_error o same k = tt
    locked-Agree id f g d s database_error o same k = tt

    pub Sim-locked :
        (L : IsDatabase D) (id : String) {f : AgentRunModel → Tx D.Db A} {g : AgentRun → Exec B}
        → ((row : AgentRunModel) (r : AgentRun)
            → Reads D row r
            → row.id ≡ id
            → Sim A B (Held id) Q R (f row) (g r))
        → Sim A B Related Q R (locked_run D id >>= f) (Store.◌>>=◌ (run_locked id) g)
    unfolding locked_run run_locked
    Sim-locked L id {f} {g} k = record {
      at = λ d s p.
          locked-Agree id f g d s (D.select_run id d) (get s.runs id)
            (λ y e.
              subst (λ z. SameRun z (get s.runs id)) (sym (L.select_run_lem id d y e)) (p.runs id))
            (λ row r e h.
              let there : D.run d id ≡ some row = sym (L.select_run_lem id d (some row) e) in
              let same : Reads D row r =
                subst (λ z. SameRun (some row) z) h
                  (subst (λ z. SameRun z (get s.runs id)) there (p.runs id)) in
              (k row r same (p.ids id row there)).at d s (p, (r, h)));
    }
