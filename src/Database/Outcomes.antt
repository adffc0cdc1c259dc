-- ===== src/Database/Outcomes.antt =====
-- What holds after a transaction that commits, by rules for its statements.
use dayu_water_agent.Prelude.{◌≡◌, refl, sym, subst, ◌∙◌, String, Option, none, some}
use dayu_water_agent.Errors.{Result, ok, err}
use dayu_water_agent.Database.Models.{AgentRunModel}
use dayu_water_agent.Database.Transactions.{
  Ending, done, conflicted, broken, raised, Tx, ◌>>=◌, query, execute, transaction, method, close,
  locked_run, returned,
}
use dayu_water_agent.Database.Engine.{
  Answer, rows, integrity_error, database_error, Database, IsDatabase,
}
use dayu_water_agent.Database.Transactions.{
  translated, finish, answered, written, continue, run_or_raise,
}

module _ (D : Database) where
  -- The body returned, and then `Q` holds of what it returned.
  abbrev pub Ends : {A : Type 0} → (A → D.Db → Type 0) → Ending A × D.Db → Type 0
  Ends Q (done a, d) = Q a d
  Ends Q _ = Unit

  module _ {A B : Type 0} {P : A → D.Db → Type 0} (Q : B → D.Db → Type 0) where
    continue-Ends :
        (x : Ending A) (d : D.Db) (f : A → Tx D.Db B)
        → Ends P (x, d)
        → ((a : A) (d' : D.Db) → P a d' → Ends Q (f a d'))
        → Ends Q (continue x f d)
    continue-Ends (done a) d f h k = k a d h
    continue-Ends conflicted d f h k = tt
    continue-Ends broken d f h k = tt
    continue-Ends (raised e) d f h k = tt

    pub bind-Ends :
        (m : Tx D.Db A) (f : A → Tx D.Db B) (d : D.Db)
        → Ends P (m d)
        → ((a : A) (d' : D.Db) → P a d' → Ends Q (f a d'))
        → Ends Q ((m >>= f) d)
    bind-Ends m f d h k = continue-Ends (m d).0 (m d).1 f h k

  module _ {A : Type 0} where
    pub answered-Ends :
        (x : Answer A) (d : D.Db) (Q : A → D.Db → Type 0)
        → ((a : A) → x ≡ rows a → Q a d)
        → Ends Q (answered x d)
    answered-Ends (rows a) d Q k = k a refl
    answered-Ends integrity_error d Q k = tt
    answered-Ends database_error d Q k = tt

    -- A statement that reads: what it answered, and the same rows.
    pub query-Ends :
        (st : D.Db → Answer A) (d : D.Db) → Ends (λ a d'. (st d ≡ rows a) × (d' ≡ d)) (query st d)
    query-Ends st d = answered-Ends (st d) d (λ a d'. (st d ≡ rows a) × (d' ≡ d)) λ a e. (e, refl)

  pub written-Ends :
      (x : Answer D.Db) (d : D.Db) (Q : Unit {0} → D.Db → Type 0)
      → ((d' : D.Db) → x ≡ rows d' → Q tt d')
      → Ends Q (written x d)
  written-Ends (rows d') d Q k = k d' refl
  written-Ends integrity_error d Q k = tt
  written-Ends database_error d Q k = tt

  pub execute-Ends :
      (st : D.Db → Answer D.Db) (d : D.Db) → Ends (λ _ d'. st d ≡ rows d') (execute st d)
  execute-Ends st d = written-Ends (st d) d (λ _ d'. st d ≡ rows d') λ d' e. e

  pub run_or_raise-Ends :
      (id : String) (o : Option AgentRunModel) (d : D.Db) (Q : AgentRunModel → D.Db → Type 0)
      → ((r : AgentRunModel) → o ≡ some r → Q r d)
      → Ends Q (run_or_raise D id o d)
  run_or_raise-Ends id none d Q k = tt
  run_or_raise-Ends id (some r) d Q k = k r refl

  -- The row that is locked is the row of that key.
  pub locked_run-Ends :
      (L : IsDatabase D) (id : String) (d : D.Db)
      → Ends (λ r d'. (D.run d id ≡ some r) × (d' ≡ d)) (locked_run D id d)
  unfolding locked_run
  locked_run-Ends L id d =
      bind-Ends (λ r d'. (D.run d id ≡ some r) × (d' ≡ d)) (query (D.select_run id))
        (run_or_raise D id) d (query-Ends (D.select_run id) d)
        λ o d' h.
          run_or_raise-Ends id o d' (λ r d''. (D.run d id ≡ some r) × (d'' ≡ d))
            λ r e. (sym (L.select_run_lem id d o h.0) ∙ e, h.1)

  -- A result, and the rows that it comes with: those before where it is a failure.
  abbrev pub Kept : {A : Type 0} → D.Db → (A → D.Db → Type 0) → Result A × D.Db → Type 0
  Kept d Q (ok a, d') = Q a d'
  Kept d Q (err e, d') = d' ≡ d

  module _ {A : Type 0} (L : IsDatabase D) (operation : String) (d : D.Db)
      (Q : A → D.Db → Type 0) where
    finish-Kept :
        (a : A) (d1 rolled : D.Db) (x : Answer D.Db)
        → rolled ≡ d
        → ((d2 : D.Db) → x ≡ rows d2 → d2 ≡ d1)
        → Q a d1
        → Kept d Q (translated operation (finish a x rolled).0, (finish a x rolled).1)
    unfolding translated
    finish-Kept a d1 rolled (rows d2) back same h = subst (Q a) (sym (same d2 refl)) h
    finish-Kept a d1 rolled integrity_error back same h = back
    finish-Kept a d1 rolled database_error back same h = back

    close-Kept :
        (x : Ending A × D.Db)
        → Ends Q x
        → Kept d Q (
          translated operation (close D.commit D.rollback x d).0,
          (close D.commit D.rollback x d).1,
        )
    unfolding translated
    close-Kept (done a, d1) h =
        finish-Kept a d1 (D.rollback d d1) (D.commit d1) (L.rollback_lem d d1)
          (λ d2 e. L.commit_lem d1 d2 e) h
    close-Kept (conflicted, d1) h = L.rollback_lem d d1
    close-Kept (broken, d1) h = L.rollback_lem d d1
    close-Kept (raised e, d1) h = L.rollback_lem d d1

    -- A method rolls back when it fails.
    pub method-Kept : (m : Tx D.Db A) → Ends Q (m d) → Kept d Q (method D operation m d)
    unfolding method transaction
    method-Kept m h = close-Kept (m d) h

  -- What a method makes of the rows that it returns.
  pub returned-Kept :
      {A B : Type 0} (d : D.Db) (Q : A → D.Db → Type 0) (R : B → D.Db → Type 0)
      (convert : A → Result B) (x : Result A × D.Db)
      → ((a : A) (d' : D.Db) → Q a d' → (b : B) × ((convert a ≡ ok b) × R b d'))
      → Kept d Q x
      → Kept d R (returned D convert x)
  returned-Kept d Q R convert (ok a, d') k h =
      let (b, (e, r)) = k a d' h in subst (λ z. Kept d R (z, d')) (sym e) r
  returned-Kept d Q R convert (err e, d') k h = h
