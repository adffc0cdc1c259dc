-- ===== src/Database/Commits.antt =====
-- `commit_run_success` of `SQLAlchemyRuntimeStore`: the rows afterwards.
use dayu_water_agent.Prelude.{
  ℕ, ◌+◌, ◌<◌, ◌≡◌, refl, ◌∙◌, ap, arith, ◌↔◌, ◌⊎◌, inl, inr, eq_iff, String, some, [], ◌∷◌,
  if◌then◌else◌, ◌==◌,
}
use dayu_water_agent.Errors.{ok}
use dayu_water_agent.Runtime.Session.{user, assistant}
use dayu_water_agent.Runtime.State.{
  RunStatus, status_value, running, completed, validate_run_transition, response_completed,
  AgentRun,
}
use dayu_water_agent.Memory.Store.{Stamp}
use dayu_water_agent.Memory.Lifecycle.{Turn}
use dayu_water_agent.Database.Models.{
  AgentSessionModel, AgentRunModel, AgentMessageModel, AgentStreamEventModel, parse_status, or_none,
  run_record, message_record, event_record,
}
use dayu_water_agent.Database.Engine.{rows, Database, IsDatabase}
use dayu_water_agent.Database.Transactions.{
  Tx, ◌>>=◌, pure, execute, append_event, method, new_event, status_of,
}
use dayu_water_agent.Database.Lifecycle.{committed, commit_run_success, turn_row}
use dayu_water_agent.Database.Outcomes.{Ends, Kept, method-Kept, returned-Kept}
use dayu_water_agent.Database.Statements.{
  execute_first, lift_first, locked_run_first, locked_session_first, next_message_sequence_first,
  append_event_first,
}
use dayu_water_agent.Database.Recording.{
  finished_run, said, closing, completes_running, parsed, said_lem, closing_lem, DumpsUsage,
  finished_row, finished_lem,
}

both : {A B C : Type 0} → A ↔ B → B ↔ C → A ↔ C
both f g = (λ a. g.0 (f.0 a), λ c. f.1 (g.1 c))

and_more : {A B C : Type 0} → A ↔ B → (A ⊎ C) ↔ (B ⊎ C)
and_more {A} {B} {C} f = (forth, back)
  where
    forth : A ⊎ C → B ⊎ C
    forth (inl a) = inl (f.0 a)
    forth (inr c) = inr c

    back : B ⊎ C → A ⊎ C
    back (inl b) = inl (f.1 b)
    back (inr c) = inr c

module _ (D : Database) where
  -- The rows that stand after the commit of a run's turn.
  abbrev pub Written : String → Turn → Stamp → Stamp → Stamp → D.Db → AgentRunModel → D.Db → Type 0
  Written id turn user_stamp assistant_stamp stamp d row' d' =
      (row : AgentRunModel) × (n : ℕ) × (k : ℕ) × (D.run d id ≡ some row)
      × (parse_status row.status ≡ some running)
      × (row' ≡ finished_row D row turn stamp)
      × (D.run d' id ≡ some row')
      × ((m : AgentMessageModel)
          → D.HasMessage d m
          → m.session_id ≡ row.session_id
          → m.sequence < n)
      × ((m : AgentMessageModel)
          → D.HasMessage d' m ↔ (
              (D.HasMessage d m
                ⊎ (m ≡ turn_row D row "user" turn.user_content n turn.user_metadata user_stamp))
              ⊎ (m
                  ≡ turn_row D row "assistant" turn.assistant_content (n + 1)
                      turn.assistant_metadata assistant_stamp)))
      × D.HasEvent d' (new_event row.id response_completed (("result", turn.dumped) ∷ []) stamp k)

  updated_run :
      (L : IsDatabase D) (id : String) (row : AgentRunModel) (turn : Turn) (stamp : Stamp)
      (d d3 d4 : D.Db)
      → D.run d id ≡ some row
      → D.update_run (finished_row D row turn stamp) d3 ≡ rows d4
      → D.run d4 id ≡ some (finished_row D row turn stamp)
  updated_run L id row turn stamp d d3 d4 there h =
      L.update_run_lem (finished_row D row turn stamp) d3 d4 id h
      ∙ named (L.run_id_lem d id row there)
    where
      named :
          row.id ≡ id
          → (if row.id == id then some (finished_row D row turn stamp) else D.run d3 id)
            ≡ some (finished_row D row turn stamp)
      named e = rw ((eq_iff row.id id).1 e) refl

  module _ (L : IsDatabase D) (id : String) (turn : Turn) (user_stamp assistant_stamp stamp : Stamp)
      (d : D.Db) where
    abbrev Q : AgentRunModel → D.Db → Type 0
    Q = Written id turn user_stamp assistant_stamp stamp d

    -- The rows after the statements that write, one after another.
    written_lem :
        (row : AgentRunModel) (status : RunStatus) (x : AgentSessionModel) (n k : ℕ)
        (d1 d2 d3 d4 d5 : D.Db)
        → D.run d id ≡ some row
        → status_of row ≡ ok status
        → validate_run_transition status completed ≡ ok tt
        → D.max_message_sequence row.session_id d ≡ rows n
        → D.insert_message
            (turn_row D row "user" turn.user_content (n + 1) turn.user_metadata user_stamp)
            d
          ≡ rows d1
        → D.insert_message
            (turn_row D row "assistant" turn.assistant_content
              (n + 1 + 1)
              turn.assistant_metadata
              assistant_stamp)
            d1
          ≡ rows d2
        → D.update_session x d2 ≡ rows d3
        → D.update_run (finished_row D row turn stamp) d3 ≡ rows d4
        → D.insert_event
            (new_event row.id response_completed (("result", turn.dumped) ∷ []) stamp k)
            d4
          ≡ rows d5
        → Q (finished_row D row turn stamp) d5
    written_lem row status x n k d1 d2 d3 d4 d5 there read allowed greatest h1 h2 h3 h4 h5 = (
      row,
      n + 1,
      k,
      there,
      parsed row status read ∙ ap some (completes_running status allowed),
      refl,
      L.insert_event_runs _ d4 d5 id h5 ∙ updated_run L id row turn stamp d d3 d4 there h4,
      (λ m h same. omega (arith, L.max_message_sequence_lem row.session_id d n m greatest h same)),
      (λ m.
          let later =
            both (L.insert_event_messages _ d4 d5 m h5) (
              both (L.update_run_messages _ d3 d4 m h4) (L.update_session_messages x d2 d3 m h3)) in
          both later (
            both (L.insert_message_lem _ m d1 d2 h2)
              (and_more (L.insert_message_lem _ m d d1 h1)))),
      (L.insert_event_lem _ _ d4 d5 h5).1 (inr refl),
    )

    abbrev asked_row : AgentRunModel → ℕ → AgentMessageModel
    asked_row row n = turn_row D row "user" turn.user_content n turn.user_metadata user_stamp

    abbrev answered_row : AgentRunModel → ℕ → AgentMessageModel
    answered_row row n =
        turn_row D row "assistant" turn.assistant_content (n + 1) turn.assistant_metadata
          assistant_stamp

    -- The last statements of the transaction, from the last one back.
    abbrev event_stored : AgentRunModel → Tx D.Db AgentRunModel
    event_stored row =
        append_event D (finished_row D row turn stamp) response_completed
          (("result", turn.dumped) ∷ []) stamp
        >>= λ _. pure (finished_row D row turn stamp)

    abbrev run_stored : AgentRunModel → Tx D.Db AgentRunModel
    run_stored row =
        execute (D.update_run (finished_row D row turn stamp)) >>= λ _. event_stored row

    abbrev touched : AgentSessionModel → AgentSessionModel
    touched x = record x { version = x.version + 1; updated_at = stamp.now }

    abbrev session_stored : AgentRunModel → AgentSessionModel → Tx D.Db AgentRunModel
    session_stored row x = execute (D.update_session (touched x)) >>= λ _. run_stored row

    abbrev answer_stored : AgentRunModel → AgentSessionModel → ℕ → Tx D.Db AgentRunModel
    answer_stored row x n =
        execute (D.insert_message (answered_row row n)) >>= λ _. session_stored row x

    committed-Ends : Ends D Q (committed D id turn user_stamp assistant_stamp stamp d)
    unfolding committed status_value
    committed-Ends = locked_run_first D Q L id _ d λ row there.
        lift_first D Q (status_of row) _ d λ status read.
          lift_first D Q (validate_run_transition status completed) _ d λ _ allowed.
            locked_session_first D Q row.session_id _ d λ x.
              next_message_sequence_first D Q row.session_id _ d λ n greatest.
                execute_first D Q (D.insert_message (asked_row row (n + 1)))
                  (answer_stored row x (n + 1)) d
                  λ d1 h1.
                    execute_first D Q (D.insert_message (answered_row row (n + 1)))
                      (session_stored row x) d1
                      λ d2 h2.
                        execute_first D Q (D.update_session (touched x)) (run_stored row) d2
                          λ d3 h3.
                            execute_first D Q (D.update_run (finished_row D row turn stamp))
                              (event_stored row) d3
                              λ d4 h4.
                                append_event_first D Q (finished_row D row turn stamp)
                                  response_completed (("result", turn.dumped) ∷ []) stamp
                                  (pure (finished_row D row turn stamp)) d4
                                  λ k d5 h5.
                                    written_lem row status (touched x) n k d1 d2 d3 d4 d5 there read
                                      allowed greatest h1 h2 h3 h4 h5

  -- What `commit_run_success` returned, and the rows afterwards.
  abbrev pub Recorded : String → Turn → Stamp → Stamp → Stamp → D.Db → AgentRun → D.Db → Type 0
  Recorded id turn user_stamp assistant_stamp stamp d run d' =
      (row : AgentRunModel) × (row' : AgentRunModel) × (m1 : AgentMessageModel)
      × (m2 : AgentMessageModel) × (e : AgentStreamEventModel) × (n : ℕ) × (k : ℕ) × (D.run d id
          ≡ some row)
      × (parse_status row.status ≡ some running)
      × (run ≡ finished_run row turn stamp)
      × (D.run d' id ≡ some row')
      × (run_record D.validate_usage row' ≡ ok run)
      × (message_record m1 ≡ ok (said row user turn.user_content n turn.user_metadata user_stamp))
      × (message_record m2
          ≡ ok (
              said row assistant turn.assistant_content (n + 1) turn.assistant_metadata
                assistant_stamp))
      × ((m : AgentMessageModel)
          → D.HasMessage d m
          → m.session_id ≡ row.session_id
          → m.sequence < n)
      × ((m : AgentMessageModel) → D.HasMessage d' m ↔ ((D.HasMessage d m ⊎ (m ≡ m1)) ⊎ (m ≡ m2)))
      × D.HasEvent d' e
      × (event_record e ≡ ok (closing row.id turn stamp k))

  -- Where the usage and the result that are dumped are read back as they were: `commit_run_success`
  -- either fails and leaves the rows as they were; or the run was running, and the run that is
  -- returned, which is completed with the turn's result and usage, is what the store now reads from
  -- the row of this run. The messages are those before and two more, which are read back as what the
  -- user and the assistant said in this run, numbered one after the other and above all messages of
  -- the session; and there is an event of the run that is read back as its completion with the result.
  pub commit_run_success-Recorded :
      (L : IsDatabase D) (id : String) (turn : Turn) (user_stamp assistant_stamp stamp : Stamp)
      (d : D.Db)
      → DumpsUsage D turn
      → or_none turn.dumped ≡ some turn.dumped
      → Kept D d
          (Recorded id turn user_stamp assistant_stamp stamp d)
          (commit_run_success D id turn user_stamp assistant_stamp stamp d)
  unfolding commit_run_success
  commit_run_success-Recorded L id turn user_stamp assistant_stamp stamp d usage dumped =
      returned-Kept D d (Written id turn user_stamp assistant_stamp stamp d)
        (Recorded id turn user_stamp assistant_stamp stamp d) (run_record D.validate_usage)
        (method D "commit_run_success" (committed D id turn user_stamp assistant_stamp stamp) d)
        (λ row' d' h.
          let (row, n, k, there, running_row, same, stored, greater, messages, event) = h in
          let read =
            ap (run_record D.validate_usage) same ∙ finished_lem D row turn stamp usage dumped in
          (
            finished_run row turn stamp,
            (
              read,
              (
                row,
                row',
                _,
                _,
                _,
                n,
                k,
                there,
                running_row,
                refl,
                stored,
                read,
                (said_lem D row turn.user_content n turn.user_metadata user_stamp).0,
                (said_lem D row turn.assistant_content (n + 1) turn.assistant_metadata
                    assistant_stamp).1,
                greater,
                messages,
                event,
                closing_lem row.id turn stamp k,
              ),
            ),
          ))
        (method-Kept D L "commit_run_success" d (Written id turn user_stamp assistant_stamp stamp d)
          (committed D id turn user_stamp assistant_stamp stamp)
          (committed-Ends L id turn user_stamp assistant_stamp stamp d))
