-- ===== src/Database/Numbering.antt =====
-- The numbers that the database store gives to the events of a run.
use dayu_water_agent.Prelude.{ℕ, ◌+◌, ◌≡◌, refl, sym, subst, ◌∙◌, ap, arith, ◌<◌, ◌↔◌, String, ◌⊎◌}
use dayu_water_agent.Json.{Payload}
use dayu_water_agent.Errors.{ok}
use dayu_water_agent.Database.Models.{AgentRunModel}
use dayu_water_agent.Database.Transactions.{pure, query, execute, method, locked_run, append_event}
use dayu_water_agent.Memory.Store.{Stamp}
use dayu_water_agent.Runtime.State.{StreamEventType, StreamEvent}
use dayu_water_agent.Database.Models.{
  AgentStreamEventModel, event_record, parse_event_type-event_type_value,
}
use dayu_water_agent.Database.Engine.{rows, Database, IsDatabase}
use dayu_water_agent.Database.Transactions.{new_event}
use dayu_water_agent.Database.Lifecycle.{appended, append_stream_event}
use dayu_water_agent.Database.Outcomes.{
  Ends, bind-Ends, query-Ends, execute-Ends, locked_run-Ends, Kept, method-Kept, returned-Kept,
}

module _ (D : Database) where
  -- The events afterwards are those before and `e`, whose number is greater than all of its run.
  abbrev pub IsNewest : D.Db → D.Db → AgentStreamEventModel → Type 0
  IsNewest d d' e =
      ((f : AgentStreamEventModel) → D.HasEvent d f → f.run_id ≡ e.run_id → f.sequence < e.sequence)
      × ((f : AgentStreamEventModel) → D.HasEvent d' f ↔ (D.HasEvent d f ⊎ (f ≡ e)))

  abbrev pub Stored :
      D.Db → String → StreamEventType → Payload → Stamp → AgentStreamEventModel → D.Db → Type 0
  Stored d id type payload stamp e d' =
      (n : ℕ) × (e ≡ new_event id type payload stamp n) × IsNewest d d' e

  append_event-Ends :
      (L : IsDatabase D) (run : AgentRunModel) (type : StreamEventType) (payload : Payload)
      (stamp : Stamp) (d : D.Db)
      → Ends D (Stored d run.id type payload stamp) (append_event D run type payload stamp d)
  unfolding append_event
  append_event-Ends L run type payload stamp d =
      bind-Ends D (Stored d run.id type payload stamp) (query (D.max_event_sequence run.id)) _ d
        (query-Ends D (D.max_event_sequence run.id) d)
        λ n d1 h.
          let e = new_event run.id type payload stamp (n + 1) in
          bind-Ends D (Stored d run.id type payload stamp) (execute (D.insert_event e))
            (λ _. pure e) d1 (execute-Ends D (D.insert_event e) d1)
            λ _ d2 g.
              let g' : D.insert_event e d ≡ rows d2 = ap (D.insert_event e) (sym h.1) ∙ g in
              (
                n + 1,
                refl,
                (
                  (λ f there same.
                      omega (arith, L.max_event_sequence_lem run.id d n f h.0 there same)),
                  λ f. L.insert_event_lem e f d d2 g',
                ),
              )

  appended-Ends :
      (L : IsDatabase D) (id : String) (type : StreamEventType) (payload : Payload) (stamp : Stamp)
      (d : D.Db)
      → Ends D (Stored d id type payload stamp) (appended D id type payload stamp d)
  unfolding appended
  appended-Ends L id type payload stamp d =
      bind-Ends D (Stored d id type payload stamp) (locked_run D id)
        (λ run. append_event D run type payload stamp) d (locked_run-Ends D L id d)
        λ run d1 h.
          subst
            (λ z. Ends D (Stored d z type payload stamp) (append_event D run type payload stamp d1))
            (L.run_id_lem d id run h.0)
            (subst
              (λ z.
                Ends D (Stored z run.id type payload stamp)
                  (append_event D run type payload stamp d1))
              h.1 (append_event-Ends L run type payload stamp d1))

  event_of : String → StreamEventType → Payload → Stamp → ℕ → StreamEvent
  event_of id type payload stamp n = record {
    id = stamp.id;
    run_id = id;
    sequence = n;
    type = type;
    created_at = stamp.created_at;
    payload = payload;
  }

  event_record-new_event :
      (id : String) (type : StreamEventType) (payload : Payload) (stamp : Stamp) (n : ℕ)
      → event_record (new_event id type payload stamp n) ≡ ok (event_of id type payload stamp n)
  unfolding event_record event_of
  event_record-new_event id type payload stamp n =
      rw (event_record, parse_event_type-event_type_value type) refl

  -- The row that an event of the result is, and that it is the newest.
  abbrev pub Published : D.Db → String → StreamEvent → D.Db → Type 0
  Published d id event d' =
      (e : AgentStreamEventModel) × ((event_record e ≡ ok event)
        × (e.run_id ≡ id)
        × IsNewest d d' e)

  -- `append_stream_event` either fails and leaves the rows as they were, or returns the event that it
  -- stored: a row of the run whose sequence number is greater than those of all the run's events, the
  -- stored events being those before and this one.
  pub append_stream_event-Published :
      (L : IsDatabase D) (id : String) (type : StreamEventType) (payload : Payload) (stamp : Stamp)
      (d : D.Db)
      → Kept D d (Published d id) (append_stream_event D id type payload stamp d)
  unfolding append_stream_event event_of
  append_stream_event-Published L id type payload stamp d =
      returned-Kept D d (Stored d id type payload stamp) (Published d id) event_record
        (method D "append_stream_event" (appended D id type payload stamp) d)
        (λ e d' h.
          let (n, same, newest) = h in
          let read = ap event_record same ∙ event_record-new_event id type payload stamp n in
          (event_of id type payload stamp n, (read, (e, (read, ap (λ x. x.run_id) same, newest)))))
        (method-Kept D L "append_stream_event" d (Stored d id type payload stamp)
          (appended D id type payload stamp) (appended-Ends L id type payload stamp d))
