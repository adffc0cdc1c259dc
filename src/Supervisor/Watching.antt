-- ===== src/Supervisor/Watching.antt =====
-- What readers of a run get, and that they end.
use dayu_water_agent.Prelude.{
  ◌⊎◌, ℕ, ◌+◌, ◌<◌, ◌≡◌, refl, String, zero, suc, true, false, Option, none, some, List, [], ◌∷◌,
  arith, is_some, Bool-cases, inl, inr, All, Option-cases, subst,
}
use dayu_water_agent.Dict.{get}
use dayu_water_agent.Json.{Json}
use dayu_water_agent.Errors.{Result, ok, Result-cases}
use dayu_water_agent.Runtime.State.{
  RunStatus, pending, running, completed, failed, cancelled, interrupted, is_terminal,
  is_terminal_event, AgentRun, StreamEvent,
}
use dayu_water_agent.Memory.Store.{MemoryStore, run_locked}
use dayu_water_agent.Memory.Lifecycle.{list_stream_events}
use dayu_water_agent.Memory.Runs.{get_run}
use dayu_water_agent.Memory.Invariant.{IsValid}
use dayu_water_agent.Supervisor.Watch.{
  Yielded, deliver, stop_when_finished, poll, stream_run, settled_result, wait_for_result,
}

-- No event follows a terminal one.
abbrev pub IsClosed : List StreamEvent → Type 0
IsClosed [] = Unit
IsClosed (e ∷ es) = ((is_terminal_event e.type ≡ false) ⊎ (es ≡ [])) × IsClosed es

deliver-IsClosed :
    (es : List StreamEvent) (cursor : ℕ) (go_on : ℕ → Yielded)
    → ((n : ℕ) → IsClosed (go_on n).0)
    → IsClosed (deliver es cursor go_on).0
unfolding deliver
deliver-IsClosed [] cursor go_on h = h cursor
deliver-IsClosed (e ∷ es) cursor go_on h = elim (Bool-cases (is_terminal_event e.type)) [
  | inl y ↦ rw y (inr refl, tt)
  | inr n ↦ rw n (inl refl, deliver-IsClosed es e.sequence go_on h)
]

poll-IsClosed :
    (id : String) (store : ℕ → MemoryStore) (fuel n cursor : ℕ)
    → IsClosed (poll id store fuel n cursor).0
unfolding poll
poll-IsClosed id store zero n cursor = tt
poll-IsClosed id store (suc fuel) n cursor =
    elim (Result-cases (list_stream_events id cursor (store n)).0) [
      | inr (f, e) ↦ rw e tt
      | inl (es, e) ↦ rw e (
          deliver-IsClosed es cursor _ λ c. elim (Result-cases (get_run id (store (n + 1))).0) [
            | inr (f, h) ↦ rw h tt
            | inl (r, h) ↦ elim (Bool-cases (is_terminal r.status)) [
              | inl y ↦ rw (h, y) tt
              | inr m ↦ rw (h, m) (poll-IsClosed id store fuel (n + 2) c)
            ]
          ])
    ]

-- Whatever the store holds when it is read, a reader yields nothing after a terminal event, so at
-- most one.
pub stream_run-IsClosed :
    (id : String) (after_sequence : ℕ) (store : ℕ → MemoryStore) (fuel : ℕ)
    → IsClosed (stream_run id after_sequence store fuel).0
unfolding stream_run
stream_run-IsClosed id after_sequence store fuel = elim (Result-cases (get_run id (store 0)).0) [
  | inr (f, h) ↦ rw h tt
  | inl (r, h) ↦ rw h (poll-IsClosed id store fuel 1 after_sequence)
]

deliver-All :
    (es : List StreamEvent) (cursor : ℕ) (go_on : ℕ → Yielded) (out : Result (Unit {0}))
    → All (λ e. is_terminal_event e.type ≡ false) es
    → ((n : ℕ) → go_on n ≡ ([], some out))
    → deliver es cursor go_on ≡ (es, some out)
unfolding deliver
deliver-All [] cursor go_on out a h = h cursor
deliver-All (e ∷ es) cursor go_on out a h =
    ground (arith, a.0, deliver-All es e.sequence go_on out a.1 h)

finished_read :
    (id : String) (s : MemoryStore) (r : AgentRun) (again : Yielded)
    → get s.runs id ≡ some r
    → is_terminal r.status ≡ true
    → stop_when_finished (get_run id s).0 again ≡ ([], some (ok tt))
unfolding get_run run_locked
finished_read id s r again e t = ground arith

-- When a run finishes between a reader's two reads of its first round, the reader ends without an
-- error and without a terminal event: it yields the events of the first read, whatever the stream
-- holds by then.
pub stream_run-race :
    (id : String) (after_sequence : ℕ) (store : ℕ → MemoryStore) (fuel : ℕ) (r r' : AgentRun)
    (es : List StreamEvent)
    → get (store 0).runs id ≡ some r
    → (list_stream_events id after_sequence (store 1)).0 ≡ ok es
    → All (λ e. is_terminal_event e.type ≡ false) es
    → get (store 2).runs id ≡ some r'
    → is_terminal r'.status ≡ true
    → stream_run id after_sequence store (suc fuel) ≡ (es, some (ok tt))
unfolding stream_run get_run poll run_locked
stream_run-race id after_sequence store fuel r r' es here read quiet there done =
    rw (here, read)
      (deliver-All es after_sequence _ (ok tt) quiet
        λ n. finished_read id (store 2) r' _ there done)

settled-some :
    (r : AgentRun) (status : RunStatus) (result : Option Json)
    → is_terminal status ≡ true
    → (status ≡ completed → is_some result ≡ true)
    → (out : Result Json) × (settled_result r status result ≡ some out)
unfolding settled_result is_terminal
settled-some r completed (some result) t has = (_, refl)
settled-some r completed none t has = absurd (ground (arith, has refl))
settled-some r failed result t has = (_, refl)
settled-some r cancelled result t has = (_, refl)
settled-some r interrupted result t has = (_, refl)
settled-some r pending result t has = absurd (ground (arith, t))
settled-some r running result t has = absurd (ground (arith, t))

completed_result :
    (s : MemoryStore) (id : String) (r : AgentRun)
    → IsValid s
    → get s.runs id ≡ some r
    → r.status ≡ completed
    → is_some r.result ≡ true
completed_result s id r v h e = ground (arith, v.fields id r h)

-- When every read sees a valid store that holds the run, and the run is finished at read `n + k`,
-- polling from read `n` on gives a result or an error within `k + 1` polls.
pub wait_for_result-ends :
    (id : String) (store : ℕ → MemoryStore) (state : ℕ → AgentRun) (k n fuel : ℕ)
    → ((m : ℕ) → IsValid (store m))
    → ((m : ℕ) → get (store m).runs id ≡ some (state m))
    → is_terminal (state (n + k)).status ≡ true
    → k < fuel
    → (out : Result Json) × (wait_for_result id store fuel n ≡ some out)
unfolding wait_for_result get_run run_locked
wait_for_result-ends id store state k n zero v h t l = absurd (omega (arith, l))
wait_for_result-ends id store state zero n (suc fuel) v h t l =
    let (out, e) =
      settled-some (state n) (state n).status (state n).result
        (subst (λ m. is_terminal (state m).status ≡ true) (omega arith) t)
        (completed_result (store n) id (state n) (v n) (h n)) in
    (out, ground (arith, h n, e))
wait_for_result-ends id store state (suc k) n (suc fuel) v h t l =
    let (out, e) =
      wait_for_result-ends id store state k (n + 1) fuel v h
        (subst (λ m. is_terminal (state m).status ≡ true) (omega arith) t) (omega (arith, l)) in
    elim (Option-cases (settled_result (state n) (state n).status (state n).result)) [
      | inl none_yet ↦ (out, ground (arith, h n, e))
      | inr (out', f) ↦ (out', ground (arith, h n, f))
    ]
