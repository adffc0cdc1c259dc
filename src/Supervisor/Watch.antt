-- ===== src/Supervisor/Watch.antt =====
-- `stream_run` and the polling of `_wait_for_result`: readers of a run that other tasks change.
-- What a reader sees is a sequence of stores; `store n` is the store when the reader reads it for
-- the n-th time.
use dayu_water_agent.Prelude.{
  ℕ, ◌+◌, String, zero, suc, false, Option, none, some, List, [], ◌∷◌, if◌then◌else◌,
}
use dayu_water_agent.Json.{null, Json, string}
use dayu_water_agent.Errors.{domain, make_error, failure, Result, ok, err}
use dayu_water_agent.Errors.Kinds.{run, run_cancelled, run_interrupted}
use dayu_water_agent.Runtime.State.{
  RunStatus, completed, failed, cancelled, interrupted, is_terminal, is_terminal_event, AgentRun,
  StreamEvent,
}
use dayu_water_agent.Memory.Store.{MemoryStore}
use dayu_water_agent.Memory.Lifecycle.{list_stream_events}
use dayu_water_agent.Memory.Runs.{get_run}

-- The events that the generator has yielded, and how it ended: `none` is still running.
abbrev pub Yielded : Type 0
Yielded = List StreamEvent × Option (Result (Unit {0}))

abbrev pub yield_first : StreamEvent → Yielded → Yielded
yield_first e (es, out) = (e ∷ es, out)

-- `for event in events`, with what follows the loop.
unfoldable pub deliver : List StreamEvent → ℕ → (ℕ → Yielded) → Yielded
deliver [] cursor go_on = go_on cursor
deliver (e ∷ es) cursor go_on =
    let rest = deliver es e.sequence go_on in
    yield_first e (if is_terminal_event e.type then ([], some (ok tt)) else rest)

abbrev pub stop_when_finished : Result AgentRun → Yielded → Yielded
stop_when_finished (err f) again = ([], some (err f))
stop_when_finished (ok r) again = if is_terminal r.status then ([], some (ok tt)) else again

abbrev pub deliver_read : Result (List StreamEvent) → ℕ → (ℕ → Yielded) → Yielded
deliver_read (err f) cursor go_on = ([], some (err f))
deliver_read (ok events) cursor go_on = deliver events cursor go_on

-- `while True`, for `fuel` rounds, the first of which makes reads `n` and `n + 1`.
unfoldable pub poll : String → (ℕ → MemoryStore) → ℕ → ℕ → ℕ → Yielded
unfolding deliver is_terminal get_run
poll run_id store zero n cursor = ([], none)
poll run_id store (suc fuel) n cursor =
    deliver_read (list_stream_events run_id cursor (store n)).0 cursor λ cursor'.
      stop_when_finished (get_run run_id (store (n + 1))).0 (poll run_id store fuel (n + 2) cursor')

abbrev pub started : Result AgentRun → Yielded → Yielded
started (err f) loop = ([], some (err f))
started (ok r) loop = loop

unfoldable pub stream_run : String → ℕ → (ℕ → MemoryStore) → ℕ → Yielded
unfolding poll get_run
stream_run run_id after_sequence store fuel =
    started (get_run run_id (store 0)).0 (poll run_id store fuel 1 after_sequence)

abbrev pub error_code_json : Option String → Json
error_code_json none = null
error_code_json (some code) = string code

-- What a poll of `_wait_for_result` makes of a run: `none` is to sleep and poll again. A result is
-- left as it is stored.
unfoldable pub settled_result : AgentRun → RunStatus → Option Json → Option (Result Json)
settled_result r completed (some result) = some (ok result)
settled_result r cancelled _ = some (err (failure run_cancelled (("run_id", string r.id) ∷ [])))
settled_result r interrupted _ = some (err (failure run_interrupted (("run_id", string r.id) ∷ [])))
settled_result r failed _ = some (
    err (
      domain (
        make_error run (some "The idempotent agent run previously failed.")
          (some (("run_id", string r.id) ∷ ("error_code", error_code_json r.error_code) ∷ []))
          false)))
settled_result r _ _ = none

abbrev pub resolve : Option (Result Json) → Option (Result Json) → Option (Result Json)
resolve none again = again
resolve (some out) again = some out

abbrev pub polled : Result AgentRun → Option (Result Json) → Option (Result Json)
polled (err f) again = some (err f)
polled (ok r) again = resolve (settled_result r r.status r.result) again

unfoldable pub wait_for_result : String → (ℕ → MemoryStore) → ℕ → ℕ → Option (Result Json)
unfolding settled_result get_run
wait_for_result run_id store zero n = none
wait_for_result run_id store (suc fuel) n =
    polled (get_run run_id (store n)).0 (wait_for_result run_id store fuel (n + 1))
