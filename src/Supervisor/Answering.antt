-- ===== src/Supervisor/Answering.antt =====
-- The work of a run ends, calls the store only, and gives nothing but checked results.
use dayu_water_agent.Prelude.{
  ℕ, ◌≤◌, ◌<◌, String, ◌≡◌, refl, Bool, Option, none, some, arith, inl, inr, false, Option-cases,
}
use dayu_water_agent.Dict.{get}
use dayu_water_agent.Errors.{Result, ok, err}
use dayu_water_agent.Guardrails.{check}
use dayu_water_agent.Json.{Json}
use dayu_water_agent.Retry.{FloatArith}
use dayu_water_agent.Runtime.Result.{AgentResult}
use dayu_water_agent.Memory.Store.{MemoryStore}
use dayu_water_agent.Memory.Sessions.{list_messages}
use dayu_water_agent.Memory.Calls.{Future, now}
use dayu_water_agent.Tools.Registry.{find, execute}
use dayu_water_agent.Supervisor.Provider.{ProviderResponse}
use dayu_water_agent.Supervisor.Attempts.{run_provider_with_retry}
use dayu_water_agent.Supervisor.Bounds.{Attempted, IsPeacefulAttempt, run_provider_with_retry-Ends}
use dayu_water_agent.Supervisor.Orderly.{run_provider_with_retry-Future}
use dayu_water_agent.Supervisor.Work.{
  AgentContext, ProviderRequest, provider_request, result_from_provider, result_from_tool, and_then,
  run_tool,
}
use dayu_water_agent.Supervisor.Commands.{ToolCommand, parse_tool_command}
use dayu_water_agent.Supervisor.Answer.{
  Worker, Answer, checked_result, responded, requested, commanded, answer,
}

module _ (F : FloatArith) (w : Worker F) (context : AgentContext) where
  -- A result is for the run and the session of the context, and every output guardrail passes it.
  abbrev pub IsChecked : Result AgentResult → Type 0
  IsChecked (err f) = Unit
  IsChecked (ok result) =
      (check w.settings.output_guardrails result.content ≡ ok tt)
      × (result.run_id ≡ context.run_id)
      × (result.session_id ≡ context.session_id)

  -- The work has ended, and called the store only.
  abbrev pub IsSound : MemoryStore → Answer F → Type 0
  IsSound s (out, t) = (x : Result AgentResult) × (out ≡ some x) × IsChecked x × Future s t

  and_then-IsChecked :
      {A : Type 0} (r : Result A) (f : A → Result AgentResult)
      → ((a : A) → r ≡ ok a → IsChecked (f a))
      → IsChecked (and_then r f)
  and_then-IsChecked (ok a) f checked = checked a refl
  and_then-IsChecked (err g) f checked = tt

  run_tool-IsChecked :
      (name : String) (payload : Json)
      → IsChecked (run_tool w.settings w.registry w.dumps w.duration name payload context)
  unfolding run_tool result_from_tool
  run_tool-IsChecked name payload = and_then-IsChecked (find name w.registry) _ λ tool _.
      and_then-IsChecked (check w.settings.tool_guardrails tool) _ λ _ _.
        and_then-IsChecked (execute name payload none false w.duration w.registry) _ λ execution _.
          and_then-IsChecked (check w.settings.output_guardrails (w.dumps execution.output)) _
            λ _ passed. (passed, refl, refl)

  checked_result-IsChecked :
      (response : ProviderResponse) → IsChecked (checked_result F w context response)
  unfolding checked_result result_from_provider
  checked_result-IsChecked response =
      and_then-IsChecked (check w.settings.output_guardrails response.content) _
        λ _ passed. (passed, refl, refl)

  -- The messages of the session are read only.
  provider_request-reads :
      (content : String) (s : MemoryStore) → (provider_request context content s).1 ≡ s
  unfolding provider_request list_messages
  provider_request-reads content s = elim (Option-cases (get s.sessions context.session_id)) [
    | inl e ↦ ground (arith, e)
    | inr (x, e) ↦ elim (Option-cases (get s.messages context.session_id)) [
      | inl m ↦ ground (arith, e, m)
      | inr (ms, m) ↦ ground (arith, e, m)
    ]
  ]

  module _ (streaming : Bool) (run_id : String) (fuel : ℕ)
      (calm : (request : ProviderRequest) (k : ℕ)
        → IsPeacefulAttempt F w.budget streaming run_id (w.script request k))
      (some_round : 0 < fuel) (enough : w.budget.max_attempts ≤ fuel) where
    responded-IsSound :
        (s : MemoryStore) (p : Option (Result ProviderResponse) × MemoryStore)
        → (x : Result ProviderResponse) × (p.0 ≡ some x)
        → Future s p.1
        → IsSound s (responded F w context p)
    responded-IsSound s (none, t) (x, e) f = absurd (ground (arith, e))
    responded-IsSound s (some (err g), t) ends f = (err g, refl, tt, f)
    responded-IsSound s (some (ok response), t) ends f =
        (checked_result F w context response, refl, checked_result-IsChecked response, f)

    requested-IsSound :
        (s : MemoryStore) (p : Result ProviderRequest × MemoryStore)
        → Attempted run_id 0 s
        → p.1 ≡ s
        → IsSound s (requested F w context streaming run_id fuel p)
    requested-IsSound s (err f, t) a e = (err f, refl, tt, rw e now)
    requested-IsSound s (ok request, t) a e = rw e (
        responded-IsSound s
          (run_provider_with_retry F w.budget streaming run_id (w.script request) fuel 0 s)
          (run_provider_with_retry-Ends F w.budget streaming run_id fuel 0 0 (w.script request) s
            (calm request) a some_round (omega (arith, enough)))
          (run_provider_with_retry-Future F w.budget streaming run_id fuel 0 (w.script request) s s
            (calm request) now))

    commanded-IsSound :
        (content : String) (s : MemoryStore) (parsed : Result ToolCommand)
        → Attempted run_id 0 s
        → IsSound s (commanded F w context content streaming run_id fuel parsed s)
    commanded-IsSound content s (err f) a = (err f, refl, tt, now)
    commanded-IsSound content s (ok (some (name, payload))) a = (
      run_tool w.settings w.registry w.dumps w.duration name payload context,
      refl,
      run_tool-IsChecked name payload,
      now,
    )
    commanded-IsSound content s (ok none) a =
        requested-IsSound s (provider_request context content s) a
          (provider_request-reads content s)

    -- From a valid store that holds the run, with other tasks that only make calls of it, and with
    -- rounds for the budget's attempts, and at least one, the work of a run ends with a result or an
    -- error, whatever the message is and whatever the provider and the tools do. It does to the store
    -- only what calls of it do, and a result is for the run and the session of its context, with a
    -- content that every output guardrail passes.
    pub answer-IsSound :
        (content : String) (s : MemoryStore)
        → Attempted run_id 0 s
        → IsSound s (answer F w context content streaming run_id fuel s)
    unfolding answer
    answer-IsSound content s a = commanded-IsSound content s (parse_tool_command w.loads content) a
