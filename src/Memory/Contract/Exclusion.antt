-- ===== src/Memory/Contract/Exclusion.antt =====
-- A session with a pending or running run belongs to that run.
use dayu_water_agent.Prelude.{
  ℕ, String, ◌≡◌, refl, ◌∙◌, true, Option, some, none, [], ◌∷◌, arith, inl, inr, Option-cases,
  eq_iff, eq_refl,
}
use dayu_water_agent.Dict.{get}
use dayu_water_agent.Dict.Values.{first-none, first-some}
use dayu_water_agent.Json.{Payload, string}
use dayu_water_agent.Errors.{Failure, err, failure}
use dayu_water_agent.Errors.Kinds.{session_busy}
use dayu_water_agent.Runtime.Session.{MessageRole, SessionRecord}
use dayu_water_agent.Runtime.State.{AgentRun, is_active}
use dayu_water_agent.Memory.Store.{MemoryStore, Stamp, active_run_locked, is_active_in}
use dayu_water_agent.Memory.Sessions.{append_message, clear_session}
use dayu_water_agent.Memory.Runs.{RunRequest, known_key, enter_run, reserve_run}
use dayu_water_agent.Memory.Entries.{reserve_new-some}
use dayu_water_agent.Memory.Invariant.{IsValid}
use dayu_water_agent.Memory.Calls.{Reach}
use dayu_water_agent.Memory.Calls.Laws.{Reach-IsValid}

abbrev pub busy_failure : AgentRun → Failure
busy_failure r =
    failure session_busy (("session_id", string r.session_id) ∷ ("run_id", string r.id) ∷ [])

module _ (s : MemoryStore) (v : IsValid s) (k : String) (r : AgentRun) (at : get s.runs k ≡ some r)
    (active : is_active r.status ≡ true) where
  active_run_locked-some : active_run_locked r.session_id s ≡ some r
  unfolding active_run_locked
  active_run_locked-some = elim (Option-cases (active_run_locked r.session_id s)) [
    | inl n ↦ absurd (
        ground
          (arith, first-none (is_active_in r.session_id) s.runs k r n at, eq_refl r.session_id))
    | inr (x, e) ↦
        let (j, there, test) = first-some (is_active_in r.session_id) s.runs x v.distinct_runs e in
        ground (
          arith,
          test,
          there,
          at,
          e,
          eq_iff x.session_id r.session_id,
          v.single_active j k x r there at,
        )
  ]

  known_session : (x : SessionRecord) × (get s.sessions r.session_id ≡ some x)
  known_session = elim (Option-cases (get s.sessions r.session_id)) [
    | inl n ↦ absurd (ground (arith, v.has_session k r at))
    | inr h ↦ h
  ]

  append_message-busy :
      (role : MessageRole) (content : String) (metadata : Option Payload) (stamp : Stamp)
      → append_message r.session_id role content metadata stamp s ≡ (err (busy_failure r), s)
  unfolding append_message
  append_message-busy role content metadata stamp =
      let (x, e) = known_session in ground (arith, e, active_run_locked-some)

  clear_session-busy : (now : ℕ) → clear_session r.session_id now s ≡ (err (busy_failure r), s)
  unfolding clear_session
  clear_session-busy now = let (x, e) = known_session in ground (arith, e, active_run_locked-some)

  enter_run-busy :
      (q : RunRequest) (stamp : Stamp) (x : SessionRecord)
      → x.id ≡ r.session_id
      → enter_run q stamp x s ≡ (err (busy_failure r), s)
  unfolding enter_run
  enter_run-busy q stamp x e = rw e (rw active_run_locked-some refl)

-- In a store that calls reach, two active runs of one session are the same run under the same id.
Reach-exclusive :
    (s : MemoryStore) (j k : String) (a b : AgentRun)
    → Reach s
    → get s.runs j ≡ some a
    → get s.runs k ≡ some b
    → is_active a.status ≡ true
    → is_active b.status ≡ true
    → a.session_id ≡ b.session_id
    → (j ≡ k) × (a ≡ b)
Reach-exclusive s j k a b reach at there active busy same =
    let one : j ≡ k = (Reach-IsValid reach).single_active j k a b at there active busy same in
    (one, cc (one, at, there))

-- In a valid store, while a run of a session is pending or running, appending a message, clearing
-- the session and reserving another run in it under a key that is not bound are refused as busy,
-- naming that run, and change nothing.
pub active_run-excludes :
    (s : MemoryStore) (k : String) (r : AgentRun) (role : MessageRole) (content : String)
    (metadata : Option Payload) (now : ℕ) (q : RunRequest) (a b : Stamp)
    → IsValid s
    → get s.runs k ≡ some r
    → is_active r.status ≡ true
    → q.session_id ≡ some r.session_id
    → known_key q.idempotency_key s ≡ none
    → (append_message r.session_id role content metadata a s ≡ (err (busy_failure r), s))
      × (clear_session r.session_id now s ≡ (err (busy_failure r), s))
      × (reserve_run q a b s ≡ (err (busy_failure r), s))
active_run-excludes s k r role content metadata now q a b v at active e n =
    let (x, there) = known_session s v k r at active in
    (
      append_message-busy s v k r at active role content metadata a,
      clear_session-busy s v k r at active now,
      unfold reserve_run in
          rw (n, reserve_run)
            (reserve_new-some s q a b r.session_id x e there
              ∙ enter_run-busy s v k r at active q b x (v.session_key r.session_id x there)),
    )
