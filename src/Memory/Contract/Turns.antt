-- ===== src/Memory/Contract/Turns.antt =====
-- `commit_run_success` enters a whole turn, and only once.
use dayu_water_agent.Prelude.{
  ℕ, ◌+◌, String, ◌≡◌, refl, true, some, List, [], ◌∷◌, ◌++◌, arith, ◌==◌, length, if◌then◌else◌,
}
use dayu_water_agent.Dict.{get}
use dayu_water_agent.Dict.Laws.{get-put}
use dayu_water_agent.Errors.{Failure, ok, err, failure}
use dayu_water_agent.Errors.Kinds.{invalid_run_transition}
use dayu_water_agent.Runtime.Session.{AgentMessage, SessionRecord, user, assistant}
use dayu_water_agent.Runtime.State.{
  RunStatus, running, completed, is_terminal, AgentRun, StreamEvent, response_completed,
  transition_details, same_status, already_cancelled, already_terminal,
}
use dayu_water_agent.Memory.Store.{MemoryStore, Stamp, new_event}
use dayu_water_agent.Memory.Lifecycle.{
  mark_run_running, increment_run_attempt, Turn, turn_message, commit_run_success, fail_run,
  cancel_run,
}
use dayu_water_agent.Memory.Cases.{advanced, with_turn, finished}
use dayu_water_agent.Memory.Contract.Atomicity.{session_of}
use dayu_water_agent.Memory.Invariant.{IsValid}

pub commit_run_success_lem :
    (s : MemoryStore) (id : String) (turn : Turn) (a b stamp : Stamp) (r : AgentRun)
    (x : SessionRecord) (ms : List AgentMessage) (es : List StreamEvent)
    → get s.runs id ≡ some r
    → r.status ≡ running
    → get s.sessions r.session_id ≡ some x
    → get s.messages r.session_id ≡ some ms
    → get s.events id ≡ some es
    → commit_run_success id turn a b stamp s ≡ (
      ok (finished r turn stamp),
      advanced
          (with_turn s r x ms turn a b stamp.now)
          id
          (finished r turn stamp)
          es
          response_completed
          (("result", turn.dumped) ∷ [])
          stamp,
    )
unfolding commit_run_success
commit_run_success_lem s id turn a b stamp r x ms es e p f g h = ground arith

-- The two messages of the turn, numbered after `n` others.
abbrev pub turn_of : AgentRun → Turn → Stamp → Stamp → ℕ → List AgentMessage
turn_of r turn a b n =
    turn_message r user turn.user_content (n + 1) turn.user_metadata a
    ∷ turn_message r assistant turn.assistant_content (n + 1 + 1) turn.assistant_metadata b
    ∷ []

-- In a valid store, committing a running run returns it as completed and stores it so. The
-- transcript of its session gets exactly the question and the answer, with the next two numbers; no
-- other transcript changes. The run's stream, and no other, gets one completion event that carries
-- the result.
pub commit_run_success-turn :
    (s : MemoryStore) (id : String) (turn : Turn) (a b stamp : Stamp) (r : AgentRun)
    (ms : List AgentMessage) (es : List StreamEvent) (k : String)
    → IsValid s
    → get s.runs id ≡ some r
    → r.status ≡ running
    → get s.messages r.session_id ≡ some ms
    → get s.events id ≡ some es
    → let t = (commit_run_success id turn a b stamp s).1 in
      ((commit_run_success id turn a b stamp s).0 ≡ ok (finished r turn stamp))
      × (get t.runs k ≡ (if id == k then some (finished r turn stamp) else get s.runs k))
      × (get t.messages k ≡ (
          if r.session_id == k
          then some (ms ++ turn_of r turn a b (length ms))
          else get s.messages k))
      × (get t.events k ≡ (
          if id == k
          then some (
              es
              ++ new_event id response_completed
                  (("result", turn.dumped) ∷ [])
                  stamp
                  (length es + 1)
                ∷ [])
          else get s.events k))
commit_run_success-turn s id turn a b stamp r ms es k v e p g h =
    let (x, f) = session_of s v id r e in
    rw (commit_run_success_lem s id turn a b stamp r x ms es e p f g h)
      (refl, get-put _ _ _ _, get-put _ _ _ _, get-put _ _ _ _)

pub cancel_run-terminal :
    (s : MemoryStore) (id worker : String) (stamp : Stamp) (r : AgentRun)
    → get s.runs id ≡ some r
    → is_terminal r.status ≡ true
    → cancel_run id worker stamp s ≡ (
      ok (record {
        run = r;
        disposition =
            if same_status r.status RunStatus.cancelled
            then already_cancelled
            else already_terminal;
      }),
      s,
    )
unfolding cancel_run is_terminal
cancel_run-terminal s id worker stamp r e t = ground arith

-- The refusal to move a run from one status to another.
abbrev pub refused : RunStatus → RunStatus → Failure
refused current target = failure invalid_run_transition (transition_details current target)

-- A finished run is frozen: it cannot be started, attempted or committed again; failing or
-- cancelling it returns it as it is; and none of these calls changes the store.
pub terminal_run-frozen :
    (s : MemoryStore) (id worker error_code : String) (turn : Turn) (a b stamp : Stamp)
    (r : AgentRun)
    → get s.runs id ≡ some r
    → is_terminal r.status ≡ true
    → (mark_run_running id worker stamp s ≡ (err (refused r.status running), s))
      × (increment_run_attempt id s ≡ (err (refused r.status running), s))
      × (commit_run_success id turn a b stamp s ≡ (err (refused r.status completed), s))
      × (fail_run id error_code stamp s ≡ (ok r, s))
      × (cancel_run id worker stamp s ≡ (
        ok (record {
          run = r;
          disposition =
              if same_status r.status RunStatus.cancelled
              then already_cancelled
              else already_terminal;
        }),
        s,
      ))
unfolding mark_run_running increment_run_attempt commit_run_success fail_run is_terminal
terminal_run-frozen s id worker error_code turn a b stamp r e t = (
  ground arith,
  ground arith,
  ground arith,
  ground arith,
  cancel_run-terminal s id worker stamp r e t,
)
