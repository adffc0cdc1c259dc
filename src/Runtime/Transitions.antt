-- ===== src/Runtime/Transitions.antt =====
-- The run lifecycle of src/dayu_agent/runtime/state.py as a relation.
use dayu_water_agent.Prelude.{◌≡◌, refl, ◌↔◌, true, not}
use dayu_water_agent.Errors.{ok}
use dayu_water_agent.Runtime.State.{
  RunStatus, pending, running, completed, failed, cancelled, interrupted, is_active, is_terminal,
  validate_run_transition,
}

-- One transition of the documented state machine: start, finish, or be stopped while active.
pub data Transition : RunStatus → RunStatus → Type 0 where
  start : Transition pending running
  complete : Transition running completed
  fail_pending : Transition pending failed
  fail_running : Transition running failed
  cancel_pending : Transition pending cancelled
  cancel_running : Transition running cancelled
  interrupt_pending : Transition pending interrupted
  interrupt_running : Transition running interrupted

pub data History (a : RunStatus) : RunStatus → Type 0 where
  here : History a a
  next : {b c : RunStatus} → History a b → Transition b c → History a c

pub validate_run_transition-ok :
    (a b : RunStatus) → Transition a b → validate_run_transition a b ≡ ok tt
unfolding validate_run_transition
validate_run_transition-ok _ _ start = refl
validate_run_transition-ok _ _ complete = refl
validate_run_transition-ok _ _ fail_pending = refl
validate_run_transition-ok _ _ fail_running = refl
validate_run_transition-ok _ _ cancel_pending = refl
validate_run_transition-ok _ _ cancel_running = refl
validate_run_transition-ok _ _ interrupt_pending = refl
validate_run_transition-ok _ _ interrupt_running = refl

pub ok-Transition : (a b : RunStatus) → validate_run_transition a b ≡ ok tt → Transition a b
unfolding validate_run_transition
ok-Transition pending running h = start
ok-Transition running completed h = complete
ok-Transition pending failed h = fail_pending
ok-Transition running failed h = fail_running
ok-Transition pending cancelled h = cancel_pending
ok-Transition running cancelled h = cancel_running
ok-Transition pending interrupted h = interrupt_pending
ok-Transition running interrupted h = interrupt_running
ok-Transition _ _ h = cc

-- The check accepts exactly the transitions of the state machine.
pub validate_run_transition_iff :
    (a b : RunStatus) → (validate_run_transition a b ≡ ok tt) ↔ Transition a b
validate_run_transition_iff a b = (ok-Transition a b, validate_run_transition-ok a b)

pub Transition-source : {a b : RunStatus} → Transition a b → is_active a ≡ true
unfolding is_active
Transition-source start = refl
Transition-source complete = refl
Transition-source fail_pending = refl
Transition-source fail_running = refl
Transition-source cancel_pending = refl
Transition-source cancel_running = refl
Transition-source interrupt_pending = refl
Transition-source interrupt_running = refl

pub active-not-terminal : (a : RunStatus) → is_terminal a ≡ not (is_active a)
unfolding is_active is_terminal
active-not-terminal pending = refl
active-not-terminal _ = refl

-- A history that leaves a status left it while the run was active: terminal statuses are final.
pub History-terminal : {a b : RunStatus} → is_terminal a ≡ true → History a b → b ≡ a
History-terminal h here = refl
History-terminal {a} h (next r t) = absurd (not_both (History-terminal h r) (Transition-source t))
  where
    not_both : {b : RunStatus} → b ≡ a → is_active b ≡ true → ⊥
    not_both {b} e act = cc (active-not-terminal a, e, act, h)
