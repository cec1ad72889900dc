-- ===== src/Process/State.antt =====
-- crates/process/src/state.rs: the states of the supervised process, their transitions, and the
-- manager that broadcasts each change. The channel is the list of the events sent to it; `send`
-- drops its error, as the code does.
pub mod Edges
pub mod Traces
use v2ray_rs.Process.LogBuffer.{LogLine}
use v2ray_rs.Base.{
  ℕ, String, Bool, true, false, not, Option, List, [], ◌∷◌, ◌++◌, if◌then◌else◌, Result, ok, err,
}

pub data ProcessState : Type 0 where
  stopped starting running stopping : ProcessState
  error : String → ProcessState

abbrev pub can_transition_to : ProcessState → ProcessState → Bool
can_transition_to stopped starting = true
can_transition_to starting running = true
can_transition_to starting (error _) = true
can_transition_to running stopping = true
can_transition_to running (error _) = true
can_transition_to stopping stopped = true
can_transition_to stopping (error _) = true
can_transition_to (error _) starting = true
can_transition_to (error _) stopped = true
can_transition_to _ _ = false

pub data TransitionError : Type 0 where
  invalid : ProcessState → ProcessState → TransitionError

-- the old state as the result, and the state that is left
unfoldable pub transition_state :
    ProcessState → ProcessState → Result TransitionError ProcessState × ProcessState
transition_state state target =
    if not (can_transition_to state target)
    then (err (invalid state target), state)
    else (ok state, target)

pub data ProcessEvent : Type 0 where
  state_changed : ProcessState → ProcessState → ProcessEvent
  log_line : LogLine → ProcessEvent
  process_exited : Option ℕ → ProcessEvent

pub record StateManager : Type 0 where
  pub state : ProcessState
  pub sent : List ProcessEvent

abbrev pub new : StateManager
new = record { state = stopped; sent = [] }

unfoldable pub emit : ProcessEvent → StateManager → StateManager
emit event m = record m { sent = m.sent ++ event ∷ [] }

abbrev broadcast :
    ProcessState
    → StateManager
    → Result TransitionError ProcessState × ProcessState
    → Result TransitionError ProcessState × StateManager
broadcast target m (err e, s) = (err e, record m { state = s })
broadcast target m (ok old, s) = (ok old, emit (state_changed old target) (record m { state = s }))

unfoldable pub transition :
    ProcessState → StateManager → Result TransitionError ProcessState × StateManager
unfolding transition_state emit
transition target m = broadcast target m (transition_state m.state target)
