-- ===== src/Fsm.antt =====
-- wrapper/src/fsm.h and wrapper/src/fsm.c: the child-lifecycle state machine. `struct fsm` holds
-- one field, so a value of `State` stands for it.
pub mod Diagram
pub mod Cycle
mod Tests
use mcpbridge.Base.{String, ◌≡◌, List, [], ◌∷◌}

pub data State : Type 0 where
  starting running draining swapping failed : State

pub data Event : Type 0 where
  transport_started initialize_ok initialize_failed child_exit transport_failed : Event
  reload_requested in_flight_zero : Event

-- `fsm_init`
abbrev pub init : State
init = starting

unfoldable pub step : State → Event → State
step starting initialize_ok = running
step starting initialize_failed = failed
step starting child_exit = failed
step starting transport_failed = failed
step running reload_requested = draining
step running child_exit = failed
step running transport_failed = failed
step draining in_flight_zero = swapping
step draining child_exit = swapping
step swapping transport_started = starting
step swapping child_exit = failed
step swapping transport_failed = failed
step s _ = s

-- The events that the loop feeds in, one after another.
unfoldable pub run : State → List Event → State
run s [] = s
run s (e ∷ es) = run (step s e) es

unfoldable pub state_name : State → String
state_name starting = "STARTING"
state_name running = "RUNNING"
state_name draining = "DRAINING"
state_name swapping = "SWAPPING"
state_name failed = "FAILED"

unfoldable pub event_name : Event → String
event_name transport_started = "TRANSPORT_STARTED"
event_name initialize_ok = "INITIALIZE_OK"
event_name initialize_failed = "INITIALIZE_FAILED"
event_name child_exit = "CHILD_EXIT"
event_name transport_failed = "TRANSPORT_FAILED"
event_name reload_requested = "RELOAD_REQUESTED"
event_name in_flight_zero = "IN_FLIGHT_ZERO"
