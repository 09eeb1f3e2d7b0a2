-- ===== src/Fsm/Diagram.antt =====
-- The transition diagram in the comment of wrapper/src/fsm.h, as an inductive relation.
use mcpbridge.Base.{◌≡◌, ◌≢◌, ◌↔◌, sym, ◌∙◌, arith}
use mcpbridge.Fsm.{
  State, starting, running, draining, swapping, failed, Event, transport_started, initialize_ok,
  initialize_failed, child_exit, transport_failed, reload_requested, in_flight_zero, step,
}

-- One constructor for each arrow of the diagram.
pub data Edge : State → Event → State → Type 0 where
  starting_ok : Edge starting initialize_ok running
  starting_refused : Edge starting initialize_failed failed
  starting_exit : Edge starting child_exit failed
  starting_broken : Edge starting transport_failed failed
  running_reload : Edge running reload_requested draining
  running_exit : Edge running child_exit failed
  running_broken : Edge running transport_failed failed
  draining_done : Edge draining in_flight_zero swapping
  draining_exit : Edge draining child_exit swapping
  swapping_started : Edge swapping transport_started starting
  swapping_broken : Edge swapping transport_failed failed
  swapping_exit : Edge swapping child_exit failed

ruleset edges = (
  starting_ok, starting_refused, starting_exit, starting_broken, running_reload, running_exit,
  running_broken, draining_done, draining_exit, swapping_started, swapping_broken, swapping_exit,
)

Edge-step : {s t : State} {e : Event} → Edge s e t → (step s e ≡ t) × (t ≢ s)
unfolding step
Edge-step starting_ok = ground arith
Edge-step _ = ground arith

step-Edge : (s : State) (e : Event) → step s e ≢ s → Edge s e (step s e)
unfolding step
step-Edge s e h = grind (arith, edges)

-- The code changes the state exactly along the arrows of the diagram: `e` leads from `s` to `t` by
-- an arrow if and only if `step s e` is `t` and differs from `s`.
pub Edge-iff-step : (s : State) (e : Event) (t : State) → Edge s e t ↔ ((step s e ≡ t) × (t ≢ s))
Edge-iff-step s e t = (Edge-step, λ h. rw h.0 at (step-Edge s e (λ q. h.1 (sym h.0 ∙ q))))
