-- ===== src/Fsm/Tests.antt =====
-- Runs of the state machine of wrapper/src/fsm.c.
use mcpbridge.Base.{◌≡◌, ◌≢◌, ◌↔◌, refl, [], ◌∷◌}
use mcpbridge.Fsm.{
  running, draining, reload_requested, in_flight_zero, transport_started, initialize_ok, step, run,
}
use mcpbridge.Fsm.Diagram.{Edge, Edge-iff-step}
use mcpbridge.Fsm.Cycle.{Subsequence, run_away_and_back}

Edge-iff-step_example :
    Edge running reload_requested draining
    ↔ ((step running reload_requested ≡ draining) × (draining ≢ running))
Edge-iff-step_example = Edge-iff-step running reload_requested draining

run_away_and_back_example :
    Subsequence
      (reload_requested ∷ transport_started ∷ initialize_ok ∷ [])
      (reload_requested ∷ in_flight_zero ∷ transport_started ∷ initialize_ok ∷ [])
unfolding run step
run_away_and_back_example =
    run_away_and_back (reload_requested ∷ [])
      (in_flight_zero ∷ transport_started ∷ initialize_ok ∷ []) (λ q. cc) refl
