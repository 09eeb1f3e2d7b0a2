-- ===== src/Fsm/Cycle.antt =====
-- Runs of the state machine of wrapper/src/fsm.c: what any run that is back in RUNNING has seen.
use mcpbridge.Base.{◌≡◌, ◌≢◌, ◌⊎◌, inl, inr, refl, List, [], ◌∷◌, ◌++◌, arith}
use mcpbridge.Fsm.{
  State, starting, running, draining, swapping, failed, Event, transport_started, initialize_ok,
  reload_requested, step, run,
}

-- `es` holds the events of the first list, in that order.
pub data Subsequence : List Event → List Event → Type 0 where
  nil : {es : List Event} → Subsequence [] es
  skip : {ws es : List Event} {e : Event} → Subsequence ws es → Subsequence ws (e ∷ es)
  take : {ws es : List Event} {e : Event} → Subsequence ws es → Subsequence (e ∷ ws) (e ∷ es)

run-failed : (es : List Event) → run failed es ≡ failed
unfolding run step
run-failed [] = refl
run-failed (e ∷ es) = run-failed es

-- What a state still lacks before the machine is in RUNNING.
abbrev lacks : State → List Event
lacks starting = initialize_ok ∷ []
lacks swapping = transport_started ∷ initialize_ok ∷ []
lacks draining = transport_started ∷ initialize_ok ∷ []
lacks _ = []

-- One event provides at most the first of what is lacked.
step-lacks :
    (s : State) (e : Event)
    → (step s e ≡ failed)
      ⊎ (s ≡ running)
      ⊎ (lacks s ≡ lacks (step s e))
      ⊎ (lacks s ≡ e ∷ lacks (step s e))
unfolding step
step-lacks s e = ground arith

run-lacks : (s : State) (es : List Event) → run s es ≡ running → Subsequence (lacks s) es
unfolding run
run-lacks s [] h = rw h nil
run-lacks s (e ∷ es) h = elim (step-lacks s e) [
  | inl dead ↦ cc (rw dead at h, run-failed es)
  | inr (inl up) ↦ rw up nil
  | inr (inr (inl same)) ↦ rw same (skip (run-lacks (step s e) es h))
  | inr (inr (inr first)) ↦ rw first (take (run-lacks (step s e) es h))
]

-- What one event makes of RUNNING.
step_running :
    (e : Event)
    → (step running e ≡ running)
      ⊎ (step running e ≡ failed)
      ⊎ ((e ≡ reload_requested) × (step running e ≡ draining))
unfolding step
step_running e = ground arith

-- A run that starts in RUNNING, has left it after the events `before`, and is back in RUNNING
-- after the events `after`, has seen RELOAD_REQUESTED, TRANSPORT_STARTED and INITIALIZE_OK, in
-- this order: there is no way back that skips the swap of the transport or its handshake.
pub run_away_and_back :
    (before after : List Event)
    → run running before ≢ running
    → run running (before ++ after) ≡ running
    → Subsequence (reload_requested ∷ transport_started ∷ initialize_ok ∷ []) (before ++ after)
unfolding run
run_away_and_back [] after left back = absurd (left refl)
run_away_and_back (e ∷ before) after left back =
    let left' : run (step running e) before ≢ running = left in
    let back' : run (step running e) (before ++ after) ≡ running = back in
    elim (step_running e) [
      | inl stay ↦ skip (run_away_and_back before after (rw stay at left') (rw stay at back'))
      | inr (inl dead) ↦ cc (rw dead at back', run-failed (before ++ after))
      | inr (inr (asked, down)) ↦
          rw asked (take (run-lacks draining (before ++ after) (rw down at back')))
    ]
