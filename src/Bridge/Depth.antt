-- ===== src/Bridge/Depth.antt =====
-- How deep the calls of `sink_emit_event` and `dispatch_on_state_change` in wrapper/src/main.c and
-- wrapper/src/dispatch.c nest.
use mcpbridge.Base.{ℕ, suc, ◌≡◌, refl, ap, Bytes, List, [], ◌∷◌, if◌then◌else◌, arith}
use mcpbridge.Fsm.{
  State, starting, running, draining, swapping, failed, Event, in_flight_zero, step,
}
use mcpbridge.Dispatch.{World, send_raw_with_newline}
use mcpbridge.Dispatch.Recovery.{drain_from, drain_queue, dispatch_on_state_change}
use mcpbridge.Bridge.{Outside, Loop, sink_with, after_change, emit_at, state_eq, exit_if_failed}

module _ {E : Type 0} (o : Outside E) where
  -- The drain of the queue raises nothing.
  pub drain_from-emit :
      (e e' : World (Loop E) → Event → World (Loop E)) (qs : List Bytes) (h : Loop E)
      → drain_from (sink_with o e) qs h ≡ drain_from (sink_with o e') qs h
  unfolding drain_from send_raw_with_newline sink_with
  drain_from-emit e e' [] h = refl
  drain_from-emit e e' (q ∷ qs) h = drain_from-emit e e' qs _

  -- Out of DRAINING the second call ends in SWAPPING, which raises nothing.
  emit_at-draining :
      (n : ℕ) (w : World (Loop E))
      → w.fsm ≡ draining
      → emit_at o (suc n) w in_flight_zero ≡ emit_at o 1 w in_flight_zero
  unfolding emit_at dispatch_on_state_change step
  emit_at-draining n w e = ground (arith, e)

  reaction-depth :
      (n : ℕ) (w : World (Loop E)) (st : State)
      → w.fsm ≡ st
      → dispatch_on_state_change (sink_with o (emit_at o (suc n))) w st
        ≡ dispatch_on_state_change (sink_with o (emit_at o 1)) w st
  unfolding dispatch_on_state_change sink_with drain_queue
  reaction-depth n w starting e = refl
  reaction-depth n w running e =
      ap (λ h. record w { host = h; dispatch = record w.dispatch { queue = [] } })
        (drain_from-emit (emit_at o (suc n)) (emit_at o 1) w.dispatch.queue w.host)
  reaction-depth n w draining e = ground (arith, emit_at-draining n w e)
  reaction-depth n w swapping e = refl
  reaction-depth n w failed e = refl

  -- Raising an event ends: for every world and every event, any bound above two on the nested calls
  -- gives what the bound two gives, so the calls never nest deeper than `sink_emit_event` lets them.
  pub emit_at-bounded :
      (n : ℕ) (w : World (Loop E)) (ev : Event) → emit_at o (suc (suc n)) w ev ≡ emit_at o 2 w ev
  unfolding emit_at
  emit_at-bounded n w ev =
      let new = step w.fsm ev in
      ap
        (λ v.
          exit_if_failed o
            (if state_eq new w.fsm then record w { fsm = new } else after_change o v w.fsm new) new)
        (reaction-depth n (record w { fsm = new }) new refl)
