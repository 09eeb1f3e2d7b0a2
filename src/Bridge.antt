-- ===== src/Bridge.antt =====
-- wrapper/src/main.c: the sink that ties the dispatch layer to the FSM and the transport, the swap of
-- the transport, and the handlers of the event loop. The transport, stdout and the daemon's socket
-- are an argument: `E` stands for their state. What is logged has no counterpart.
pub mod Handlers
pub mod Depth
pub mod Effects
pub mod Invariant
pub mod Swap
pub mod Reload
pub mod Stale
pub mod Refused
pub mod Unreachable
pub mod Early
pub mod Backoff
mod Tests
use mcpbridge.Base.{
  ℕ, zero, suc, ◌+◌, ◌*◌, Bytes, Bool, true, false, not, ◌&&◌, ltb, ◌==◌, if◌then◌else◌,
}
use mcpbridge.Fsm.{
  State, starting, running, draining, swapping, failed, Event, initialize_ok, initialize_failed,
  transport_started, transport_failed, step,
}
use mcpbridge.Transport.{
  Errno, estale, etimedout, eproto, econnaborted, econnrefused, SendOutcome, sent, send_failed,
}
use mcpbridge.Dispatch.{
  SendCode, ok, stale, fatal, timeout, upstream_error, Dispatch, World, Sink, is_running,
  cycled_message,
}
use mcpbridge.Dispatch.Recovery.{dispatch_on_state_change}

-- The calls that leave the program: `transport_send`, `transport_start`, `transport_stop`, the
-- writes to stdout and the acknowledgement to the daemon. `true` is success.
pub record Outside (E : Type 0) : Type 0 where
  pub transport_send : E → Bytes → E × SendOutcome
  pub transport_start : E → E × Bool
  pub transport_stop : E → E
  pub write_stdout : E → Bytes → E × Bool
  pub send_reload_ack : E → ℕ → E

-- `struct loop_ctx` without the FSM and the dispatch object, which stand beside it in a `World`.
pub record Loop (E : Type 0) : Type 0 where
  pub env : E
  pub daemon_connected : Bool
  pub pending_reload_seq : ℕ
  pub autonomous_cycle : Bool
  pub next_reconnect_at : ℕ
  pub backoff_ms : ℕ
  pub exit_requested : Bool

abbrev pub backoff_initial_ms : ℕ
backoff_initial_ms = 1000

abbrev pub backoff_max_ms : ℕ
backoff_max_ms = 5000

abbrev pub next_backoff : ℕ → ℕ
next_backoff ms =
    if ms == 0
    then backoff_initial_ms
    else if ltb backoff_max_ms (ms * 2)
    then backoff_max_ms
    else ms * 2

-- `now` is `monotonic_ms()`.
unfoldable pub bump_backoff : {E : Type 0} → Loop E → ℕ → Loop E
bump_backoff c now = record c {
  backoff_ms = next_backoff c.backoff_ms;
  next_reconnect_at = now + next_backoff c.backoff_ms;
}

unfoldable pub reset_backoff : {E : Type 0} → Loop E → Loop E
reset_backoff c = record c { backoff_ms = 0; next_reconnect_at = 0 }

abbrev pub state_eq : State → State → Bool
state_eq starting starting = true
state_eq running running = true
state_eq draining draining = true
state_eq swapping swapping = true
state_eq failed failed = true
state_eq _ _ = false

abbrev is_failed : State → Bool
is_failed failed = true
is_failed _ = false

module _ {E : Type 0} (o : Outside E) where
  unfoldable pub sink_send_upstream : Loop E → Bytes → Loop E
  sink_send_upstream c bytes =
      let (env, written) = o.write_stdout c.env bytes in
      if written then record c { env = env } else record c { env = env; exit_requested = true }

  abbrev send_code : SendOutcome → SendCode
  send_code sent = ok
  send_code (send_failed estale) = stale
  send_code (send_failed etimedout) = timeout
  send_code (send_failed eproto) = upstream_error
  send_code (send_failed econnaborted) = upstream_error
  send_code (send_failed econnrefused) = upstream_error
  send_code (send_failed _) = fatal

  abbrev is_fatal : SendCode → Bool
  is_fatal fatal = true
  is_fatal _ = false

  unfoldable pub sink_send_child : Loop E → Bytes → Loop E × SendCode
  sink_send_child c bytes =
      let (env, outcome) = o.transport_send c.env bytes in
      let code = send_code outcome in
      (
        if is_fatal code
            then record c { env = env; exit_requested = true }
            else record c { env = env },
        code,
      )

  -- The sink of `main`, with the way in which it raises events.
  unfoldable pub sink_with : (World (Loop E) → Event → World (Loop E)) → Sink (Loop E)
  sink_with emit = record {
    send_upstream = sink_send_upstream;
    send_child = sink_send_child;
    emit_event = emit;
  }

  -- The acknowledgement of a reload, once RUNNING is reached.
  unfoldable pub acknowledge : Loop E → State → Loop E
  acknowledge c new =
      if is_running new && not (c.pending_reload_seq == 0)
      then record c {
        env = if c.daemon_connected then o.send_reload_ack c.env c.pending_reload_seq else c.env;
        pending_reload_seq = 0;
      }
      else c

  unfoldable pub note_cycle : Loop E → State → State → Loop E
  note_cycle c old new =
      let c' =
        if is_running old && not (is_running new) && c.pending_reload_seq == 0
        then record c { autonomous_cycle = true }
        else c in
      if is_running new && c'.autonomous_cycle then record c' { autonomous_cycle = false } else c'

  -- What follows a step of the FSM that changed the state, behind `dispatch_on_state_change`.
  unfoldable pub after_change : World (Loop E) → State → State → World (Loop E)
  unfolding acknowledge note_cycle
  after_change w old new = record w { host = note_cycle (acknowledge w.host new) old new }

  abbrev pub exit_if_failed : World (Loop E) → State → World (Loop E)
  exit_if_failed w new =
      if is_failed new then record w { host = record w.host { exit_requested = true } } else w

  -- `sink_emit_event`, which `dispatch_on_state_change` may call again: the number bounds how deep
  -- the calls nest.
  unfoldable pub emit_at : ℕ → World (Loop E) → Event → World (Loop E)
  unfolding sink_with after_change
  emit_at zero w ev = w
  emit_at (suc n) w ev =
      let new = step w.fsm ev in
      let stepped = record w { fsm = new } in
      let changed =
        after_change (dispatch_on_state_change (sink_with (emit_at n)) stepped new) w.fsm new in
      exit_if_failed (if state_eq new w.fsm then stepped else changed) new

  -- Two calls are as deep as it goes.
  unfoldable pub sink_emit_event : World (Loop E) → Event → World (Loop E)
  sink_emit_event = emit_at 2

  unfoldable pub main_sink : Sink (Loop E)
  unfolding sink_with
  main_sink = sink_with sink_emit_event
