-- ===== src/Bridge/Invariant.antt =====
-- The handlers that `run_loop` of wrapper/src/main.c calls, one after another, in any order, and what
-- all of them keep.
use mcpbridge.Base.{
  ℕ, zero, suc, ◌≡◌, refl, ◌∙◌, Bool, true, false, Bytes, some, List, [], ◌∷◌, arith,
}
use mcpbridge.Fsm.{
  State, starting, running, draining, swapping, failed, Event, in_flight_zero, transport_started,
  transport_failed, initialize_failed, initialize_ok, child_exit, reload_requested, step,
}
use mcpbridge.Mcp.CJson.{CJson}
use mcpbridge.Mcp.Parse.{Parsed, parsed, parse_failed, msg_parse}
use mcpbridge.Dispatch.{World, cycled_message}
use mcpbridge.Dispatch.Recovery.{
  ReplayResult, replay_failed, nothing_cached, replayed, drain_queue, dispatch_on_state_change,
  dispatch_replay_initialize, dispatch_settle_in_flight,
}
use mcpbridge.Dispatch.Tracking.{
  Tracked, KeepsTracked, upstream-Tracked, child-Tracked, state_change-Tracked, settle-Tracked,
  replay-Tracked,
}
use mcpbridge.Bridge.{Outside, Loop, sink_with, after_change, emit_at, sink_emit_event, main_sink}
use mcpbridge.Bridge.Handlers.{
  ReadResult, no_more, read_error, event, nothing, closed, shutdown, error, hello_ok, register_ok,
  reload, on_agent_message, agent_line, on_child_message, child_on_message, child_closed,
  child_oversized, daemon_reload, drain_daemon, after_replay, restart, perform_swap,
}

-- What one round of the loop may react to.
pub data Input : Type 0 where
  agent_sent child_sent oversized : Bytes → Input
  child_gone swap : Input
  daemon_sent : List ReadResult → Input

module _ {J D E : Type 0} (cj : CJson J D) (o : Outside E) where
  -- The head of the loop: a swap that is due comes first.
  unfoldable pub swap_due : State → World (Loop E) → World (Loop E)
  swap_due swapping w = (perform_swap cj o w).0
  swap_due _ w = w

  unfoldable pub react : World (Loop E) → Input → World (Loop E)
  react w (agent_sent line) = agent_line cj o w line
  react w (child_sent line) = child_on_message cj o w line
  react w (oversized reason) = child_oversized cj o w reason
  react w child_gone = (child_closed cj o w).0
  react w swap = swap_due w.fsm w
  react w (daemon_sent rs) = (drain_daemon cj o w rs).0

  unfoldable pub react_all : World (Loop E) → List Input → World (Loop E)
  react_all w [] = w
  react_all w (i ∷ is) = react_all (react w i) is

  emit_at-Tracked :
      (n : ℕ) (w : World (Loop E)) (ev : Event)
      → Tracked w.dispatch
      → Tracked (emit_at o n w ev).dispatch
  unfolding emit_at after_change
  emit_at-Tracked zero w ev t = t
  emit_at-Tracked (suc n) w ev t =
      let k : KeepsTracked (sink_with o (emit_at o n)) = record {
        emit_keeps = emit_at-Tracked n;
      } in
      let new = step w.fsm ev in
      ground (
        arith,
        state_change-Tracked cj (sink_with o (emit_at o n)) k (record w { fsm = new }) new t,
      )

  -- The sink of the program keeps the bookkeeping.
  main_sink-KeepsTracked : KeepsTracked (main_sink o)
  unfolding main_sink sink_with sink_emit_event
  main_sink-KeepsTracked = record { emit_keeps = emit_at-Tracked 2 }

  emit-Tracked :
      (w : World (Loop E)) (ev : Event)
      → Tracked w.dispatch
      → Tracked (sink_emit_event o w ev).dispatch
  unfolding sink_emit_event
  emit-Tracked w ev t = emit_at-Tracked 2 w ev t

  on_agent-Tracked :
      (w : World (Loop E)) (p : Parsed)
      → Tracked w.dispatch
      → Tracked (on_agent_message cj o w p).dispatch
  on_agent-Tracked w (parse_failed _) t = t
  on_agent-Tracked w (parsed m) t = upstream-Tracked cj (main_sink o) main_sink-KeepsTracked w m t

  on_child-Tracked :
      (w : World (Loop E)) (p : Parsed)
      → Tracked w.dispatch
      → Tracked (on_child_message cj o w p).dispatch
  on_child-Tracked w (parse_failed _) t = t
  on_child-Tracked w (parsed m) t = child-Tracked cj (main_sink o) main_sink-KeepsTracked w m t

  agent-Tracked :
      (w : World (Loop E)) (line : Bytes)
      → Tracked w.dispatch
      → Tracked (agent_line cj o w line).dispatch
  unfolding agent_line
  agent-Tracked w line t = on_agent-Tracked w (msg_parse cj line) t

  message-Tracked :
      (w : World (Loop E)) (line : Bytes)
      → Tracked w.dispatch
      → Tracked (child_on_message cj o w line).dispatch
  unfolding child_on_message
  message-Tracked w line t = on_child-Tracked w (msg_parse cj line) t

  reload-Tracked :
      (w : World (Loop E)) (seq : ℕ)
      → Tracked w.dispatch
      → Tracked (daemon_reload cj o w seq).dispatch
  unfolding daemon_reload
  reload-Tracked w seq t = ground (
    arith,
    emit-Tracked (record w { host = record w.host { pending_reload_seq = seq } }) reload_requested
        t,
  )

  daemon-Tracked :
      (w : World (Loop E)) (rs : List ReadResult)
      → Tracked w.dispatch
      → Tracked (drain_daemon cj o w rs).0.dispatch
  unfolding drain_daemon
  daemon-Tracked w [] t = t
  daemon-Tracked w (no_more ∷ rs) t = t
  daemon-Tracked w (read_error ∷ rs) t = t
  daemon-Tracked w (event nothing ∷ rs) t = t
  daemon-Tracked w (event closed ∷ rs) t = t
  daemon-Tracked w (event shutdown ∷ rs) t = t
  daemon-Tracked w (event (reload seq) ∷ rs) t =
      daemon-Tracked (daemon_reload cj o w seq) rs (reload-Tracked w seq t)
  daemon-Tracked w (event error ∷ rs) t = daemon-Tracked w rs t
  daemon-Tracked w (event hello_ok ∷ rs) t = daemon-Tracked w rs t
  daemon-Tracked w (event register_ok ∷ rs) t = daemon-Tracked w rs t

  -- No event starts or ends a replay.
  state_change-pending :
      (emit : World (Loop E) → Event → World (Loop E))
      → ((w : World (Loop E)) (ev : Event)
          → (emit w ev).dispatch.replay_pending ≡ w.dispatch.replay_pending)
      → (w : World (Loop E)) (st : State)
      → (dispatch_on_state_change (sink_with o emit) w st).dispatch.replay_pending
        ≡ w.dispatch.replay_pending
  unfolding dispatch_on_state_change drain_queue sink_with
  state_change-pending emit k w starting = refl
  state_change-pending emit k w running = refl
  state_change-pending emit k w draining = ground (arith, k w in_flight_zero)
  state_change-pending emit k w swapping = refl
  state_change-pending emit k w failed = refl

  emit_at-pending :
      (n : ℕ) (w : World (Loop E)) (ev : Event)
      → (emit_at o n w ev).dispatch.replay_pending ≡ w.dispatch.replay_pending
  unfolding emit_at after_change
  emit_at-pending zero w ev = refl
  emit_at-pending (suc n) w ev = ground (
    arith,
    state_change-pending (emit_at o n) (emit_at-pending n) (record w { fsm = step w.fsm ev })
        (step w.fsm ev),
  )

  after_replay-Tracked :
      (w : World (Loop E)) (r : ReplayResult)
      → Tracked w.dispatch
      → Tracked (after_replay cj o (w, r)).0.dispatch
  unfolding after_replay
  after_replay-Tracked w nothing_cached t = emit-Tracked w initialize_failed t
  after_replay-Tracked w replay_failed t = emit-Tracked w initialize_ok t
  after_replay-Tracked w replayed t = t

  restart-Tracked :
      (w : World (Loop E)) (started : Bool)
      → w.dispatch.replay_pending ≡ false
      → Tracked w.dispatch
      → Tracked (restart cj o (w, started)).0.dispatch
  unfolding restart sink_emit_event
  restart-Tracked w false p t = emit-Tracked w transport_failed t
  restart-Tracked w true p t =
      let w' = sink_emit_event o w transport_started in
      let sent = dispatch_replay_initialize cj (main_sink o) w' in
      after_replay-Tracked sent.0 sent.1 (
        replay-Tracked cj (main_sink o) main_sink-KeepsTracked w'
          (emit_at-pending 2 w transport_started ∙ p) (emit-Tracked w transport_started t))

  swap-Tracked : (w : World (Loop E)) → Tracked (perform_swap cj o w).0.dispatch
  unfolding perform_swap dispatch_settle_in_flight
  swap-Tracked w =
      let settled = dispatch_settle_in_flight cj (main_sink o) w (some cycled_message) in
      let (env, started) = o.transport_start (o.transport_stop settled.host.env) in
      restart-Tracked (record settled { host = record settled.host { env = env } }) started refl
        (settle-Tracked cj (main_sink o) main_sink-KeepsTracked w (some cycled_message))

  swap_due-Tracked :
      (st : State) (w : World (Loop E)) → Tracked w.dispatch → Tracked (swap_due st w).dispatch
  unfolding swap_due
  swap_due-Tracked swapping w t = swap-Tracked w
  swap_due-Tracked _ w t = t

  react-Tracked :
      (w : World (Loop E)) (i : Input) → Tracked w.dispatch → Tracked (react w i).dispatch
  unfolding react child_closed child_oversized
  react-Tracked w (agent_sent line) t = agent-Tracked w line t
  react-Tracked w (child_sent line) t = message-Tracked w line t
  react-Tracked w (oversized reason) t =
      settle-Tracked cj (main_sink o) main_sink-KeepsTracked w (some reason)
  react-Tracked w child_gone t = emit-Tracked w child_exit t
  react-Tracked w swap t = swap_due-Tracked w.fsm w t
  react-Tracked w (daemon_sent rs) t = daemon-Tracked w rs t

  -- The bookkeeping holds however the session goes: from a world in which the count is covered by the
  -- listed requests and a pending replay, every sequence of lines of the agent, messages of the
  -- child, its end, oversized lines, envelopes of the daemon and swaps leads to such a world,
  -- whatever the transport and the outputs answer.
  pub react_all-Tracked :
      (w : World (Loop E)) (is : List Input)
      → Tracked w.dispatch
      → Tracked (react_all w is).dispatch
  unfolding react_all
  react_all-Tracked w [] t = t
  react_all-Tracked w (i ∷ is) t = react_all-Tracked (react w i) is (react-Tracked w i t)
