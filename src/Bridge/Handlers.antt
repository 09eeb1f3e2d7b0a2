-- ===== src/Bridge/Handlers.antt =====
-- `perform_swap`, `drain_reader`, `child_on_message`, `drain_daemon` and the reactions of `run_loop`
-- to the child, in wrapper/src/main.c.
use mcpbridge.Base.{ℕ, Bytes, Bool, true, false, not, some, List, [], ◌∷◌, ◌==◌, if◌then◌else◌}
use mcpbridge.Fsm.{
  swapping, child_exit, transport_started, transport_failed, initialize_ok, initialize_failed,
  reload_requested,
}
use mcpbridge.Mcp.CJson.{CJson}
use mcpbridge.Mcp.Parse.{Parsed, parsed, parse_failed, msg_parse}
use mcpbridge.Dispatch.{World, cycled_message}
use mcpbridge.Dispatch.Upstream.{dispatch_on_upstream}
use mcpbridge.Dispatch.Child.{dispatch_on_child}
use mcpbridge.Dispatch.Recovery.{
  ReplayResult, replay_failed, nothing_cached, replayed, dispatch_settle_in_flight,
  dispatch_replay_initialize,
}
use mcpbridge.Bridge.{Outside, Loop, sink_emit_event, main_sink}

-- An envelope from the daemon, as `daemon_client_try_read` reports it.
pub data DaemonEvent : Type 0 where
  nothing closed shutdown error hello_ok register_ok : DaemonEvent
  reload : ℕ → DaemonEvent

-- What `daemon_client_try_read` returns: 0, an error, or an event.
pub data ReadResult : Type 0 where
  no_more read_error : ReadResult
  event : DaemonEvent → ReadResult

module _ {J D E : Type 0} (cj : CJson J D) (o : Outside E) where
  -- What follows the replay of the handshake. The flag is `return 0`.
  unfoldable pub after_replay : World (Loop E) × ReplayResult → World (Loop E) × Bool
  after_replay (w, nothing_cached) = (sink_emit_event o w initialize_failed, false)
  after_replay (w, replay_failed) = (sink_emit_event o w initialize_ok, true)
  after_replay (w, replayed) = (w, true)

  unfoldable pub restart : World (Loop E) × Bool → World (Loop E) × Bool
  unfolding after_replay
  restart (w, false) = (sink_emit_event o w transport_failed, false)
  restart (w, true) =
      after_replay
        (dispatch_replay_initialize cj (main_sink o) (sink_emit_event o w transport_started))

  -- `transport_stop` and `transport_start`.
  abbrev pub cycle_transport : World (Loop E) → World (Loop E) × Bool
  cycle_transport w =
      let (env, started) = o.transport_start (o.transport_stop w.host.env) in
      (record w { host = record w.host { env = env } }, started)

  unfoldable pub perform_swap : World (Loop E) → World (Loop E) × Bool
  unfolding restart
  perform_swap w =
      restart (cycle_transport (dispatch_settle_in_flight cj (main_sink o) w (some cycled_message)))

  abbrev pub on_agent_message : World (Loop E) → Parsed → World (Loop E)
  on_agent_message w (parse_failed _) = w
  on_agent_message w (parsed m) = dispatch_on_upstream cj (main_sink o) w m

  -- One line of the agent, in `drain_reader`.
  unfoldable pub agent_line : World (Loop E) → Bytes → World (Loop E)
  agent_line w bytes = on_agent_message w (msg_parse cj bytes)

  abbrev pub on_child_message : World (Loop E) → Parsed → World (Loop E)
  on_child_message w (parse_failed _) = w
  on_child_message w (parsed m) = dispatch_on_child (main_sink o) w m

  unfoldable pub child_on_message : World (Loop E) → Bytes → World (Loop E)
  child_on_message w bytes = on_child_message w (msg_parse cj bytes)

  -- `transport_pump` returned 1: the flag is whether the loop goes on.
  unfoldable pub child_closed : World (Loop E) → World (Loop E) × Bool
  child_closed w =
      let w' = sink_emit_event o w child_exit in (w', elim w'.fsm [ swapping ↦ true | _ ↦ false ])

  -- `transport_pump` failed with EPROTO.
  unfoldable pub child_oversized : World (Loop E) → Bytes → World (Loop E)
  child_oversized w reason = dispatch_settle_in_flight cj (main_sink o) w (some reason)

  unfoldable pub daemon_reload : World (Loop E) → ℕ → World (Loop E)
  daemon_reload w seq =
      if not (w.host.pending_reload_seq == 0)
      then w
      else sink_emit_event o (record w { host = record w.host { pending_reload_seq = seq } })
          reload_requested

  -- The loop of `drain_daemon` over what the reads return. The flag is `return 0`, which a list that
  -- ends stands for too.
  unfoldable pub drain_daemon : World (Loop E) → List ReadResult → World (Loop E) × Bool
  unfolding daemon_reload
  drain_daemon w [] = (w, true)
  drain_daemon w (no_more ∷ rs) = (w, true)
  drain_daemon w (read_error ∷ rs) = (w, false)
  drain_daemon w (event nothing ∷ rs) = (w, true)
  drain_daemon w (event closed ∷ rs) = (w, false)
  drain_daemon w (event shutdown ∷ rs) = (w, false)
  drain_daemon w (event (reload seq) ∷ rs) = drain_daemon (daemon_reload w seq) rs
  drain_daemon w (event error ∷ rs) = drain_daemon w rs
  drain_daemon w (event hello_ok ∷ rs) = drain_daemon w rs
  drain_daemon w (event register_ok ∷ rs) = drain_daemon w rs
