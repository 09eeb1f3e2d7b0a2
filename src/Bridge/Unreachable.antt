-- ===== src/Bridge/Unreachable.antt =====
-- The swap of wrapper/src/main.c when the new child cannot be reached.
use mcpbridge.Base.{◌≡◌, ◌∙◌, refl, ap, Bytes, codes, true, some, [], ◌∷◌, ◌++◌, arith}
use mcpbridge.Fsm.{running, swapping, starting}
use mcpbridge.Mcp.CJson.{CJson}
use mcpbridge.Dispatch.{
  timeout, World, send_raw_with_newline, code_timeout, reinit_timeout_message, cycled_message,
}
use mcpbridge.Dispatch.Recovery.{
  replay_failed, after_replay_send, drain_queue_with_error, drain_entries,
  dispatch_replay_initialize,
}
use mcpbridge.Dispatch.Recovery.{drain_from}
use mcpbridge.Dispatch.Posts.{to_child, posted, timeout_answers, drain_entries-posts}
use mcpbridge.Transport.{send_failed, etimedout}
use mcpbridge.Bridge.{Outside, Loop, acknowledge, note_cycle, main_sink}
use mcpbridge.Bridge.Effects.{
  post, stop, start, posts, acks, performed, HasRecovered, posts-then_running, child_times_out,
}
use mcpbridge.Bridge.Handlers.{perform_swap, restart, cycle_transport, after_replay}
use mcpbridge.Bridge.Swap.{IsIdle, idle_settled, restarted, ready, with_restart, entered_running}

module _ {J D E : Type 0} (cj : CJson J D) (o : Outside E) where
  -- The loop context with the cached initialize sent in vain and the queue answered.
  abbrev pub answered_queue : World (Loop E) → Bytes → Loop E
  answered_queue w req =
      drain_entries cj (main_sink o) w.dispatch true code_timeout reinit_timeout_message
        w.dispatch.queue (send_raw_with_newline (main_sink o) true (with_restart cj o w.host) req).0

  replay_lost :
      (w : World (Loop E)) (req : Bytes)
      → w.dispatch.cached_init_req ≡ some req
      → (send_raw_with_newline (main_sink o) true (with_restart cj o w.host) req).1 ≡ timeout
      → dispatch_replay_initialize cj
          (main_sink o)
          (record w { fsm = starting; host = with_restart cj o w.host })
        ≡ (
          record w {
            fsm = starting;
            host = answered_queue w req;
            dispatch = record w.dispatch { queue = [] };
          },
          replay_failed,
        )
  unfolding dispatch_replay_initialize after_replay_send drain_queue_with_error
  replay_lost w req c e = ground (arith, c, e)

  swap_ended :
      (w : World (Loop E)) (req : Bytes)
      → w.fsm ≡ swapping
      → IsIdle w.dispatch
      → w.dispatch.cached_init_req ≡ some req
      → (o.transport_start (o.transport_stop w.host.env)).1 ≡ true
      → (send_raw_with_newline (main_sink o) true (with_restart cj o w.host) req).1 ≡ timeout
      → perform_swap cj o w ≡ (
        record w {
          fsm = running;
          dispatch = record w.dispatch { queue = [] };
          host = entered_running cj o (answered_queue w req) [];
        },
        true,
      )
  unfolding perform_swap restart after_replay
  swap_ended w req f i c s e =
      let cycled = record w { host = with_restart cj o w.host } in
      let lost = record w {
        fsm = starting;
        host = answered_queue w req;
        dispatch = record w.dispatch { queue = [] };
      } in
      ap (λ u. restart cj o (cycle_transport cj o u)) (idle_settled cj o w (some cycled_message) i)
      ∙ ap (λ b. restart cj o (cycled, b)) s
      ∙ ap (λ u. after_replay cj o (dispatch_replay_initialize cj (main_sink o) u))
          (restarted cj o cycled f)
      ∙ ap (after_replay cj o) (replay_lost w req c e)
      ∙ ap (λ u. (u, true)) (ready cj o lost refl)

  -- The world in which the swap ends, out of the sends.
  answers-posts :
      (w : World (Loop E)) (req : Bytes)
      → entered_running cj o (answered_queue w req) []
        ≡ note_cycle o
            (acknowledge o
              (posted
                (main_sink o)
                (to_child (req ++ codes "\n") ∷ timeout_answers cj w.dispatch w.dispatch.queue)
                (with_restart cj o w.host))
              running)
            starting
            running
  unfolding drain_from posted send_raw_with_newline
  answers-posts w req =
      ap (λ c. note_cycle o (acknowledge o c running) starting running)
        (drain_entries-posts cj (main_sink o) w.dispatch w.dispatch.queue _)

  -- The queue is answered when the new child cannot be reached: in an idle session that is SWAPPING,
  -- with a cached initialize and a transport that starts again but times out on the replay, the
  -- outside sees exactly these effects of the swap, in this order: the stop, the start, the send that
  -- times out, one error with the code -32001 for each request of the queue, which has the id of the
  -- request and the data of the backend, where that can be built, and, if the daemon is connected and a reload is pending, its
  -- acknowledgement. Anything else in the queue is dropped. The wrapper is RUNNING with the dispatch
  -- object as it was but for the empty queue, and the swap counts as a success.
  pub unreachable-answered :
      (w : World (Loop E)) (req : Bytes)
      → w.fsm ≡ swapping
      → IsIdle w.dispatch
      → w.dispatch.cached_init_req ≡ some req
      → (o.transport_start (o.transport_stop w.host.env)).1 ≡ true
      → (o.transport_send (o.transport_start (o.transport_stop w.host.env)).0 (req ++ codes "\n")).1
        ≡ send_failed etimedout
      → HasRecovered o
          (stop
            ∷ start
            ∷ post (to_child (req ++ codes "\n"))
            ∷ (posts (timeout_answers cj w.dispatch w.dispatch.queue)
                ++ acks w.host.daemon_connected w.host.pending_reload_seq))
          w.dispatch
          w.host.env
          (perform_swap cj o w).0
        × ((perform_swap cj o w).1 ≡ true)
  unfolding performed posts
  unreachable-answered w req f i c s e =
      let sends = to_child (req ++ codes "\n") ∷ timeout_answers cj w.dispatch w.dispatch.queue in
      let ended = swap_ended w req f i c s (child_times_out o (with_restart cj o w.host) req e) in
      let done = answers-posts w req in
      let (env, owed, cycle) = posts-then_running o sends (with_restart cj o w.host) in
      rw ended (
        record {
          is_running_again = refl;
          restored = refl;
          effects = ap (λ c. c.env) done ∙ env;
          nothing_owed = ap (λ c. c.pending_reload_seq) done ∙ owed;
          no_cycle = ap (λ c. c.autonomous_cycle) done ∙ cycle;
        },
        refl,
      )
