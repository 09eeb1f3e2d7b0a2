-- ===== src/Bridge/Swap.antt =====
-- The swap of wrapper/src/main.c in an idle session, with the replay of the handshake and the drain
-- of the queue behind it.
use mcpbridge.Base.{
  ◌+◌, ◌≡◌, refl, ap, sym, ◌∙◌, true, false, Bytes, Option, some, List, [], ◌∷◌, ◌++◌, arith,
}
use mcpbridge.Fsm.{starting, running, swapping, transport_started, initialize_ok, step}
use mcpbridge.Mcp.CJson.{CJson}
use mcpbridge.Mcp.Message.{Msg, kind_is_response}
use mcpbridge.Dispatch.{ok, Dispatch, World, inflight_clear, send_raw_with_newline, cycled_message}
use mcpbridge.Dispatch.Child.{dispatch_on_child, emit_all_list_changed}
use mcpbridge.Dispatch.Recovery.{
  settle_from, drain_queue, drain_from, send_notif, dispatch_on_state_change,
  dispatch_replay_initialize, dispatch_settle_in_flight,
}
use mcpbridge.Dispatch.Replay.{replay_sent, replay_answered_by}
use mcpbridge.Dispatch.Posts.{
  Post, posted, posted-append, queue_posts, handshake_posts, list_changed_posts, drain_from-posts,
  list_changed-posts, handshake-posts,
}
use mcpbridge.Bridge.{
  Outside, Loop, sink_with, acknowledge, note_cycle, after_change, emit_at, sink_emit_event,
  main_sink,
}
use mcpbridge.Bridge.Depth.{drain_from-emit}
use mcpbridge.Bridge.Effects.{
  Effect, stop, start, posts, acks, performed, HasRecovered, posts-then_running,
}
use mcpbridge.Bridge.Handlers.{after_replay, cycle_transport, restart, perform_swap}

-- Nothing is in flight and no replay is pending.
pub record IsIdle (d : Dispatch) : Type 0 where
  pub none_listed : d.inflight ≡ []
  pub none_counted : d.in_flight ≡ 0
  pub no_replay : d.replay_pending ≡ false

module _ {J D E : Type 0} (cj : CJson J D) (o : Outside E) where
  pub restarted :
      (w : World (Loop E))
      → w.fsm ≡ swapping
      → sink_emit_event o w transport_started ≡ record w { fsm = starting }
  unfolding sink_emit_event emit_at step dispatch_on_state_change sink_with after_change acknowledge
      note_cycle
  restarted w r = ground (arith, r)

  -- What the loop context goes through when RUNNING is entered out of STARTING.
  abbrev pub entered_running : Loop E → List Bytes → Loop E
  entered_running c queue =
      note_cycle o (acknowledge o (drain_from (main_sink o) queue c) running) starting running

  pub ready :
      (w : World (Loop E))
      → w.fsm ≡ starting
      → sink_emit_event o w initialize_ok ≡ record w {
        fsm = running;
        dispatch = record w.dispatch { queue = [] };
        host = entered_running w.host w.dispatch.queue;
      }
  unfolding sink_emit_event emit_at step dispatch_on_state_change drain_queue after_change main_sink
  ready w r =
      ground (arith, r, drain_from-emit o (emit_at o 1) (sink_emit_event o) w.dispatch.queue w.host)

  -- The loop context with the transport stopped and started.
  abbrev pub with_restart : Loop E → Loop E
  with_restart c = record c { env = (o.transport_start (o.transport_stop c.env)).0 }

  -- The cached handshake, sent to the new child.
  abbrev pub with_handshake : Loop E → Bytes → Option Bytes → Loop E
  with_handshake c req notif =
      send_notif cj (main_sink o) (send_raw_with_newline (main_sink o) true c req).0 notif

  pub idle_settled :
      (w : World (Loop E)) (reason : Option Bytes)
      → IsIdle w.dispatch
      → dispatch_settle_in_flight cj (main_sink o) w reason ≡ w
  unfolding dispatch_settle_in_flight inflight_clear settle_from
  idle_settled w reason i = ground (arith, i.none_listed, i.none_counted, i.no_replay)

  -- The swap of an idle session, up to the answer to the replay.
  pub swap_sent :
      (w : World (Loop E)) (req : Bytes)
      → w.fsm ≡ swapping
      → IsIdle w.dispatch
      → w.dispatch.cached_init_req ≡ some req
      → (o.transport_start (o.transport_stop w.host.env)).1 ≡ true
      → (send_raw_with_newline (main_sink o) true (with_restart w.host) req).1 ≡ ok
      → perform_swap cj o w ≡ (
        record w {
          fsm = starting;
          host = with_handshake (with_restart w.host) req w.dispatch.cached_initialized_notif;
          dispatch = record w.dispatch {
            in_flight = w.dispatch.in_flight + 1;
            replay_pending = true;
          };
        },
        true,
      )
  unfolding perform_swap restart after_replay
  swap_sent w req f i c s e =
      let cycled = record w { host = with_restart w.host } in
      ap (λ u. restart cj o (cycle_transport cj o u)) (idle_settled w (some cycled_message) i)
      ∙ ap (λ b. restart cj o (cycled, b)) s
      ∙ ap (λ u. after_replay cj o (dispatch_replay_initialize cj (main_sink o) u))
          (restarted cycled f)
      ∙ ap (after_replay cj o)
          (replay_sent cj (main_sink o) (record cycled { fsm = starting }) req c e)

  -- The loop context when an idle swap is over: what was sent, in order.
  abbrev pub swapped : World (Loop E) → Bytes → Loop E
  swapped w req =
      entered_running
        (emit_all_list_changed (main_sink o)
          (with_handshake (with_restart w.host) req w.dispatch.cached_initialized_notif))
        w.dispatch.queue

  -- An idle swap, with the successful answer to the replay.
  pub swap_completed :
      (w : World (Loop E)) (req : Bytes) (m : Msg)
      → w.fsm ≡ swapping
      → IsIdle w.dispatch
      → w.dispatch.cached_init_req ≡ some req
      → (o.transport_start (o.transport_stop w.host.env)).1 ≡ true
      → (send_raw_with_newline (main_sink o) true (with_restart w.host) req).1 ≡ ok
      → kind_is_response m.kind ≡ true
      → m.is_error ≡ false
      → dispatch_on_child (main_sink o) (perform_swap cj o w).0 m ≡ record w {
        fsm = running;
        dispatch = record w.dispatch { queue = [] };
        host = swapped w req;
      }
  unfolding main_sink sink_emit_event
  swap_completed w req m f i c s e k g =
      let fresh = record w { fsm = starting; host = with_restart w.host } in
      ap (λ u. dispatch_on_child (main_sink o) u.0 m) (swap_sent w req f i c s e)
      ∙ ap (λ u. dispatch_on_child (main_sink o) u.0 m)
          (sym (replay_sent cj (main_sink o) fresh req c e))
      ∙ replay_answered_by cj (main_sink o) fresh req m c e i.no_replay k g
      ∙ ready _ refl

  -- What the new child and the agent are sent in an idle swap.
  unfoldable pub swap_posts : Dispatch → Bytes → List Post
  swap_posts d req =
      handshake_posts req d.cached_initialized_notif ++ (list_changed_posts ++ queue_posts d.queue)

  swapped-posts :
      (w : World (Loop E)) (req : Bytes)
      → swapped w req
        ≡ note_cycle o
            (acknowledge o
              (posted (main_sink o) (swap_posts w.dispatch req) (with_restart w.host))
              running)
            starting
            running
  unfolding swap_posts
  swapped-posts w req =
      let s = main_sink o in
      let shaken = handshake_posts req w.dispatch.cached_initialized_notif in
      ap (λ c. note_cycle o (acknowledge o c running) starting running)
        (drain_from-posts s w.dispatch.queue _
          ∙ ap (posted s (queue_posts w.dispatch.queue)) (
              list_changed-posts s _
              ∙ ap (posted s list_changed_posts) (
                  handshake-posts cj s req w.dispatch.cached_initialized_notif
                    (with_restart w.host)))
          ∙ sym (posted-append s list_changed_posts (queue_posts w.dispatch.queue) _)
          ∙ sym (posted-append s shaken (list_changed_posts ++ queue_posts w.dispatch.queue) _))

  -- The effects of an idle swap.
  unfoldable pub swap_effects : World (Loop E) → Bytes → List Effect
  swap_effects w req =
      stop
      ∷ start
      ∷ (posts (swap_posts w.dispatch req)
          ++ acks w.host.daemon_connected w.host.pending_reload_seq)

  pub swap_recovers :
      (w : World (Loop E)) (req : Bytes)
      → HasRecovered o (swap_effects w req) w.dispatch w.host.env (record w {
        fsm = running;
        dispatch = record w.dispatch { queue = [] };
        host = swapped w req;
      })
  unfolding swap_effects performed
  swap_recovers w req =
      let (env, owed, cycle) =
        posts-then_running o (swap_posts w.dispatch req) (with_restart w.host) in
      let done = swapped-posts w req in
      record {
        is_running_again = refl;
        restored = refl;
        effects = ap (λ c. c.env) done ∙ env;
        nothing_owed = ap (λ c. c.pending_reload_seq) done ∙ owed;
        no_cycle = ap (λ c. c.autonomous_cycle) done ∙ cycle;
      }
