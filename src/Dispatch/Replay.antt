-- ===== src/Dispatch/Replay.antt =====
-- The replayed handshake of wrapper/src/dispatch.c: `dispatch_replay_initialize`, and the branch of
-- `dispatch_on_child` that consumes its answer.
use mcpbridge.Base.{◌+◌, ◌≡◌, ap, sym, ◌∙◌, Bytes, codes, ◌++◌, true, false, some, arith}
use mcpbridge.Fsm.{initialize_ok}
use mcpbridge.Mcp.CJson.{CJson}
use mcpbridge.Mcp.Message.{Msg, kind_is_response}
use mcpbridge.Dispatch.{ok, World, Sink, send_raw_with_newline}
use mcpbridge.Dispatch.Child.{emit_all_list_changed, consume_replay, dispatch_on_child}
use mcpbridge.Dispatch.Recovery.{
  send_notif, replayed, after_replay_send, dispatch_replay_initialize,
}
use mcpbridge.Dispatch.Posts.{
  posted, posted-append, handshake_posts, list_changed_posts, list_changed-posts, handshake-posts,
}

module _ {J D H : Type 0} (cj : CJson J D) (s : Sink H) where
  pub replay_sent :
      (w : World H) (req : Bytes)
      → w.dispatch.cached_init_req ≡ some req
      → (send_raw_with_newline s true w.host req).1 ≡ ok
      → dispatch_replay_initialize cj s w ≡ (
        record w {
          host =
              send_notif cj s
                (send_raw_with_newline s true w.host req).0
                w.dispatch.cached_initialized_notif;
          dispatch = record w.dispatch {
            in_flight = w.dispatch.in_flight + 1;
            replay_pending = true;
          };
        },
        replayed,
      )
  unfolding dispatch_replay_initialize after_replay_send
  replay_sent w req c e = ground (arith, c, e)

  pub replay_answered_by :
      (w : World H) (req : Bytes) (m : Msg)
      → w.dispatch.cached_init_req ≡ some req
      → (send_raw_with_newline s true w.host req).1 ≡ ok
      → w.dispatch.replay_pending ≡ false
      → kind_is_response m.kind ≡ true
      → m.is_error ≡ false
      → dispatch_on_child s (dispatch_replay_initialize cj s w).0 m
        ≡ s.emit_event
            (record w {
              host = emit_all_list_changed s (
                  send_notif cj s
                    (send_raw_with_newline s true w.host req).0
                    w.dispatch.cached_initialized_notif);
            })
            initialize_ok
  unfolding dispatch_on_child consume_replay
  replay_answered_by w req m c e p k g =
      ap (λ v. dispatch_on_child s v.0 m) (replay_sent w req c e) ∙ ground arith

  -- A replay of the handshake leaves no trace but its messages: with a cached initialize that the
  -- child accepts, no replay pending, and any successful response, the sink's calls are, in this
  -- order, the cached request and, if there is one, the cached notification to the child, and the
  -- three list_changed notifications to the agent; the response is not passed on. Then INITIALIZE_OK
  -- is raised, and the dispatch object is what it was before the replay.
  pub replay-answered :
      (w : World H) (req : Bytes) (m : Msg)
      → w.dispatch.cached_init_req ≡ some req
      → (s.send_child w.host (req ++ codes "\n")).1 ≡ ok
      → w.dispatch.replay_pending ≡ false
      → kind_is_response m.kind ≡ true
      → m.is_error ≡ false
      → dispatch_on_child s (dispatch_replay_initialize cj s w).0 m
        ≡ s.emit_event
            (record w {
              host =
                  posted s
                    (handshake_posts req w.dispatch.cached_initialized_notif ++ list_changed_posts)
                    w.host;
            })
            initialize_ok
  unfolding send_raw_with_newline
  replay-answered w req m c e p k g =
      let notif = w.dispatch.cached_initialized_notif in
      replay_answered_by w req m c e p k g
      ∙ ap (λ h. s.emit_event (record w { host = h }) initialize_ok)
          (list_changed-posts s _
            ∙ ap (posted s list_changed_posts) (handshake-posts cj s req notif w.host)
            ∙ sym (posted-append s (handshake_posts req notif) list_changed_posts w.host))
