-- ===== src/Dispatch/Forwarding.antt =====
-- What `dispatch_on_upstream` of wrapper/src/dispatch.c does with a message of the agent, up to the
-- drain of its queue.
use mcpbridge.Base.{
  ◌≡◌, refl, ap, ◌∙◌, Bytes, true, false, Option, none, List, [], ◌∷◌, ◌++◌, append_assoc,
  append-nil, arith, if◌then◌else◌,
}
use mcpbridge.Fsm.{running, reload_requested}
use mcpbridge.Mcp.CJson.{CJson}
use mcpbridge.Mcp.Message.{McpId, Msg, kind_is_request}
use mcpbridge.Dispatch.{
  SendCode, stale, timeout, is_replay_safe_method, code_session_reset, session_reset_message,
  upstream_error, Dispatch, World, Sink, send_raw_with_newline, remove_first, inflight_push,
  enqueue, is_running, is_handshake_message, send_error, build_backend_data, code_timeout,
  timeout_message, code_upstream_failed, upstream_failed_message,
}
use mcpbridge.Dispatch.Upstream.{
  capture_handshake, forward, dispatch_on_upstream, after_send, on_send_timeout, settle_stale,
  on_send_upstream_error,
}
use mcpbridge.Dispatch.Recovery.{
  drain_queue, dispatch_on_state_change, settle_from, reason_text, dispatch_settle_in_flight,
}
use mcpbridge.Dispatch.Posts.{posted, queue_posts, drain_from-posts}
use mcpbridge.Dispatch.Tracking.{inflight_remove-push}

-- None of the messages opens the handshake.
unfoldable pub NoHandshake : List Msg → Type 0
NoHandshake [] = Unit {0}
NoHandshake (m ∷ ms) = (is_handshake_message m ≡ false) × NoHandshake ms

unfoldable pub raws : List Msg → List Bytes
raws [] = []
raws (m ∷ ms) = m.raw ∷ raws ms

module _ {J D H : Type 0} (cj : CJson J D) (s : Sink H) where
  -- The messages of the agent, one after another.
  unfoldable pub upstream_all : World H → List Msg → World H
  upstream_all w [] = w
  upstream_all w (m ∷ ms) = upstream_all (dispatch_on_upstream cj s w m) ms

  capture-handshake_lem :
      (d : Dispatch) (m : Msg) → is_handshake_message m ≡ false → capture_handshake d m ≡ d
  unfolding capture_handshake is_handshake_message
  capture-handshake_lem d m h = ground arith

  hold :
      (w : World H) (m : Msg)
      → is_running w.fsm ≡ false
      → is_handshake_message m ≡ false
      → dispatch_on_upstream cj s w m
        ≡ record w { dispatch = record w.dispatch { queue = w.dispatch.queue ++ m.raw ∷ [] } }
  unfolding dispatch_on_upstream enqueue
  hold w m r h = ground (arith, capture-handshake_lem w.dispatch m h)

  waiting_all :
      (w : World H) (ms : List Msg)
      → is_running w.fsm ≡ false
      → NoHandshake ms
      → upstream_all w ms
        ≡ record w { dispatch = record w.dispatch { queue = w.dispatch.queue ++ raws ms } }
  unfolding upstream_all NoHandshake raws
  waiting_all w [] r h = rw append-nil refl
  waiting_all w (m ∷ ms) r (h, hs) =
      let w' = record w {
        dispatch = record w.dispatch { queue = w.dispatch.queue ++ m.raw ∷ [] };
      } in
      ap (λ v. upstream_all v ms) (hold w m r h) ∙ waiting_all w' ms r hs ∙ rw append_assoc refl

  -- Messages that arrive while the child is not running wait, and none is lost or reordered: if none
  -- of them opens the handshake, then nothing is sent before RUNNING is entered, and entering it sends
  -- the child, one line each and in this order, what was queued before and after that each of the
  -- messages, in the order of arrival. The queue is empty then, and nothing else is changed.
  pub queue-drained :
      (w : World H) (ms : List Msg)
      → is_running w.fsm ≡ false
      → NoHandshake ms
      → ((upstream_all w ms).host ≡ w.host)
        × (dispatch_on_state_change s (upstream_all w ms) running ≡ record w {
          host = posted s (queue_posts (w.dispatch.queue ++ raws ms)) w.host;
          dispatch = record w.dispatch { queue = [] };
        })
  unfolding dispatch_on_state_change drain_queue
  queue-drained w ms r h =
      let waiting = waiting_all w ms r h in
      (
        ap (λ v. v.host) waiting,
        ap (λ v. dispatch_on_state_change s v running) waiting
            ∙ ap (λ h'. record w { host = h'; dispatch = record w.dispatch { queue = [] } })
                (drain_from-posts s (w.dispatch.queue ++ raws ms) w.host),
      )

  -- The world in which a new request has been sent while the child runs.
  abbrev pub sent_with : World H → Msg → World H
  sent_with w m = record w {
    dispatch = inflight_push w.dispatch m.id;
    host = (send_raw_with_newline s true w.host m.raw).0;
  }

  forward-request :
      (w : World H) (m : Msg) (c : SendCode)
      → is_running w.fsm ≡ true
      → is_handshake_message m ≡ false
      → kind_is_request m.kind ≡ true
      → (send_raw_with_newline s true w.host m.raw).1 ≡ c
      → dispatch_on_upstream cj s w m ≡ after_send cj s c (sent_with w m) m
  unfolding dispatch_on_upstream forward
  forward-request w m c r h k e = ground (arith, capture-handshake_lem w.dispatch m h)

  -- A request whose send times out is taken back: while the child runs, a request with an id that is
  -- not in flight and no part of the handshake leaves the dispatch object as it was, and the
  -- agent gets one error, with the code for a timeout and the data of the backend.
  pub timeout-taken_back :
      (w : World H) (m : Msg)
      → is_running w.fsm ≡ true
      → is_handshake_message m ≡ false
      → kind_is_request m.kind ≡ true
      → remove_first m.id w.dispatch.inflight ≡ none
      → (send_raw_with_newline s true w.host m.raw).1 ≡ timeout
      → dispatch_on_upstream cj s w m ≡ record w {
        host =
            send_error cj s
              (send_raw_with_newline s true w.host m.raw).0
              m.id
              code_timeout
              timeout_message
              (build_backend_data cj w.dispatch);
      }
  unfolding after_send on_send_timeout
  timeout-taken_back w m r h k f e =
      forward-request w m timeout r h k e ∙ ground (arith, inflight_remove-push w.dispatch m.id f)

  -- A request that meets a stale session is kept or refused by its method: while the child runs, a
  -- request with an id that is not in flight, no part of the handshake, whose send is STALE, is
  -- taken out of the count. If its method is safe to repeat it waits in the queue, and if not the
  -- agent gets the error for a session reset; either way a reload is asked for behind it.
  pub stale-settled :
      (w : World H) (m : Msg)
      → is_running w.fsm ≡ true
      → is_handshake_message m ≡ false
      → kind_is_request m.kind ≡ true
      → remove_first m.id w.dispatch.inflight ≡ none
      → (send_raw_with_newline s true w.host m.raw).1 ≡ stale
      → (let h = (send_raw_with_newline s true w.host m.raw).0 in
          dispatch_on_upstream cj s w m ≡ (
            if is_replay_safe_method m.method
            then s.emit_event
                (record w { host = h; dispatch = enqueue w.dispatch m.raw })
                reload_requested
            else s.emit_event
                (record w {
                  host = send_error cj s h m.id code_session_reset session_reset_message none;
                })
                reload_requested))
  unfolding after_send settle_stale
  stale-settled w m r h k f e =
      forward-request w m stale r h k e ∙ ground (arith, inflight_remove-push w.dispatch m.id f)

  -- All the entries that a settlement answers, in two parts.
  settle_from-append :
      (d : Dispatch) (reason : Bytes) (xs ys : List McpId) (h : H)
      → settle_from cj s d reason (xs ++ ys) h
        ≡ settle_from cj s d reason ys (settle_from cj s d reason xs h)
  unfolding settle_from
  settle_from-append d reason [] ys h = refl
  settle_from-append d reason (x ∷ xs) ys h = settle_from-append d reason xs ys _

  -- The object that the data is read from may change in all but the backend.
  settle_from-backend :
      (d d' : Dispatch) (reason : Bytes) (ids : List McpId) (h : H)
      → build_backend_data cj d ≡ build_backend_data cj d'
      → settle_from cj s d reason ids h ≡ settle_from cj s d' reason ids h
  unfolding settle_from
  settle_from-backend d d' reason [] h e = refl
  settle_from-backend d d' reason (x ∷ xs) h e =
      settle_from-backend d d' reason xs _ e
      ∙ ap
          (λ extra.
            settle_from cj s d' reason xs (send_error cj s h x code_upstream_failed reason extra))
          e

  -- What a refused request leaves in the dispatch object: its id.
  abbrev pub refused : Dispatch → Msg → Dispatch
  refused d m = record d { inflight = d.inflight ++ m.id ∷ [] }

  refused-backend :
      (d : Dispatch) (m : Msg) → build_backend_data cj (refused d m) ≡ build_backend_data cj d
  unfolding build_backend_data
  refused-backend d m = refl

  refused_request :
      (w : World H) (m : Msg)
      → kind_is_request m.kind ≡ true
      → on_send_upstream_error cj s (sent_with w m) m ≡ record w {
        dispatch = refused w.dispatch m;
        host =
            send_error cj s
              (send_raw_with_newline s true w.host m.raw).0
              m.id
              code_upstream_failed
              upstream_failed_message
              (build_backend_data cj w.dispatch);
      }
  unfolding on_send_upstream_error inflight_push build_backend_data
  refused_request w m k = ground arith

  -- A request that the upstream refuses is answered twice: while the child runs, a request that is no
  -- part of the handshake and whose send fails with UPSTREAM_ERROR is answered with an error at once,
  -- the count is taken back, but its id stays in the list; the next settlement answers the older
  -- entries and then the same id again.
  pub upstream_error-answered_twice :
      (w : World H) (m : Msg) (reason : Option Bytes)
      → is_running w.fsm ≡ true
      → is_handshake_message m ≡ false
      → kind_is_request m.kind ≡ true
      → (send_raw_with_newline s true w.host m.raw).1 ≡ upstream_error
      → (dispatch_settle_in_flight cj s (dispatch_on_upstream cj s w m) reason).host ≡ (
          let d = w.dispatch in
          let extra = build_backend_data cj d in
          let first =
            send_error cj s
              (send_raw_with_newline s true w.host m.raw).0
              m.id
              code_upstream_failed
              upstream_failed_message
              extra in
          send_error cj s
            (settle_from cj s d (reason_text reason) d.inflight first)
            m.id
            code_upstream_failed
            (reason_text reason)
            extra)
  unfolding after_send dispatch_settle_in_flight settle_from
  upstream_error-answered_twice w m reason r h k e =
      let first =
        send_error cj s (send_raw_with_newline s true w.host m.raw).0 m.id code_upstream_failed
          upstream_failed_message (build_backend_data cj w.dispatch) in
      ap (λ v. (dispatch_settle_in_flight cj s v reason).host)
        (forward-request w m upstream_error r h k e)
      ∙ ap (λ v. (dispatch_settle_in_flight cj s v reason).host) (refused_request w m k)
      ∙ settle_from-backend (refused w.dispatch m) w.dispatch (reason_text reason)
          (w.dispatch.inflight ++ m.id ∷ []) first (refused-backend w.dispatch m)
      ∙ settle_from-append w.dispatch (reason_text reason) w.dispatch.inflight (m.id ∷ []) first
