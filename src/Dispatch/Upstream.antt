-- ===== src/Dispatch/Upstream.antt =====
-- `dispatch_on_upstream` of wrapper/src/dispatch.c.
use mcpbridge.Base.{◌-◌, Bytes, Bool, true, false, ◌&&◌, ◌||◌, Option, none, some, if◌then◌else◌}
use mcpbridge.Base.Int.{ℤ}
use mcpbridge.Fsm.{reload_requested}
use mcpbridge.Mcp.CJson.{CJson}
use mcpbridge.Mcp.Message.{
  kind_is_request, kind_is_notification, Msg, msg_is_request, msg_is_notification,
}
use mcpbridge.Dispatch.{
  SendCode, ok, stale, fatal, timeout, upstream_error, Dispatch, World, Sink, send_raw_with_newline,
  enqueue, inflight_push, inflight_remove, initialize_method, initialized_method,
  is_replay_safe_method, is_handshake_message, is_running, code_timeout, code_session_reset,
  code_upstream_failed, timeout_message, upstream_failed_message, session_reset_message,
  build_backend_data, send_error,
}

abbrev is_null {ℓ} : {A : Type ℓ} → Option A → Bool
is_null none = true
is_null (some _) = false

-- The handshake messages are kept on first sighting.
unfoldable pub capture_handshake : Dispatch → Msg → Dispatch
capture_handshake d m =
    let d' =
      if is_null d.cached_init_req && msg_is_request m initialize_method
      then record d { cached_init_req = some m.raw }
      else d in
    if is_null d'.cached_initialized_notif && msg_is_notification m initialized_method
    then record d' { cached_initialized_notif = some m.raw }
    else d'

module _ {J D H : Type 0} (cj : CJson J D) (s : Sink H) where
  -- The error for one request, from a world whose dispatch object is settled already.
  abbrev answer_failure : World H → Msg → ℤ → Bytes → World H
  answer_failure w m code message = record w {
    host = send_error cj s w.host m.id code message (build_backend_data cj w.dispatch);
  }

  -- The branch for DISPATCH_SEND_TIMEOUT.
  unfoldable pub on_send_timeout : World H → Msg → World H
  on_send_timeout w m =
      let settled = record w { dispatch = (inflight_remove w.dispatch m.id).1 } in
      if kind_is_request m.kind then answer_failure settled m code_timeout timeout_message else w

  -- The branch for DISPATCH_SEND_UPSTREAM_ERROR: `d->in_flight--`, with the list left alone. `forward`
  -- has just counted the request, so the count is above zero and the `int` does not become negative.
  unfoldable pub on_send_upstream_error : World H → Msg → World H
  on_send_upstream_error w m =
      let d = w.dispatch in
      let settled = record w { dispatch = record d { in_flight = d.in_flight - 1 } } in
      if kind_is_request m.kind
      then answer_failure settled m code_upstream_failed upstream_failed_message
      else w

  -- The branch for DISPATCH_SEND_STALE, up to the event.
  unfoldable pub settle_stale : World H → Msg → World H
  settle_stale w m =
      let d = if kind_is_request m.kind then (inflight_remove w.dispatch m.id).1 else w.dispatch in
      if kind_is_notification m.kind || is_replay_safe_method m.method
      then record w { dispatch = enqueue d m.raw }
      else record w {
        dispatch = d;
        host = send_error cj s w.host m.id code_session_reset session_reset_message none;
      }

  unfoldable pub after_send : SendCode → World H → Msg → World H
  unfolding on_send_timeout on_send_upstream_error settle_stale
  after_send timeout w m = on_send_timeout w m
  after_send upstream_error w m = on_send_upstream_error w m
  after_send stale w m = s.emit_event (settle_stale w m) reload_requested
  after_send ok w m = w
  after_send fatal w m = w

  -- The branch that forwards at once. A request is counted before it is sent.
  unfoldable pub forward : World H → Msg → World H
  unfolding after_send
  forward w m =
      let d = if kind_is_request m.kind then inflight_push w.dispatch m.id else w.dispatch in
      let (h, rc) = send_raw_with_newline s true w.host m.raw in
      after_send rc (record w { dispatch = d; host = h }) m

  unfoldable pub dispatch_on_upstream : World H → Msg → World H
  unfolding forward capture_handshake
  dispatch_on_upstream w m =
      let d = capture_handshake w.dispatch m in
      if is_running w.fsm || is_handshake_message m
      then forward (record w { dispatch = d }) m
      else record w { dispatch = enqueue d m.raw }
