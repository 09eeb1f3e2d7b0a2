-- ===== src/Bridge/Early.antt =====
-- The first session of wrapper/src/main.c: a reload that comes before RUNNING, and the initialize
-- request that the first response answers.
use mcpbridge.Base.{
  ℕ, ◌≡◌, ◌≢◌, refl, ap, sym, ◌∙◌, true, false, Bytes, none, some, List, [], ◌∷◌, arith,
}
use mcpbridge.Fsm.{starting, running, initialize_ok, step}
use mcpbridge.Mcp.CJson.{CJson}
use mcpbridge.Mcp.Message.{
  Msg, kind_is_response, kind_is_request, msg_is_request, msg_is_notification,
}
use mcpbridge.Dispatch.{
  ok, code_upstream_failed, World, send_error, build_backend_data, inflight_push, initialize_method,
  initialized_method, is_handshake_message, send_raw_with_newline, dispatch_new,
}
use mcpbridge.Dispatch.Upstream.{capture_handshake, forward, after_send, dispatch_on_upstream}
use mcpbridge.Dispatch.Child.{first_response, dispatch_on_child}
use mcpbridge.Dispatch.Recovery.{drain_from, settle_from, dispatch_settle_in_flight}
use mcpbridge.Bridge.{
  Outside, Loop, sink_with, sink_send_upstream, sink_send_child, acknowledge, note_cycle, emit_at,
  sink_emit_event, main_sink,
}
use mcpbridge.Bridge.Handlers.{daemon_reload, child_oversized}
use mcpbridge.Bridge.Swap.{ready}
use mcpbridge.Bridge.Reload.{with_reload}

module _ {J D E : Type 0} (cj : CJson J D) (o : Outside E) where
  -- Before RUNNING a reload is noted, and the event is absorbed.
  early_reload :
      (w : World (Loop E)) (seq : ℕ)
      → w.fsm ≡ starting
      → w.host.pending_reload_seq ≡ 0
      → daemon_reload cj o w seq ≡ with_reload cj o w seq
  unfolding daemon_reload sink_emit_event emit_at step
  early_reload w seq r p = ground (arith, r, p)

  -- The response that opens the session.
  session_opened :
      (w : World (Loop E)) (m : Msg)
      → w.fsm ≡ starting
      → w.dispatch.initialized ≡ false
      → w.dispatch.replay_pending ≡ false
      → kind_is_response m.kind ≡ true
      → m.is_error ≡ false
      → dispatch_on_child (main_sink o) w m
        ≡ sink_emit_event o (first_response (main_sink o) w m) initialize_ok
  unfolding dispatch_on_child main_sink
  session_opened w m r i p k g = ground (arith, i, p, k, g)

  -- Sends keep what the daemon is owed.
  drain-pending :
      (qs : List Bytes) (c : Loop E)
      → (drain_from (main_sink o) qs c).pending_reload_seq ≡ c.pending_reload_seq
  unfolding drain_from send_raw_with_newline main_sink sink_with sink_send_child
  drain-pending [] c = refl
  drain-pending (q ∷ qs) c = drain-pending qs _ ∙ ground arith

  drain-connected :
      (qs : List Bytes) (c : Loop E)
      → (drain_from (main_sink o) qs c).daemon_connected ≡ c.daemon_connected
  unfolding drain_from send_raw_with_newline main_sink sink_with sink_send_child
  drain-connected [] c = refl
  drain-connected (q ∷ qs) c = drain-connected qs _ ∙ ground arith

  passed-keeps :
      (c : Loop E) (bytes : Bytes)
      → (let passed = (send_raw_with_newline (main_sink o) false c bytes).0 in
          (passed.pending_reload_seq ≡ c.pending_reload_seq)
          × (passed.daemon_connected ≡ c.daemon_connected))
  unfolding send_raw_with_newline main_sink sink_with sink_send_upstream
  passed-keeps c bytes = (ground arith, ground arith)

  acknowledged :
      (c : Loop E) (seq : ℕ)
      → c.pending_reload_seq ≡ seq
      → seq ≢ 0
      → c.daemon_connected ≡ true
      → (note_cycle o (acknowledge o c running) starting running).env ≡ o.send_reload_ack c.env seq
  unfolding acknowledge note_cycle
  acknowledged c seq p n d = ground (arith, p, n, d)

  -- A reload that comes while the first session is still STARTING is acknowledged without one: with no
  -- reload pending, a nonzero sequence number, a connected daemon, and then the first response,
  -- without an error, the daemon gets the acknowledgement, and the transport has done nothing but pass
  -- the response on and send the queue; it was neither stopped nor started.
  pub early_reload-acknowledged :
      (w : World (Loop E)) (seq : ℕ) (m : Msg)
      → w.fsm ≡ starting
      → w.host.pending_reload_seq ≡ 0
      → seq ≢ 0
      → w.host.daemon_connected ≡ true
      → w.dispatch.initialized ≡ false
      → w.dispatch.replay_pending ≡ false
      → kind_is_response m.kind ≡ true
      → m.is_error ≡ false
      → (let done = dispatch_on_child (main_sink o) (daemon_reload cj o w seq) m in
          let passed =
            (send_raw_with_newline (main_sink o) false (with_reload cj o w seq).host m.raw).0 in
          (done.fsm ≡ running)
          × (done.host.env
              ≡ o.send_reload_ack (drain_from (main_sink o) w.dispatch.queue passed).env seq))
  unfolding first_response
  early_reload-acknowledged w seq m r p n d i q k g =
      let asked = with_reload cj o w seq in
      let opened =
        ap (λ u. dispatch_on_child (main_sink o) u m) (early_reload w seq r p)
        ∙ session_opened asked m r i q k g
        ∙ ready cj o (first_response (main_sink o) asked m) r in
      let (owed, connected) = passed-keeps asked.host m.raw in
      (
        ap (λ u. u.fsm) opened,
        ap (λ u. u.host.env) opened
            ∙ acknowledged
                (drain_from (main_sink o) w.dispatch.queue
                  (send_raw_with_newline (main_sink o) false asked.host m.raw).0)
                seq (drain-pending w.dispatch.queue _ ∙ owed) n
                (drain-connected w.dispatch.queue _ ∙ connected ∙ d),
      )

  not_notification :
      (m : Msg) (name : Bytes) → kind_is_request m.kind ≡ true → msg_is_notification m name ≡ false
  unfolding msg_is_notification
  not_notification m name k = ground arith

  captured :
      (m : Msg)
      → msg_is_request m initialize_method ≡ true
      → kind_is_request m.kind ≡ true
      → capture_handshake dispatch_new m ≡ record dispatch_new { cached_init_req = some m.raw }
  unfolding capture_handshake dispatch_new
  captured m i k = ground (arith, not_notification m initialized_method k)

  -- The first session with its initialize request sent.
  opening :
      (w : World (Loop E)) (m : Msg)
      → w.fsm ≡ starting
      → w.dispatch ≡ dispatch_new
      → msg_is_request m initialize_method ≡ true
      → kind_is_request m.kind ≡ true
      → (send_raw_with_newline (main_sink o) true w.host m.raw).1 ≡ ok
      → dispatch_on_upstream cj (main_sink o) w m ≡ record w {
        dispatch = inflight_push (record dispatch_new { cached_init_req = some m.raw }) m.id;
        host = (send_raw_with_newline (main_sink o) true w.host m.raw).0;
      }
  unfolding dispatch_on_upstream forward after_send is_handshake_message
  opening w m r d i k e = ground (arith, ap (λ u. capture_handshake u m) d ∙ captured m i k)

  -- The agent's initialize request can be answered twice: in a session that is STARTING with a fresh
  -- dispatch object, if the request is sent and the first response, without an error, opens the
  -- session, then an oversized line of the child has the settlement answer the id of that request
  -- again, with an error, though nothing is in flight by the count.
  pub initialize-answered_twice :
      (w : World (Loop E)) (m r : Msg) (reason : Bytes)
      → w.fsm ≡ starting
      → w.dispatch ≡ dispatch_new
      → msg_is_request m initialize_method ≡ true
      → kind_is_request m.kind ≡ true
      → (send_raw_with_newline (main_sink o) true w.host m.raw).1 ≡ ok
      → kind_is_response r.kind ≡ true
      → r.is_error ≡ false
      → (let opened =
            dispatch_on_child (main_sink o) (dispatch_on_upstream cj (main_sink o) w m) r in
          (opened.dispatch.in_flight ≡ 0)
          × ((child_oversized cj o opened reason).host
              ≡ send_error cj (main_sink o) opened.host m.id code_upstream_failed reason none))
  unfolding child_oversized dispatch_settle_in_flight settle_from first_response inflight_push
      dispatch_new build_backend_data
  initialize-answered_twice w m r reason f d i k e kr g =
      let sent = record w {
        dispatch = inflight_push (record dispatch_new { cached_init_req = some m.raw }) m.id;
        host = (send_raw_with_newline (main_sink o) true w.host m.raw).0;
      } in
      let opened =
        ap (λ u. dispatch_on_child (main_sink o) u r) (opening w m f d i k e)
        ∙ session_opened sent r f refl refl kr g
        ∙ ready cj o (first_response (main_sink o) sent r) f in
      (
        ap (λ u. u.dispatch.in_flight) opened,
        ap (λ u. (child_oversized cj o u reason).host) opened
            ∙ ap (λ u. send_error cj (main_sink o) u.host m.id code_upstream_failed reason none)
                (sym opened),
      )
