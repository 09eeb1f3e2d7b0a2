-- ===== src/Bridge/Stale.antt =====
-- The cycle that the wrapper of wrapper/src/main.c starts itself, when the upstream's session is
-- stale.
use mcpbridge.Base.{
  ℕ, Bool, ◌≡◌, refl, ap, ◌∙◌, Bytes, codes, true, false, some, none, List, [], ◌∷◌, ◌++◌,
  append-nil, arith,
}
use mcpbridge.Fsm.{running, swapping, reload_requested, step}
use mcpbridge.Mcp.CJson.{CJson}
use mcpbridge.Mcp.Message.{McpId, Msg, kind_is_request, kind_is_response}
use mcpbridge.Dispatch.{
  World, send_raw_with_newline, enqueue, is_handshake_message, is_replay_safe_method, is_running,
  remove_first,
}
use mcpbridge.Dispatch.Upstream.{dispatch_on_upstream}
use mcpbridge.Dispatch.Child.{dispatch_on_child}
use mcpbridge.Dispatch.Recovery.{dispatch_on_state_change}
use mcpbridge.Dispatch.Forwarding.{stale-settled}
use mcpbridge.Bridge.{
  Outside, Loop, sink_with, sink_send_child, acknowledge, note_cycle, after_change, emit_at,
  sink_emit_event, main_sink,
}
use mcpbridge.Bridge.Handlers.{perform_swap}
use mcpbridge.Transport.{sent, send_failed, estale}
use mcpbridge.Dispatch.Posts.{to_child, queue_posts, handshake_posts, list_changed_posts}
use mcpbridge.Bridge.Effects.{
  post, stop, start, posts, acks, performed, HasRecovered, child_takes, child_is_stale,
}
use mcpbridge.Bridge.Swap.{
  IsIdle, with_restart, swap_posts, swap_effects, swap_recovers, swap_completed,
}

module _ {J D E : Type 0} (cj : CJson J D) (o : Outside E) where
  abbrev pub cycling : World (Loop E) → World (Loop E)
  cycling w = record w { host = record w.host { autonomous_cycle = true } }

  -- With nothing in flight, a cycle goes through DRAINING at once.
  pub idle_cycle :
      (w : World (Loop E))
      → w.fsm ≡ running
      → w.host.pending_reload_seq ≡ 0
      → w.dispatch.in_flight ≡ 0
      → sink_emit_event o w reload_requested ≡ record (cycling w) { fsm = swapping }
  unfolding sink_emit_event emit_at step dispatch_on_state_change sink_with after_change acknowledge
      note_cycle
  idle_cycle w r p z = ground (arith, r, p, z)

  send-pending :
      (c : Loop E) (bytes : Bytes)
      → (send_raw_with_newline (main_sink o) true c bytes).0.pending_reload_seq
        ≡ c.pending_reload_seq
  unfolding send_raw_with_newline main_sink sink_with sink_send_child
  send-pending c bytes = ground arith

  pub no_acks : (connected : Bool) (seq : ℕ) → seq ≡ 0 → acks connected seq ≡ []
  unfolding acks
  no_acks connected seq e = ground (arith, e)

  first_send :
      (c : Loop E) (bytes : Bytes)
      → (send_raw_with_newline (main_sink o) true c bytes).0.env
        ≡ (o.transport_send c.env (bytes ++ codes "\n")).0
  unfolding send_raw_with_newline main_sink sink_with sink_send_child
  first_send c bytes = ground arith

  pub not_listed : (id : McpId) (ids : List McpId) → ids ≡ [] → remove_first id ids ≡ none
  unfolding remove_first
  not_listed id [] e = refl
  not_listed id (x ∷ xs) e = cc

  -- The world in which the request waits for the swap, behind what was queued.
  abbrev stranded : World (Loop E) → Msg → World (Loop E)
  stranded w m = cycling (record w {
    host = (send_raw_with_newline (main_sink o) true w.host m.raw).0;
    dispatch = record w.dispatch { queue = w.dispatch.queue ++ m.raw ∷ [] };
    fsm = swapping;
  })

  request_stranded :
      (w : World (Loop E)) (m : Msg)
      → w.fsm ≡ running
      → w.host.pending_reload_seq ≡ 0
      → IsIdle w.dispatch
      → kind_is_request m.kind ≡ true
      → is_handshake_message m ≡ false
      → is_replay_safe_method m.method ≡ true
      → (o.transport_send w.host.env (m.raw ++ codes "\n")).1 ≡ send_failed estale
      → dispatch_on_upstream cj (main_sink o) w m ≡ stranded w m
  unfolding enqueue main_sink
  request_stranded w m f p i k h q e =
      let held = record w {
        host = (send_raw_with_newline (main_sink o) true w.host m.raw).0;
        dispatch = record w.dispatch { queue = w.dispatch.queue ++ m.raw ∷ [] };
      } in
      stale-settled cj (main_sink o) w m (ap is_running f) h k
        (not_listed m.id w.dispatch.inflight i.none_listed) (child_is_stale o w.host m.raw e)
      ∙ rw q (idle_cycle held f (send-pending w.host m.raw ∙ p) i.none_counted)

  -- What the first send and the swap behind it do to the outside, with nothing to acknowledge.
  stranded_effects :
      (w : World (Loop E)) (m : Msg) (req : Bytes)
      → w.host.pending_reload_seq ≡ 0
      → performed o (swap_effects cj o (stranded w m) req) (stranded w m).host.env
        ≡ performed o
            (post (to_child (m.raw ++ codes "\n"))
              ∷ stop
              ∷ start
              ∷ posts (
                  handshake_posts req w.dispatch.cached_initialized_notif
                  ++ (list_changed_posts ++ queue_posts (w.dispatch.queue ++ m.raw ∷ []))))
            w.host.env
  unfolding swap_effects swap_posts performed
  stranded_effects w m req p =
      let owed = send-pending w.host m.raw ∙ p in
      let shown = posts (swap_posts cj o (stranded w m).dispatch req) in
      ap (λ es. performed o (stop ∷ start ∷ (shown ++ es)) (stranded w m).host.env)
        (no_acks (stranded w m).host.daemon_connected (stranded w m).host.pending_reload_seq owed)
      ∙ ap (λ es. performed o (stop ∷ start ∷ es) (stranded w m).host.env) (append-nil shown)
      ∙ ap (performed o (stop ∷ start ∷ shown)) (first_send w.host m.raw)

  -- A request that meets a stale session is sent again to the new one: in an idle running session with
  -- no reload pending and a cached initialize, a request that is no part of the handshake, whose
  -- method is safe to repeat and whose send is STALE, starts a swap. If the transport starts again,
  -- takes the cached initialize and answers it with success, then the outside sees exactly these
  -- effects, in this order: the first send of the request, the stop, the start, the cached
  -- handshake, the three list_changed notifications, the messages that were queued, and the request
  -- again; nothing is acknowledged. The wrapper is RUNNING, its dispatch object as before with the
  -- queue empty.
  pub stale-recovered :
      (w : World (Loop E)) (m r : Msg) (req : Bytes)
      → w.fsm ≡ running
      → w.host.pending_reload_seq ≡ 0
      → IsIdle w.dispatch
      → w.dispatch.cached_init_req ≡ some req
      → kind_is_request m.kind ≡ true
      → is_handshake_message m ≡ false
      → is_replay_safe_method m.method ≡ true
      → (o.transport_send w.host.env (m.raw ++ codes "\n")).1 ≡ send_failed estale
      → (o.transport_start
          (o.transport_stop (o.transport_send w.host.env (m.raw ++ codes "\n")).0)).1
        ≡ true
      → (o.transport_send
          (o.transport_start
            (o.transport_stop (o.transport_send w.host.env (m.raw ++ codes "\n")).0)).0
          (req ++ codes "\n")).1
        ≡ sent
      → kind_is_response r.kind ≡ true
      → r.is_error ≡ false
      → HasRecovered o
          (post (to_child (m.raw ++ codes "\n"))
            ∷ stop
            ∷ start
            ∷ posts (
                handshake_posts req w.dispatch.cached_initialized_notif
                ++ (list_changed_posts ++ queue_posts (w.dispatch.queue ++ m.raw ∷ []))))
          w.dispatch
          w.host.env
          (dispatch_on_child
            (main_sink o)
            (perform_swap cj o (dispatch_on_upstream cj (main_sink o) w m)).0
            r)
  stale-recovered w m r req f p i c k h q e s a kr g =
      let idle : IsIdle (stranded w m).dispatch = record {
        none_listed = i.none_listed;
        none_counted = i.none_counted;
        no_replay = i.no_replay;
      } in
      let env = first_send w.host m.raw in
      let start_again : (o.transport_start (o.transport_stop (stranded w m).host.env)).1 ≡ true =
        rw env s in
      let taken = child_takes o (with_restart cj o (stranded w m).host) req (rw env a) in
      let done =
        ap (λ u. dispatch_on_child (main_sink o) (perform_swap cj o u).0 r)
          (request_stranded w m f p i k h q e)
        ∙ swap_completed cj o (stranded w m) req r refl idle c start_again taken kr g in
      let v = swap_recovers cj o (stranded w m) req in
      rw done (record {
        is_running_again = refl;
        restored = refl;
        effects = v.effects ∙ stranded_effects w m req p;
        nothing_owed = v.nothing_owed;
        no_cycle = v.no_cycle;
      })
