-- ===== src/Bridge/Refused.antt =====
-- A request that is not repeated when its session is stale, in wrapper/src/main.c.
use mcpbridge.Base.{
  ◌≡◌, refl, ap, sym, ◌∙◌, Bytes, codes, true, false, some, List, [], ◌∷◌, ◌++◌, append-nil,
}
use mcpbridge.Fsm.{running, swapping}
use mcpbridge.Mcp.CJson.{CJson}
use mcpbridge.Mcp.Message.{Msg, kind_is_request, kind_is_response}
use mcpbridge.Dispatch.{
  World, send_raw_with_newline, is_handshake_message, is_replay_safe_method, is_running,
}
use mcpbridge.Dispatch.Upstream.{dispatch_on_upstream}
use mcpbridge.Dispatch.Child.{dispatch_on_child}
use mcpbridge.Dispatch.Forwarding.{stale-settled}
use mcpbridge.Bridge.{Outside, Loop, main_sink}
use mcpbridge.Bridge.Handlers.{perform_swap}
use mcpbridge.Transport.{sent, send_failed, estale}
use mcpbridge.Dispatch.Posts.{
  Post, to_child, posted, queue_posts, handshake_posts, list_changed_posts, reset_answer,
  send_error-reset,
}
use mcpbridge.Bridge.Effects.{
  Effect, posted-performed, performed-append, post, stop, start, posts, performed, HasRecovered,
  child_takes, child_is_stale,
}
use mcpbridge.Bridge.Swap.{
  IsIdle, with_restart, swap_posts, swap_effects, swap_recovers, swap_completed,
}
use mcpbridge.Bridge.Stale.{cycling, idle_cycle, not_listed, no_acks}

module _ {J D E : Type 0} (cj : CJson J D) (o : Outside E) where
  -- The world in which the request has its errors and the swap is due.
  abbrev turned_away : World (Loop E) → Msg → List Post → World (Loop E)
  turned_away w m errors = cycling cj o (record w {
    host = posted (main_sink o) (to_child (m.raw ++ codes "\n") ∷ errors) w.host;
    fsm = swapping;
  })

  request_turned_away :
      (w : World (Loop E)) (m : Msg)
      → w.fsm ≡ running
      → w.host.pending_reload_seq ≡ 0
      → IsIdle w.dispatch
      → kind_is_request m.kind ≡ true
      → is_handshake_message m ≡ false
      → is_replay_safe_method m.method ≡ false
      → (o.transport_send w.host.env (m.raw ++ codes "\n")).1 ≡ send_failed estale
      → dispatch_on_upstream cj (main_sink o) w m ≡ turned_away w m (reset_answer cj m.id)
  unfolding main_sink posted send_raw_with_newline
  request_turned_away w m f p i k h q e =
      let sends = to_child (m.raw ++ codes "\n") ∷ reset_answer cj m.id in
      let told = record w { host = posted (main_sink o) sends w.host } in
      stale-settled cj (main_sink o) w m (ap is_running f) h k
        (not_listed cj o m.id w.dispatch.inflight i.none_listed) (child_is_stale o w.host m.raw e)
      ∙ rw (q, send_error-reset cj (main_sink o) m.id)
          (idle_cycle cj o told f ((posted-performed o sends w.host).1 ∙ p) i.none_counted)

  -- A request that is not safe to repeat is not sent again: in an idle running session with no reload
  -- pending and a cached initialize, a request that is no part of the handshake, whose method is not
  -- safe to repeat and whose send is STALE, starts a swap. If the transport starts again, takes the
  -- cached initialize and answers it with success, then the outside sees exactly these effects, in
  -- this order: the one send of the request, its error with the code -32002 and no data, where that
  -- can be built, the stop, the
  -- start, the cached handshake, the three list_changed notifications, and the messages that were
  -- queued; nothing is acknowledged. The wrapper is RUNNING, its dispatch object as before with the
  -- queue empty.
  pub stale-refused :
      (w : World (Loop E)) (m r : Msg) (req : Bytes)
      → w.fsm ≡ running
      → w.host.pending_reload_seq ≡ 0
      → IsIdle w.dispatch
      → w.dispatch.cached_init_req ≡ some req
      → kind_is_request m.kind ≡ true
      → is_handshake_message m ≡ false
      → is_replay_safe_method m.method ≡ false
      → (o.transport_send w.host.env (m.raw ++ codes "\n")).1 ≡ send_failed estale
      → (o.transport_start (
          performed o
            (post (to_child (m.raw ++ codes "\n")) ∷ (posts (reset_answer cj m.id) ++ stop ∷ []))
            w.host.env)).1
        ≡ true
      → (o.transport_send
          (performed o
            (post (to_child (m.raw ++ codes "\n"))
              ∷ (posts (reset_answer cj m.id) ++ stop ∷ start ∷ []))
            w.host.env)
          (req ++ codes "\n")).1
        ≡ sent
      → kind_is_response r.kind ≡ true
      → r.is_error ≡ false
      → HasRecovered o
          (post (to_child (m.raw ++ codes "\n"))
            ∷ (posts (reset_answer cj m.id)
                ++ stop
                  ∷ start
                  ∷ posts (
                      handshake_posts req w.dispatch.cached_initialized_notif
                      ++ (list_changed_posts ++ queue_posts w.dispatch.queue))))
          w.dispatch
          w.host.env
          (dispatch_on_child
            (main_sink o)
            (perform_swap cj o (dispatch_on_upstream cj (main_sink o) w m)).0
            r)
  unfolding swap_effects swap_posts performed posts
  stale-refused w m r req f p i c k h q e s a kr g =
      let away = turned_away w m (reset_answer cj m.id) in
      let idle : IsIdle away.dispatch = record {
        none_listed = i.none_listed;
        none_counted = i.none_counted;
        no_replay = i.no_replay;
      } in
      let sends = to_child (m.raw ++ codes "\n") ∷ reset_answer cj m.id in
      let (env, owed, connected) = posted-performed o sends w.host in
      let behind : (es : List Effect)
          → performed o (posts sends ++ es) w.host.env ≡ performed o es away.host.env =
        λ es. performed-append o (posts sends) es w.host.env ∙ ap (performed o es) (sym env) in
      let start_again : (o.transport_start (o.transport_stop away.host.env)).1 ≡ true =
        ap (λ x. (o.transport_start x).1) (sym (behind (stop ∷ []))) ∙ s in
      let taken = child_takes o (with_restart cj o away.host) req (
        ap (λ x. (o.transport_send x (req ++ codes "\n")).1) (sym (behind (stop ∷ start ∷ [])))
        ∙ a) in
      let done =
        ap (λ u. dispatch_on_child (main_sink o) (perform_swap cj o u).0 r)
          (request_turned_away w m f p i k h q e)
        ∙ swap_completed cj o away req r refl idle c start_again taken kr g in
      let v = swap_recovers cj o away req in
      let shown = posts (swap_posts cj o w.dispatch req) in
      rw done (record {
        is_running_again = refl;
        restored = refl;
        effects =
            v.effects
            ∙ ap (λ es. performed o (stop ∷ start ∷ (shown ++ es)) away.host.env)
                (no_acks cj o away.host.daemon_connected away.host.pending_reload_seq (owed ∙ p))
            ∙ ap (λ es. performed o (stop ∷ start ∷ es) away.host.env) (append-nil shown)
            ∙ sym (behind (stop ∷ start ∷ shown));
        nothing_owed = v.nothing_owed;
        no_cycle = v.no_cycle;
      })
