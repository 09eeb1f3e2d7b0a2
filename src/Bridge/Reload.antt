-- ===== src/Bridge/Reload.antt =====
-- A reload of the backend in wrapper/src/main.c, from the daemon's envelope to the acknowledgement.
use mcpbridge.Base.{
  ℕ, suc, ◌+◌, ◌≡◌, ◌≢◌, refl, ap, ◌∙◌, true, false, Bytes, codes, some, List, [], ◌∷◌, ◌++◌,
  length, length-append, arith,
}
use mcpbridge.Fsm.{running, draining, swapping, in_flight_zero, step}
use mcpbridge.Mcp.CJson.{CJson}
use mcpbridge.Mcp.Message.{Msg, kind_is_response}
use mcpbridge.Dispatch.{World}
use mcpbridge.Dispatch.Child.{dispatch_on_child}
use mcpbridge.Dispatch.Recovery.{dispatch_on_state_change}
use mcpbridge.Dispatch.Settling.{
  child_all, AllResponses, IsSettledSession, drain-completes, drain-waits, responses-prefix,
}
use mcpbridge.Dispatch.Posts.{queue_posts, handshake_posts, list_changed_posts}
use mcpbridge.Transport.{sent}
use mcpbridge.Bridge.{
  Outside, Loop, sink_with, acknowledge, note_cycle, after_change, emit_at, sink_emit_event,
  main_sink,
}
use mcpbridge.Bridge.Effects.{stop, start, posts, acks, HasRecovered, child_takes}
use mcpbridge.Bridge.Handlers.{perform_swap, daemon_reload}
use mcpbridge.Bridge.Swap.{
  IsIdle, with_restart, swap_posts, swap_effects, swap_recovers, swap_completed,
}

module _ {J D E : Type 0} (cj : CJson J D) (o : Outside E) where
  abbrev pub with_reload : World (Loop E) → ℕ → World (Loop E)
  with_reload w seq = record w { host = record w.host { pending_reload_seq = seq } }

  -- A reload with nothing in flight goes through DRAINING at once.
  idle_reload :
      (w : World (Loop E)) (seq : ℕ)
      → w.fsm ≡ running
      → w.host.pending_reload_seq ≡ 0
      → seq ≢ 0
      → w.dispatch.in_flight ≡ 0
      → daemon_reload cj o w seq ≡ record (with_reload w seq) { fsm = swapping }
  unfolding daemon_reload sink_emit_event emit_at step dispatch_on_state_change sink_with
      after_change acknowledge note_cycle
  idle_reload w seq r p n z = ground (arith, r, p, z, n)

  -- With requests in flight it waits there.
  busy_reload :
      (w : World (Loop E)) (seq n : ℕ)
      → w.fsm ≡ running
      → w.host.pending_reload_seq ≡ 0
      → seq ≢ 0
      → w.dispatch.in_flight ≡ suc n
      → daemon_reload cj o w seq ≡ record (with_reload w seq) { fsm = draining }
  unfolding daemon_reload sink_emit_event emit_at step dispatch_on_state_change sink_with
      after_change acknowledge note_cycle
  busy_reload w seq k r p n z = ground (arith, r, p, z, n)

  drain_over :
      (w : World (Loop E))
      → w.fsm ≡ draining
      → sink_emit_event o w in_flight_zero ≡ record w { fsm = swapping }
  unfolding sink_emit_event emit_at step dispatch_on_state_change sink_with after_change acknowledge
      note_cycle
  drain_over w r = ground (arith, r)

  -- A reload waits for the answers that are due: in a running session past its handshake, with no
  -- reload pending, as many requests in flight as the responses ms and m, a nonzero sequence number,
  -- the wrapper is DRAINING until the last of these responses and SWAPPING after it.
  pub reload-waits :
      (w : World (Loop E)) (seq : ℕ) (ms : List Msg) (m : Msg)
      → w.fsm ≡ running
      → w.host.pending_reload_seq ≡ 0
      → seq ≢ 0
      → IsSettledSession w.dispatch
      → AllResponses (ms ++ m ∷ [])
      → w.dispatch.in_flight ≡ length (ms ++ m ∷ [])
      → (let asked = daemon_reload cj o w seq in
          (asked.fsm ≡ draining)
          × ((child_all (main_sink o) asked ms).fsm ≡ draining)
          × ((child_all (main_sink o) asked (ms ++ m ∷ [])).fsm ≡ swapping))
  unfolding main_sink sink_emit_event
  reload-waits w seq ms m r p n v k l =
      let count : w.dispatch.in_flight ≡ length ms + 1 =
        omega (arith, l, length-append ms (m ∷ [])) in
      let asked = record (with_reload w seq) { fsm = draining } in
      let waiting = busy_reload w seq (length ms) r p n (omega (arith, count)) in
      (
        ap (λ u. u.fsm) waiting,
        ap (λ u. (child_all (main_sink o) u ms).fsm) waiting
            ∙ ap (λ u. u.fsm)
                (drain-waits (main_sink o) asked ms 0 v (responses-prefix ms m k) count),
        ap (λ u. (child_all (main_sink o) u (ms ++ m ∷ [])).fsm) waiting
            ∙ ap (λ u. u.fsm) (drain-completes (main_sink o) asked ms m refl v k l)
            ∙ ap (λ u. u.fsm) (drain_over _ refl),
      )

  -- A reload of an idle session, from the envelope to the acknowledgement: in a running session with no
  -- reload pending, nothing in flight, no replay pending and a cached initialize, and with a
  -- nonzero sequence number, a transport that stops and starts again and takes the cached
  -- initialize, and a successful response to it, the outside sees exactly these effects, in this
  -- order: the stop, the start, the cached handshake, the three list_changed notifications, the
  -- queued messages and, if the daemon is connected, the acknowledgement of that number. The wrapper
  -- is RUNNING again, its dispatch object is as before with the queue empty, and neither an
  -- acknowledgement nor the end of a cycle is due.
  pub reload-cycle :
      (w : World (Loop E)) (seq : ℕ) (req : Bytes) (m : Msg)
      → w.fsm ≡ running
      → w.host.pending_reload_seq ≡ 0
      → seq ≢ 0
      → IsIdle w.dispatch
      → w.dispatch.cached_init_req ≡ some req
      → (o.transport_start (o.transport_stop w.host.env)).1 ≡ true
      → (o.transport_send (o.transport_start (o.transport_stop w.host.env)).0 (req ++ codes "\n")).1
        ≡ sent
      → kind_is_response m.kind ≡ true
      → m.is_error ≡ false
      → HasRecovered o
          (stop
            ∷ start
            ∷ (posts (
                  handshake_posts req w.dispatch.cached_initialized_notif
                  ++ (list_changed_posts ++ queue_posts w.dispatch.queue))
                ++ acks w.host.daemon_connected seq))
          w.dispatch
          w.host.env
          (dispatch_on_child (main_sink o) (perform_swap cj o (daemon_reload cj o w seq)).0 m)
  unfolding swap_effects swap_posts
  reload-cycle w seq req m r p n i c s e k g =
      let asked = record (with_reload w seq) { fsm = swapping } in
      let taken = child_takes o (with_restart cj o asked.host) req e in
      let done =
        ap (λ u. dispatch_on_child (main_sink o) (perform_swap cj o u).0 m)
          (idle_reload w seq r p n i.none_counted)
        ∙ swap_completed cj o asked req m refl i c s taken k g in
      rw done (swap_recovers cj o asked req)
