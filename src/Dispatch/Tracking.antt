-- ===== src/Dispatch/Tracking.antt =====
-- The bookkeeping of requests in wrapper/src/dispatch.c: the list of forwarded requests against the
-- count that the drain waits on.
use mcpbridge.Base.{
  ℕ, suc, ◌+◌, ◌≤◌, ◌≡◌, inl, inr, Bytes, Bool, true, false, Option-cases, Option, none, some, List,
  [], ◌∷◌, ◌++◌, if◌then◌else◌, length, arith, length-append,
}
use mcpbridge.Fsm.{State, Event, in_flight_zero}
use mcpbridge.Mcp.CJson.{CJson}
use mcpbridge.Mcp.Message.{McpId, id_eq_self, Msg, kind_is_request}
use mcpbridge.Dispatch.{
  SendCode, ok, stale, fatal, timeout, upstream_error, Dispatch, World, Sink, send_raw_with_newline,
  remove_first, inflight_push, inflight_remove, inflight_clear, enqueue,
}
use mcpbridge.Dispatch.Upstream.{capture_handshake, forward, dispatch_on_upstream, after_send}
use mcpbridge.Dispatch.Child.{
  settle_response, consume_replay, first_response, init_event, later_message, dispatch_on_child,
}
use mcpbridge.Dispatch.Recovery.{
  dispatch_on_state_change, dispatch_settle_in_flight, dispatch_replay_initialize,
  after_replay_send,
}

-- The replayed initialize is counted without an entry in the list.
abbrev pub replay_share : Bool → ℕ
replay_share pending = if pending then 1 else 0

-- The count is covered by the entries and the replay, so it cannot stay above zero with nothing left
-- to bring it down.
abbrev pub Tracked : Dispatch → Type 0
Tracked d = d.in_flight ≤ length d.inflight + replay_share d.replay_pending

pub length-remove_first :
    (id : McpId) (ids rest : List McpId)
    → remove_first id ids ≡ some rest
    → length ids ≡ suc (length rest)
unfolding remove_first
length-remove_first id [] rest h = cc
length-remove_first id (x ∷ xs) rest h = elim (Option-cases (remove_first id xs)) [
  | inl gone ↦ ground arith
  | inr (rest', e) ↦ ground (arith, length-remove_first id xs rest' e)
]

-- An id that is not listed yet is found at the end.
remove_first-end :
    (id : McpId) (ids : List McpId)
    → remove_first id ids ≡ none
    → remove_first id (ids ++ id ∷ []) ≡ some ids
unfolding remove_first
remove_first-end id [] h = ground (arith, id_eq_self id)
remove_first-end id (x ∷ xs) h = ground (arith, remove_first-end id xs)

-- Taking a new request back undoes its push: for an id that is not in the list, the removal after the
-- push succeeds and restores the list and the count.
pub inflight_remove-push :
    (d : Dispatch) (id : McpId)
    → remove_first id d.inflight ≡ none
    → inflight_remove (inflight_push d id) id ≡ (true, d)
unfolding inflight_remove inflight_push
inflight_remove-push d id h = ground (arith, remove_first-end id d.inflight h)

push-Tracked : (d : Dispatch) (id : McpId) → Tracked d → Tracked (inflight_push d id)
unfolding inflight_push
push-Tracked d id t = omega (arith, length-append d.inflight (id ∷ []))

remove-Tracked : (d : Dispatch) (id : McpId) → Tracked d → Tracked (inflight_remove d id).1
unfolding inflight_remove
remove-Tracked d id t = elim (Option-cases (remove_first id d.inflight)) [
  | inl gone ↦ ground arith
  | inr (rest, e) ↦ ground (arith, length-remove_first id d.inflight rest e)
]

settle_response-Tracked : (d : Dispatch) (m : Msg) → Tracked d → Tracked (settle_response d m)
unfolding settle_response
settle_response-Tracked d m t = ground (arith, remove-Tracked d m.id t)

capture-Tracked : (d : Dispatch) (m : Msg) → Tracked d → Tracked (capture_handshake d m)
unfolding capture_handshake
capture-Tracked d m t = ground arith

-- A sink whose events keep the bookkeeping.
pub record KeepsTracked {H : Type 0} (s : Sink H) : Type 0 where
  pub emit_keeps :
      (w : World H) (e : Event) → Tracked w.dispatch → Tracked (s.emit_event w e).dispatch

module _ {J D H : Type 0} (cj : CJson J D) (s : Sink H) (k : KeepsTracked s) where
  after_send-Tracked :
      (c : SendCode) (w : World H) (m : Msg)
      → Tracked w.dispatch
      → Tracked (after_send cj s c w m).dispatch
  unfolding after_send enqueue
  after_send-Tracked ok w m t = t
  after_send-Tracked fatal w m t = t
  after_send-Tracked timeout w m t = ground (arith, remove-Tracked w.dispatch m.id t)
  after_send-Tracked upstream_error w m t = ground arith
  after_send-Tracked stale w m t =
      k.emit_keeps _ _ (ground (arith, remove-Tracked w.dispatch m.id t))

  counted-Tracked :
      (d : Dispatch) (m : Msg)
      → Tracked d
      → Tracked (if kind_is_request m.kind then inflight_push d m.id else d)
  counted-Tracked d m t = ground (arith, push-Tracked d m.id t)

  forward-Tracked :
      (w : World H) (m : Msg) → Tracked w.dispatch → Tracked (forward cj s w m).dispatch
  unfolding forward
  forward-Tracked w m t =
      let d = if kind_is_request m.kind then inflight_push w.dispatch m.id else w.dispatch in
      let sent = send_raw_with_newline s true w.host m.raw in
      after_send-Tracked sent.1 (record w { dispatch = d; host = sent.0 }) m
        (counted-Tracked w.dispatch m t)

  -- Every agent message keeps the count covered, whatever its send returns.
  pub upstream-Tracked :
      (w : World H) (m : Msg)
      → Tracked w.dispatch
      → Tracked (dispatch_on_upstream cj s w m).dispatch
  unfolding dispatch_on_upstream enqueue
  upstream-Tracked w m t = ground (
    arith,
    capture-Tracked w.dispatch m t,
    forward-Tracked (record w { dispatch = capture_handshake w.dispatch m }) m,
  )

  later-Tracked :
      (w : World H) (m : Msg) → Tracked w.dispatch → Tracked (later_message s w m).dispatch
  unfolding later_message
  later-Tracked w m t =
      let d = settle_response w.dispatch m in
      let h = (send_raw_with_newline s false w.host m.raw).0 in
      ground (
        arith,
        settle_response-Tracked w.dispatch m t,
        k.emit_keeps (record w { host = h; dispatch = d }) in_flight_zero,
      )

  -- So does every message of the child.
  pub child-Tracked :
      (w : World H) (m : Msg) → Tracked w.dispatch → Tracked (dispatch_on_child s w m).dispatch
  unfolding dispatch_on_child
  child-Tracked w m t = ground (
    arith,
    k.emit_keeps (consume_replay s w m) (init_event m.is_error),
    k.emit_keeps (first_response s w m) (init_event m.is_error),
    later-Tracked w m t,
  )

  pub state_change-Tracked :
      (w : World H) (st : State)
      → Tracked w.dispatch
      → Tracked (dispatch_on_state_change s w st).dispatch
  unfolding dispatch_on_state_change
  state_change-Tracked w st t = ground (arith, k.emit_keeps w in_flight_zero t)

  pub settle-Tracked :
      (w : World H) (reason : Option Bytes)
      → Tracked (dispatch_settle_in_flight cj s w reason).dispatch
  unfolding dispatch_settle_in_flight inflight_clear
  settle-Tracked w reason = ground arith

  replay_send-Tracked :
      (c : SendCode) (w : World H)
      → w.dispatch.replay_pending ≡ false
      → Tracked w.dispatch
      → Tracked (after_replay_send cj s c w).0.dispatch
  unfolding after_replay_send
  replay_send-Tracked ok w p t = ground arith
  replay_send-Tracked _ w p t = ground arith

  -- A replay of the handshake is counted once, if no other is pending.
  pub replay-Tracked :
      (w : World H)
      → w.dispatch.replay_pending ≡ false
      → Tracked w.dispatch
      → Tracked (dispatch_replay_initialize cj s w).0.dispatch
  unfolding dispatch_replay_initialize
  replay-Tracked w p t = elim (Option-cases w.dispatch.cached_init_req) [
    | inl gone ↦ ground arith
    | inr (req, e) ↦
        let sent = send_raw_with_newline s true w.host req in
        ground (arith, e, replay_send-Tracked sent.1 (record w { host = sent.0 }) p t)
  ]
