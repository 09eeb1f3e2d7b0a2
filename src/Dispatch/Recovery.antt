-- ===== src/Dispatch/Recovery.antt =====
-- `dispatch_settle_in_flight`, `dispatch_on_state_change` and `dispatch_replay_initialize` of
-- wrapper/src/dispatch.c. The list and the queue are walked from their heads; the sink's sends do not
-- touch them.
use mcpbridge.Base.{
  ◌+◌, Bytes, Bool, true, false, Option, none, some, List, [], ◌∷◌, ◌==◌, if◌then◌else◌,
}
use mcpbridge.Base.Int.{ℤ}
use mcpbridge.Fsm.{State, running, draining, in_flight_zero}
use mcpbridge.Mcp.CJson.{CJson}
use mcpbridge.Mcp.Message.{McpId, kind_is_request}
use mcpbridge.Mcp.Parse.{parsed, parse_failed, msg_parse}
use mcpbridge.Dispatch.{
  SendCode, timeout, upstream_error, Dispatch, World, Sink, send_raw_with_newline, inflight_clear,
  code_timeout, code_upstream_failed, cycled_message, reinit_timeout_message, reinit_failed_message,
  build_backend_data, send_error,
}

module _ {H : Type 0} (s : Sink H) where
  -- `drain_queue`: what the sends return is ignored.
  unfoldable pub drain_from : List Bytes → H → H
  drain_from [] h = h
  drain_from (q ∷ qs) h = drain_from qs (send_raw_with_newline s true h q).0

  unfoldable pub drain_queue : World H → World H
  unfolding drain_from
  drain_queue w = record w {
    host = drain_from w.dispatch.queue w.host;
    dispatch = record w.dispatch { queue = [] };
  }

  unfoldable pub dispatch_on_state_change : World H → State → World H
  unfolding drain_queue
  dispatch_on_state_change w running = drain_queue w
  dispatch_on_state_change w draining =
      if w.dispatch.in_flight == 0 then s.emit_event w in_flight_zero else w
  dispatch_on_state_change w _ = w

-- What a replay of the handshake returns: -1, 0 or 1.
pub data ReplayResult : Type 0 where
  replay_failed nothing_cached replayed : ReplayResult

-- The default reason is the one that `perform_swap` gives.
abbrev pub reason_text : Option Bytes → Bytes
reason_text none = cycled_message
reason_text (some reason) = reason

module _ {J D H : Type 0} (cj : CJson J D) (s : Sink H) where
  -- One error for each entry of the list, with one reason.
  unfoldable pub settle_from : Dispatch → Bytes → List McpId → H → H
  settle_from d reason [] h = h
  settle_from d reason (r ∷ rs) h =
      settle_from d reason rs
        (send_error cj s h r code_upstream_failed reason (build_backend_data cj d))

  unfoldable pub dispatch_settle_in_flight : World H → Option Bytes → World H
  unfolding settle_from
  dispatch_settle_in_flight w reason =
      let text = reason_text reason in
      record w {
        host = settle_from w.dispatch text w.dispatch.inflight w.host;
        dispatch = record (inflight_clear w.dispatch) { replay_pending = false };
      }

  -- The error data of the drain: the backend only for -32001.
  abbrev drain_data : Bool → Dispatch → Option J
  drain_data timed_out d = if timed_out then build_backend_data cj d else none

  -- One queued message: a request is answered with the error, anything else is dropped.
  unfoldable pub drain_entry : Dispatch → Bool → ℤ → Bytes → Bytes → H → H
  drain_entry d timed_out code message q h = elim (msg_parse cj q) [
    | parse_failed _ ↦ h
    | parsed m ↦
        if kind_is_request m.kind
        then send_error cj s h m.id code message (drain_data timed_out d)
        else h
  ]

  unfoldable pub drain_entries : Dispatch → Bool → ℤ → Bytes → List Bytes → H → H
  unfolding drain_entry
  drain_entries d timed_out code message [] h = h
  drain_entries d timed_out code message (q ∷ qs) h =
      drain_entries d timed_out code message qs (drain_entry d timed_out code message q h)

  -- The flag is `code == -32001`.
  unfoldable pub drain_queue_with_error : World H → Bool → ℤ → Bytes → World H
  unfolding drain_entries
  drain_queue_with_error w timed_out code message = record w {
    host = drain_entries w.dispatch timed_out code message w.dispatch.queue w.host;
    dispatch = record w.dispatch { queue = [] };
  }

  -- The cached notification follows the request; it is not counted.
  abbrev pub send_notif : H → Option Bytes → H
  send_notif h none = h
  send_notif h (some n) = (send_raw_with_newline s true h n).0

  abbrev finish_replay : World H → World H
  finish_replay w = record w {
    host = send_notif w.host w.dispatch.cached_initialized_notif;
    dispatch = record w.dispatch { in_flight = w.dispatch.in_flight + 1; replay_pending = true };
  }

  -- By what the send of the cached request returned.
  unfoldable pub after_replay_send : SendCode → World H → World H × ReplayResult
  unfolding drain_queue_with_error
  after_replay_send timeout w =
      (drain_queue_with_error w true code_timeout reinit_timeout_message, replay_failed)
  after_replay_send upstream_error w =
      (drain_queue_with_error w false code_upstream_failed reinit_failed_message, replay_failed)
  after_replay_send _ w = (finish_replay w, replayed)

  unfoldable pub dispatch_replay_initialize : World H → World H × ReplayResult
  unfolding after_replay_send
  dispatch_replay_initialize w = elim w.dispatch.cached_init_req [
    | none ↦ (w, nothing_cached)
    | some req ↦
        let (h, rc) = send_raw_with_newline s true w.host req in
        after_replay_send rc (record w { host = h })
  ]
