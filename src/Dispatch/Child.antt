-- ===== src/Dispatch/Child.antt =====
-- `dispatch_on_child` of wrapper/src/dispatch.c.
use mcpbridge.Base.{Bytes, codes, Bool, true, false, not, ◌&&◌, none, some, ◌==◌, if◌then◌else◌}
use mcpbridge.Fsm.{State, draining, Event, initialize_ok, initialize_failed, in_flight_zero}
use mcpbridge.Mcp.Build.{build_list_changed}
use mcpbridge.Mcp.Message.{kind_is_response, Msg}
use mcpbridge.Dispatch.{Dispatch, World, Sink, send_raw_with_newline, inflight_remove, decrement}

abbrev is_draining : State → Bool
is_draining draining = true
is_draining _ = false

abbrev pub init_event : Bool → Event
init_event is_error = if is_error then initialize_failed else initialize_ok

-- What a response does to the count, by its entry or down to zero.
unfoldable pub settle_response : Dispatch → Msg → Dispatch
settle_response d m =
    let (removed, d') = inflight_remove d m.id in
    if removed then d' else record d' { in_flight = decrement d'.in_flight }

module _ {H : Type 0} (s : Sink H) where
  unfoldable pub emit_list_changed_upstream : H → Bytes → H
  emit_list_changed_upstream h kind = elim (build_list_changed kind) [
    | none ↦ h
    | some buf ↦ s.send_upstream h buf
  ]

  unfoldable pub emit_all_list_changed : H → H
  unfolding emit_list_changed_upstream
  emit_all_list_changed h =
      emit_list_changed_upstream
        (emit_list_changed_upstream (emit_list_changed_upstream h (codes "tools"))
          (codes "prompts"))
        (codes "resources")

  -- The answer to a replayed initialize, up to the event. It is not forwarded.
  unfoldable pub consume_replay : World H → Msg → World H
  consume_replay w m = record w {
    dispatch = record w.dispatch {
      replay_pending = false;
      in_flight = decrement w.dispatch.in_flight;
    };
    host = if m.is_error then w.host else emit_all_list_changed w.host;
  }

  -- The first response, up to the event.
  unfoldable pub first_response : World H → Msg → World H
  first_response w m = record w {
    dispatch = record w.dispatch { initialized = true; in_flight = decrement w.dispatch.in_flight };
    host = (send_raw_with_newline s false w.host m.raw).0;
  }

  unfoldable pub later_message : World H → Msg → World H
  later_message w m =
      let h = (send_raw_with_newline s false w.host m.raw).0 in
      let d = settle_response w.dispatch m in
      let settled = record w { host = h; dispatch = d } in
      if not (kind_is_response m.kind)
      then record w { host = h }
      else if d.in_flight == 0 && is_draining w.fsm
      then s.emit_event settled in_flight_zero
      else settled

  unfoldable pub dispatch_on_child : World H → Msg → World H
  unfolding consume_replay first_response later_message
  dispatch_on_child w m =
      if w.dispatch.replay_pending && kind_is_response m.kind
      then s.emit_event (consume_replay w m) (init_event m.is_error)
      else if not w.dispatch.initialized && kind_is_response m.kind
      then s.emit_event (first_response w m) (init_event m.is_error)
      else later_message w m
