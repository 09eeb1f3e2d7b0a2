-- ===== src/Dispatch/Tests.antt =====
-- The operations of wrapper/src/dispatch.c on concrete messages, with a sink that keeps a log.
use mcpbridge.Base.{◌≡◌, refl, Bytes, bytes_eq, codes, true, false, none, some, List, [], ◌∷◌, ◌++◌}
use mcpbridge.Base.Int.{ℤ, pos, int_eq}
use mcpbridge.Fsm.{State, starting, running, draining, in_flight_zero, step}
use mcpbridge.Mcp.CJson.{CJson}
use mcpbridge.Mcp.Build.{build_error_response, error_envelope}
use mcpbridge.Mcp.Message.{int, Msg, request, response, msg_is_request, msg_is_notification}
use mcpbridge.CLib.{c_string}
use mcpbridge.Dispatch.{
  initialize_method, SendCode, ok, timeout, upstream_error, Dispatch, World, Sink,
  send_raw_with_newline, remove_first, inflight_push, inflight_remove, is_handshake_message,
  timeout_message, build_backend_data, send_error, upstream_failed_message, cycled_message,
}
use mcpbridge.Dispatch.Upstream.{dispatch_on_upstream}
use mcpbridge.Dispatch.Child.{dispatch_on_child}
use mcpbridge.Dispatch.Posts.{
  Post, to_agent, to_child, posted, queue_posts, handshake_posts, list_changed_posts,
}
use mcpbridge.Dispatch.Recovery.{
  dispatch_on_state_change, dispatch_replay_initialize, dispatch_settle_in_flight, settle_from,
}
use mcpbridge.Dispatch.Tracking.{inflight_remove-push}
use mcpbridge.Dispatch.Forwarding.{
  upstream_all, NoHandshake, raws, queue-drained, timeout-taken_back, upstream_error-answered_twice,
}
use mcpbridge.Dispatch.Settling.{
  child_all, AllResponses, settle_responses, passed_on, drain-completes,
}
use mcpbridge.Dispatch.Replay.{replay-answered}

-- A stand-in for cJSON that prints the message of an error.
abbrev pub toy_json : CJson Bytes ℤ
toy_json = record {
  parse_with_length = λ b. none;
  is_object = λ j. true;
  get_object_item = λ j k. none;
  string_value = λ j. none;
  number_value = λ j. none;
  create_object = [];
  add_string_to_object = λ j k v. v;
  add_number_to_object = λ j k v. j;
  add_item_to_object = λ j k v. v;
  get_array_size = λ j. 0;
  print_unformatted = λ j. some j;
  int64_of_double = λ d. d;
  double_of_int64 = λ i. i;
  double_eq = int_eq;
}

-- A sink that logs what is sent, answers every send to the child with one code, and steps the FSM.
abbrev logging : SendCode → Sink (List Post)
logging c = record {
  send_upstream = λ h b. h ++ to_agent b ∷ [];
  send_child = λ h b. (h ++ to_child b ∷ [], c);
  emit_event = λ w e. record w { fsm = step w.fsm e };
}

abbrev pub ping : Msg
ping = record {
  kind = request;
  id = int (pos 1);
  method = some (codes "ping");
  raw = codes "p";
  is_error = false;
}

abbrev pub call : Msg
call = record {
  kind = request;
  id = int (pos 2);
  method = some (codes "tools/call");
  raw = codes "c";
  is_error = false;
}

abbrev pub pong : Msg
pong = record {
  kind = response;
  id = int (pos 1);
  method = none;
  raw = codes "r";
  is_error = false;
}

abbrev pub called : Msg
called = record {
  kind = response;
  id = int (pos 2);
  method = none;
  raw = codes "d";
  is_error = false;
}

abbrev pub opened : Dispatch
opened = record {
  inflight = [];
  in_flight = 0;
  initialized = true;
  replay_pending = false;
  cached_init_req = some (codes "i");
  cached_initialized_notif = some (codes "n");
  queue = [];
  backend_name = none;
  backend_url = none;
}

abbrev at_state : State → World (List Post)
at_state st = record { host = []; fsm = st; dispatch = opened }

inflight_remove-push_example :
    inflight_remove (inflight_push opened (int (pos 4))) (int (pos 4)) ≡ (true, opened)
unfolding remove_first
inflight_remove-push_example = inflight_remove-push opened (int (pos 4)) refl

queue-drained_example :
    ((upstream_all toy_json (logging ok) (at_state starting) (ping ∷ call ∷ [])).host ≡ [])
    × (dispatch_on_state_change
          (logging ok)
          (upstream_all toy_json (logging ok) (at_state starting) (ping ∷ call ∷ []))
          running
        ≡ record (at_state starting) {
          host = to_child (codes "p\n") ∷ to_child (codes "c\n") ∷ [];
        })
unfolding posted queue_posts raws NoHandshake is_handshake_message msg_is_request
    msg_is_notification bytes_eq c_string initialize_method
queue-drained_example =
    queue-drained toy_json (logging ok) (at_state starting) (ping ∷ call ∷ []) refl
      (refl, (refl, tt))

timeout-taken_back_example :
    dispatch_on_upstream toy_json (logging timeout) (at_state running) ping
    ≡ record (at_state running) {
      host = to_child (codes "p\n") ∷ to_agent (timeout_message ++ codes "\n") ∷ [];
    }
unfolding send_raw_with_newline remove_first is_handshake_message msg_is_request msg_is_notification
    send_error build_error_response error_envelope bytes_eq c_string initialize_method
    timeout_message build_backend_data
timeout-taken_back_example =
    timeout-taken_back toy_json (logging timeout) (at_state running) ping refl refl refl refl refl

upstream_error-answered_twice_example :
    (dispatch_settle_in_flight toy_json
      (logging upstream_error)
      (dispatch_on_upstream toy_json (logging upstream_error) (at_state running) ping)
      none).host
    ≡ to_child (codes "p\n")
      ∷ to_agent (upstream_failed_message ++ codes "\n")
      ∷ to_agent (cycled_message ++ codes "\n")
      ∷ []
unfolding send_raw_with_newline is_handshake_message msg_is_request msg_is_notification send_error
    build_error_response error_envelope settle_from bytes_eq c_string initialize_method
    upstream_failed_message build_backend_data cycled_message
upstream_error-answered_twice_example =
    upstream_error-answered_twice toy_json (logging upstream_error) (at_state running) ping none
      refl refl refl refl

abbrev draining_two : World (List Post)
draining_two = record {
  host = [];
  fsm = draining;
  dispatch = record opened { inflight = int (pos 1) ∷ int (pos 2) ∷ []; in_flight = 2 };
}

drain-completes_example :
    child_all (logging ok) draining_two (called ∷ pong ∷ [])
    ≡ (logging ok).emit_event
        (record draining_two {
          dispatch = settle_responses draining_two.dispatch (called ∷ pong ∷ []);
          host = passed_on (logging ok) (called ∷ pong ∷ []) [];
        })
        in_flight_zero
unfolding AllResponses
drain-completes_example =
    drain-completes (logging ok) draining_two (called ∷ []) pong refl
      (record { is_initialized = refl; no_replay = refl }) (refl, (refl, tt)) refl

replay-answered_example :
    dispatch_on_child
      (logging ok)
      (dispatch_replay_initialize toy_json (logging ok) (at_state starting)).0
      pong
    ≡ record (at_state running) {
      host =
          to_child (codes "i\n")
          ∷ to_child (codes "n\n")
          ∷ to_agent
              (codes "{\"jsonrpc\":\"2.0\",\"method\":\"notifications/tools/list_changed\"}\n")
          ∷ to_agent
              (codes "{\"jsonrpc\":\"2.0\",\"method\":\"notifications/prompts/list_changed\"}\n")
          ∷ to_agent
              (codes "{\"jsonrpc\":\"2.0\",\"method\":\"notifications/resources/list_changed\"}\n")
          ∷ [];
    }
unfolding posted handshake_posts list_changed_posts step
replay-answered_example =
    replay-answered toy_json (logging ok) (at_state starting) (codes "i") pong refl refl refl refl
      refl
