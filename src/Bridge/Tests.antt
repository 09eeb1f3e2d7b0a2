-- ===== src/Bridge/Tests.antt =====
-- The handlers of wrapper/src/main.c on concrete inputs, with a transport that keeps a log.
use mcpbridge.Base.{
  Option, ◌==◌, inl, inr, ◌≡◌, refl, Bytes, bytes_eq, codes, true, false, if◌then◌else◌, none, some,
  List, [], ◌∷◌, ◌++◌, ℕ, arith,
}
use mcpbridge.Base.Int.{pos}
use mcpbridge.Fsm.{State, starting, running, draining, swapping, in_flight_zero}
use mcpbridge.Mcp.Build.{build_error_response, error_envelope}
use mcpbridge.Mcp.Scan.{scan_string, scan_number, scan_literal, scan_key_is}
use mcpbridge.Mcp.Values.{open_container, separator, scan_any}
use mcpbridge.Mcp.Envelope.{no_fields, scan_envelope}
use mcpbridge.Mcp.Parse.{msg_parse}
use mcpbridge.Mcp.Message.{
  classify_envelope, msg_is_notification, int, Msg, request, msg_is_request,
}
use mcpbridge.CLib.{c_string}
use mcpbridge.Dispatch.{
  build_backend_data, is_handshake_message, is_replay_safe_method, safe_methods, initialized_method,
  World, send_raw_with_newline, initialize_method, dispatch_new, send_error, code_upstream_failed,
}
use mcpbridge.Dispatch.Upstream.{dispatch_on_upstream}
use mcpbridge.Dispatch.Child.{dispatch_on_child}
use mcpbridge.Dispatch.Posts.{
  reset_answer, to_agent, to_child, handshake_posts, list_changed_posts, queue_posts,
  timeout_answers,
}
use mcpbridge.Bridge.Effects.{performed, Effect, post, ack, stop, start, posts, acks, HasRecovered}
use mcpbridge.Dispatch.Recovery.{drain_from}
use mcpbridge.Dispatch.Settling.{child_all, AllResponses}
use mcpbridge.Dispatch.Tests.{call, ping, toy_json, opened, pong, called}
use mcpbridge.Dispatch.Tracking.{Tracked}
use mcpbridge.Mcp.Reader.{live_bytes, split_newline}
use mcpbridge.Daemon.{
  DaemonJson, DaemonClient, DaemonEnvelope, blank_envelope, would_block, line_event, envelope_event,
  json_u64, json_bool,
}
use mcpbridge.Daemon.Hidden.{IsUnreadable, try_read-hidden_reload}
use mcpbridge.Daemon.Drain.{drain_client}
use mcpbridge.Transport.{SendOutcome, sent, send_failed, estale, etimedout}
use mcpbridge.Bridge.{
  Outside, Loop, sink_with, sink_send_child, sink_send_upstream, emit_at, main_sink, reset_backoff,
}
use mcpbridge.Bridge.Handlers.{perform_swap, daemon_reload, child_oversized, event, reload}
use mcpbridge.Bridge.Depth.{emit_at-bounded}
use mcpbridge.Bridge.Invariant.{
  Input, agent_sent, child_gone, swap, daemon_sent, react_all, react_all-Tracked,
}
use mcpbridge.Bridge.Reload.{reload-cycle, reload-waits}
use mcpbridge.Bridge.Stale.{stale-recovered}
use mcpbridge.Bridge.Refused.{stale-refused}
use mcpbridge.Bridge.Unreachable.{unreachable-answered}
use mcpbridge.Bridge.Early.{early_reload-acknowledged, initialize-answered_twice}
use mcpbridge.Bridge.Backoff.{attempts, delay_after, attempts-delay}

-- Everything succeeds and is noted.
abbrev log : Outside (List Effect)
log = record {
  transport_send = λ e b. (e ++ post (to_child b) ∷ [], sent);
  transport_start = λ e. (e ++ start ∷ [], true);
  transport_stop = λ e. e ++ stop ∷ [];
  write_stdout = λ e b. (e ++ post (to_agent b) ∷ [], true);
  send_reload_ack = λ e n. e ++ ack n ∷ [];
}

abbrev quiet_loop : Loop (List Effect)
quiet_loop = record {
  env = [];
  daemon_connected = true;
  pending_reload_seq = 0;
  autonomous_cycle = false;
  next_reconnect_at = 0;
  backoff_ms = 0;
  exit_requested = false;
}

abbrev session : State → World (Loop (List Effect))
session st = record { host = quiet_loop; fsm = st; dispatch = opened }

abbrev first_session : World (Loop (List Effect))
first_session = record { host = quiet_loop; fsm = starting; dispatch = dispatch_new }

abbrev hello : Msg
hello = record {
  kind = request;
  id = int (pos 1);
  method = some (codes "initialize");
  raw = codes "h";
  is_error = false;
}

abbrev round : List Input
round = agent_sent (codes "p") ∷ daemon_sent (event (reload 7) ∷ []) ∷ swap ∷ child_gone ∷ []

react_all-Tracked_example : Tracked (react_all toy_json log (session running) round).dispatch
react_all-Tracked_example = react_all-Tracked toy_json log (session running) round (omega arith)

emit_at-bounded_example :
    emit_at log 5 (session draining) in_flight_zero
    ≡ emit_at log 2 (session draining) in_flight_zero
emit_at-bounded_example = emit_at-bounded log 3 (session draining) in_flight_zero

attempts-delay_example :
    ((attempts quiet_loop (10 ∷ 20 ∷ 30 ∷ [])).backoff_ms ≡ 4000)
    × ((attempts quiet_loop (10 ∷ 20 ∷ 30 ∷ [])).next_reconnect_at ≡ 4030)
unfolding delay_after reset_backoff
attempts-delay_example = attempts-delay quiet_loop (10 ∷ 20 ∷ []) 30

-- What the wrapper writes in a swap of the session whose cached messages are "i" and "n".
abbrev swap_log : List Effect
swap_log =
    post (to_child (codes "i\n"))
    ∷ post (to_child (codes "n\n"))
    ∷ post
        (to_agent (codes "{\"jsonrpc\":\"2.0\",\"method\":\"notifications/tools/list_changed\"}\n"))
    ∷ post (
        to_agent
          (codes "{\"jsonrpc\":\"2.0\",\"method\":\"notifications/prompts/list_changed\"}\n"))
    ∷ post (
        to_agent
          (codes "{\"jsonrpc\":\"2.0\",\"method\":\"notifications/resources/list_changed\"}\n"))
    ∷ []

abbrev waiting_two : World (Loop (List Effect))
waiting_two = record (session running) {
  dispatch = record opened { queue = codes "a" ∷ codes "b" ∷ [] };
}

reload-cycle_example :
    HasRecovered log
      (stop
        ∷ start
        ∷ (swap_log ++ post (to_child (codes "a\n")) ∷ post (to_child (codes "b\n")) ∷ ack 7 ∷ []))
      waiting_two.dispatch
      []
      (dispatch_on_child
        (main_sink log)
        (perform_swap toy_json log (daemon_reload toy_json log waiting_two 7)).0
        pong)
unfolding posts handshake_posts list_changed_posts queue_posts acks
reload-cycle_example =
    reload-cycle toy_json log waiting_two 7 (codes "i") pong refl refl (λ q. cc)
      (record { none_listed = refl; none_counted = refl; no_replay = refl }) refl refl refl refl
      refl

abbrev busy : World (Loop (List Effect))
busy = record (session running) {
  dispatch = record opened { inflight = int (pos 1) ∷ int (pos 2) ∷ []; in_flight = 2 };
}

reload-waits_example :
    ((daemon_reload toy_json log busy 7).fsm ≡ draining)
    × ((child_all (main_sink log) (daemon_reload toy_json log busy 7) (called ∷ [])).fsm ≡ draining)
    × ((child_all (main_sink log) (daemon_reload toy_json log busy 7) (called ∷ pong ∷ [])).fsm
        ≡ swapping)
unfolding AllResponses
reload-waits_example =
    reload-waits toy_json log busy 7 (called ∷ []) pong refl refl (λ q. cc)
      (record { is_initialized = refl; no_replay = refl }) (refl, (refl, tt)) refl

early_reload-acknowledged_example :
    ((dispatch_on_child (main_sink log) (daemon_reload toy_json log first_session 7) pong).fsm
      ≡ running)
    × ((dispatch_on_child
          (main_sink log)
          (daemon_reload toy_json log first_session 7)
          pong).host.env
        ≡ post (to_agent (codes "r\n")) ∷ ack 7 ∷ [])
unfolding dispatch_new drain_from send_raw_with_newline main_sink sink_with sink_send_upstream
early_reload-acknowledged_example =
    early_reload-acknowledged toy_json log first_session 7 pong refl refl (λ q. cc) refl refl refl
      refl refl

initialize-answered_twice_example :
    (let ready =
        dispatch_on_child
          (main_sink log)
          (dispatch_on_upstream toy_json (main_sink log) first_session hello)
          pong in
      (ready.dispatch.in_flight ≡ 0)
      × ((child_oversized toy_json log ready (codes "big")).host
          ≡ send_error toy_json
              (main_sink log)
              ready.host
              (int (pos 1))
              code_upstream_failed
              (codes "big")
              none))
unfolding send_raw_with_newline main_sink sink_with sink_send_child msg_is_request bytes_eq c_string
    initialize_method
initialize-answered_twice_example =
    initialize-answered_twice toy_json log first_session hello pong (codes "big") refl refl refl
      refl refl refl refl

-- The first send meets a stale session, the later ones succeed.
abbrev first_is_stale : List Effect → SendOutcome
first_is_stale [] = send_failed estale
first_is_stale (_ ∷ _) = sent

abbrev stale_log : Outside (List Effect)
stale_log = record log { transport_send = λ e b. (e ++ post (to_child b) ∷ [], first_is_stale e) }

stale-recovered_example :
    HasRecovered stale_log
      (post (to_child (codes "p\n"))
        ∷ stop
        ∷ start
        ∷ (swap_log
            ++ post (to_child (codes "a\n"))
              ∷ post (to_child (codes "b\n"))
              ∷ post (to_child (codes "p\n"))
              ∷ []))
      waiting_two.dispatch
      []
      (dispatch_on_child
        (main_sink stale_log)
        (perform_swap toy_json stale_log
          (dispatch_on_upstream toy_json (main_sink stale_log) waiting_two ping)).0
        pong)
unfolding msg_is_request msg_is_notification bytes_eq c_string is_handshake_message
    initialize_method is_replay_safe_method safe_methods initialized_method posts handshake_posts
    list_changed_posts queue_posts
stale-recovered_example =
    stale-recovered toy_json stale_log waiting_two ping pong (codes "i") refl refl
      (record { none_listed = refl; none_counted = refl; no_replay = refl }) refl refl refl refl
      refl refl refl refl refl

stale-refused_example :
    HasRecovered stale_log
      (post (to_child (codes "c\n"))
        ∷ post (to_agent (codes "mcpbridge: upstream session reset during call; please retry\n"))
        ∷ stop
        ∷ start
        ∷ (swap_log ++ post (to_child (codes "a\n")) ∷ post (to_child (codes "b\n")) ∷ []))
      waiting_two.dispatch
      []
      (dispatch_on_child
        (main_sink stale_log)
        (perform_swap toy_json stale_log
          (dispatch_on_upstream toy_json (main_sink stale_log) waiting_two call)).0
        pong)
unfolding msg_is_request msg_is_notification bytes_eq c_string is_handshake_message
    initialize_method is_replay_safe_method safe_methods initialized_method posts handshake_posts
    list_changed_posts queue_posts reset_answer build_error_response error_envelope performed
stale-refused_example =
    stale-refused toy_json stale_log waiting_two call pong (codes "i") refl refl
      (record { none_listed = refl; none_counted = refl; no_replay = refl }) refl refl refl refl
      refl refl refl refl refl

abbrev lost_log : Outside (List Effect)
lost_log = record log {
  transport_send = λ e b. (e ++ post (to_child b) ∷ [], send_failed etimedout);
}

-- A request, a notification and a line that is no message.
abbrev mixed_queue : List Bytes
mixed_queue = codes "{\"id\":1,\"method\":\"x\"}" ∷ codes "{\"method\":\"x\"}" ∷ codes "x" ∷ []

abbrev swapping_queue : World (Loop (List Effect))
swapping_queue = record (session swapping) { dispatch = record opened { queue = mixed_queue } }

-- The request alone is answered.
mixed_answers :
    timeout_answers toy_json swapping_queue.dispatch mixed_queue
    ≡ to_agent (codes "mcpbridge: upstream unreachable past timeout during reinit\n") ∷ []
unfolding timeout_answers msg_parse scan_envelope no_fields scan_any scan_string scan_number
    scan_literal scan_key_is bytes_eq c_string open_container separator classify_envelope
    build_error_response error_envelope build_backend_data
mixed_answers = refl

unreachable-answered_example :
    HasRecovered lost_log
      (stop
        ∷ start
        ∷ post (to_child (codes "i\n"))
        ∷ (posts (timeout_answers toy_json swapping_queue.dispatch mixed_queue) ++ []))
      swapping_queue.dispatch
      []
      (perform_swap toy_json lost_log swapping_queue).0
    × ((perform_swap toy_json lost_log swapping_queue).1 ≡ true)
unfolding acks
unreachable-answered_example =
    unreachable-answered toy_json lost_log swapping_queue (codes "i") refl
      (record { none_listed = refl; none_counted = refl; no_replay = refl }) refl refl refl

-- Documents of the daemon: an array, which has no type, and a reload with the number 7.
data Node : Type 0 where
  array document number_seven : Node
  text : Bytes → Node

abbrev member : Node → Bytes → Option Node
member document key =
    if bytes_eq key (codes "t")
    then some (text (codes "reload"))
    else if bytes_eq key (codes "seq")
    then some number_seven
    else none
member _ key = none

abbrev seven_reloads : DaemonJson Node ℕ
seven_reloads = record {
  parse_with_length =
      λ l. elim l [ [] ↦ none | (ch ∷ _) ↦ some (if ch == b'{' then document else array) ];
  get_object_item = member;
  string_value = λ n. elim n [ text t ↦ some t | _ ↦ none ];
  number_value = λ n. elim n [ number_seven ↦ some 7 | _ ↦ none ];
  is_true = λ _. false;
  create_object = document;
  add_string_to_object = λ n _ _. n;
  add_number_to_object = λ n _ _. n;
  print_unformatted = λ _. none;
  is_negative = λ _. false;
  uint64_of_double = λ n. n;
  double_of_uint64 = λ n. n;
  double_of_pid = λ _. 0;
}

-- An array and an envelope are in the buffer.
abbrev buffered : DaemonClient
buffered = record {
  reader = record {
    stored = codes "[]\n{}\n";
    cap = 8;
    head = 0;
    max = 100;
    dropping = false;
    overflow_pending = false;
  };
  next_seq = 3;
}

abbrev seven : DaemonEnvelope
seven = record blank_envelope { kind = reload 7; seq = 7 }

seven_read : line_event seven_reloads (codes "{}") ≡ (event (reload 7), seven)
unfolding line_event envelope_event json_u64 json_bool bytes_eq
seven_read = refl

array-IsUnreadable : IsUnreadable seven_reloads (codes "[]")
unfolding IsUnreadable
array-IsUnreadable = inr (array, refl, inl refl)

try_read-hidden_reload_example :
    (dc' : DaemonClient) × (dc'' : DaemonClient) × (drain_client seven_reloads toy_json log
        (session running)
        buffered
        (would_block ∷ [])
      ≡ (session running, dc', true))
    × (live_bytes dc'.reader ≡ codes "{}\n")
    × (drain_client seven_reloads toy_json log (session running) dc' (would_block ∷ [])
        ≡ drain_client seven_reloads toy_json log
            (daemon_reload toy_json log (session running) 7)
            dc''
            [])
    × (live_bytes dc''.reader ≡ [])
unfolding split_newline
try_read-hidden_reload_example =
    try_read-hidden_reload seven_reloads toy_json log (session running) (session running) buffered
      would_block would_block [] [] (codes "[]") (codes "{}") [] 7 seven
      (record {
        hard_fits = omega arith;
        cap_pos = omega arith;
        cap_le_hard = omega arith;
        len_le_cap = omega arith;
        head_le_len = omega arith;
      })
      refl refl refl array-IsUnreadable seven_read
