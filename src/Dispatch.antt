-- ===== src/Dispatch.antt =====
-- wrapper/src/dispatch.h and wrapper/src/dispatch.c: the state of the dispatch layer, its sink, and
-- the helpers that its operations share. The lists with head and tail pointers are lists here; what
-- is logged or freed has no counterpart. A pointer that may be NULL is an option, and the guards
-- against a NULL `d`, `m` or `raw` have nothing to test.
pub mod Upstream
pub mod Child
pub mod Recovery
pub mod Tracking
pub mod Forwarding
pub mod Settling
pub mod Tests
pub mod Replay
pub mod Posts
use mcpbridge.Base.{
  ℕ, ◌+◌, ◌-◌, Bytes, codes, bytes_eq, Bool, true, false, ◌&&◌, ◌||◌, Option, none, some, List, [],
  ◌∷◌, ◌++◌, ltb, ◌==◌, if◌then◌else◌,
}
use mcpbridge.Base.Int.{ℤ, negsuc}
use mcpbridge.CLib.{strcmp_eq}
use mcpbridge.Fsm.{State, running, Event}
use mcpbridge.Mcp.Build.{newline, build_error_response}
use mcpbridge.Mcp.CJson.{CJson}
use mcpbridge.Mcp.Message.{
  McpId, id_eq, Kind, kind_is_request, Msg, msg_is_request, msg_is_notification,
}

-- DISPATCH_SEND_*
pub data SendCode : Type 0 where
  ok stale fatal timeout upstream_error : SendCode

-- `struct dispatch` without the pointers to the FSM and the sink.
pub record Dispatch : Type 0 where
  pub inflight : List McpId
  pub in_flight : ℕ
  pub initialized : Bool
  pub replay_pending : Bool
  pub cached_init_req : Option Bytes
  pub cached_initialized_notif : Option Bytes
  pub queue : List Bytes
  pub backend_name : Option Bytes
  pub backend_url : Option Bytes

-- What the operations act on: the sink's context, the FSM and the dispatch object.
pub record World (H : Type 0) : Type 0 where
  pub host : H
  pub fsm : State
  pub dispatch : Dispatch

-- `struct dispatch_sink`. Sending touches neither the FSM nor the dispatch object; an event may
-- come back to both.
pub record Sink (H : Type 0) : Type 0 where
  pub send_upstream : H → Bytes → H
  pub send_child : H → Bytes → H × SendCode
  pub emit_event : World H → Event → World H

unfoldable pub send_raw_with_newline : {H : Type 0} → Sink H → Bool → H → Bytes → H × SendCode
send_raw_with_newline s to_child h bytes =
    let scratch = bytes ++ newline in
    if to_child then s.send_child h scratch else (s.send_upstream h scratch, ok)

unfoldable pub enqueue : Dispatch → Bytes → Dispatch
enqueue d bytes = record d { queue = d.queue ++ bytes ∷ [] }

unfoldable pub inflight_push : Dispatch → McpId → Dispatch
inflight_push d id = record d { inflight = d.inflight ++ id ∷ []; in_flight = d.in_flight + 1 }

-- The list without its first entry that matches, if one does.
unfoldable pub remove_first : McpId → List McpId → Option (List McpId)
remove_first id [] = none
remove_first id (r ∷ rs) =
    let later = remove_first id rs in
    if id_eq r id then some rs else elim later [ none ↦ none | some rs' ↦ some (r ∷ rs') ]

-- `if (d->in_flight > 0) d->in_flight--`
abbrev pub decrement : ℕ → ℕ
decrement n = if ltb 0 n then n - 1 else n

-- The result is whether an entry was removed.
unfoldable pub inflight_remove : Dispatch → McpId → Bool × Dispatch
inflight_remove d id = elim (remove_first id d.inflight) [
  | none ↦ (false, d)
  | some rest ↦ (true, record d { inflight = rest; in_flight = decrement d.in_flight })
]

unfoldable pub inflight_clear : Dispatch → Dispatch
inflight_clear d = record d { inflight = []; in_flight = 0 }

-- `dispatch_new`
unfoldable pub dispatch_new : Dispatch
dispatch_new = record {
  inflight = [];
  in_flight = 0;
  initialized = false;
  replay_pending = false;
  cached_init_req = none;
  cached_initialized_notif = none;
  queue = [];
  backend_name = none;
  backend_url = none;
}

unfoldable pub dispatch_set_backend_id : Dispatch → Option Bytes → Option Bytes → Dispatch
dispatch_set_backend_id d name url = record d { backend_name = name; backend_url = url }

unfoldable pub initialize_method : Bytes
initialize_method = codes "initialize"

unfoldable pub initialized_method : Bytes
initialized_method = codes "notifications/initialized"

unfoldable pub safe_methods : List Bytes
safe_methods =
    initialize_method
    ∷ initialized_method
    ∷ codes "ping"
    ∷ codes "tools/list"
    ∷ codes "prompts/list"
    ∷ codes "prompts/get"
    ∷ codes "resources/list"
    ∷ codes "resources/read"
    ∷ codes "resources/templates/list"
    ∷ codes "resources/subscribe"
    ∷ codes "resources/unsubscribe"
    ∷ codes "roots/list"
    ∷ codes "logging/setLevel"
    ∷ codes "completion/complete"
    ∷ []

unfoldable pub one_of : Bytes → List Bytes → Bool
one_of m [] = false
one_of m (x ∷ xs) = strcmp_eq m x || one_of m xs

unfoldable pub is_replay_safe_method : Option Bytes → Bool
unfolding one_of
is_replay_safe_method none = false
is_replay_safe_method (some m) = one_of m safe_methods

unfoldable pub is_handshake_message : Msg → Bool
is_handshake_message m =
    msg_is_request m initialize_method || msg_is_notification m initialized_method

-- The codes and messages of the errors that the wrapper writes itself.
abbrev pub code_timeout : ℤ
code_timeout = negsuc 32000

abbrev pub code_session_reset : ℤ
code_session_reset = negsuc 32001

abbrev pub code_upstream_failed : ℤ
code_upstream_failed = negsuc 32002

unfoldable pub timeout_message : Bytes
timeout_message = codes "mcpbridge: upstream unreachable past timeout"

unfoldable pub upstream_failed_message : Bytes
upstream_failed_message = codes "mcpbridge: upstream request failed"

unfoldable pub session_reset_message : Bytes
session_reset_message = codes "mcpbridge: upstream session reset during call; please retry"

unfoldable pub cycled_message : Bytes
cycled_message = codes "mcpbridge: backend cycled during call; please retry"

unfoldable pub reinit_timeout_message : Bytes
reinit_timeout_message = codes "mcpbridge: upstream unreachable past timeout during reinit"

unfoldable pub reinit_failed_message : Bytes
reinit_failed_message = codes "mcpbridge: upstream request failed during reinit"

abbrev pub is_running : State → Bool
is_running running = true
is_running _ = false

abbrev not_both_null : Option Bytes → Option Bytes → Bool
not_both_null none none = false
not_both_null _ _ = true

module _ {J D : Type 0} (cj : CJson J D) where
  -- A string member, where it is present and not empty.
  abbrev add_present : J → Bytes → Option Bytes → J
  add_present backend key none = backend
  add_present backend key (some []) = backend
  add_present backend key (some text) = cj.add_string_to_object backend key text

  unfoldable pub build_backend_data : Dispatch → Option J
  build_backend_data d =
      let named = add_present cj.create_object (codes "name") d.backend_name in
      let backend = add_present named (codes "url") d.backend_url in
      if not_both_null d.backend_name d.backend_url
      then if cj.get_array_size backend == 0
        then none
        else some (cj.add_item_to_object cj.create_object (codes "backend") backend)
      else none

  -- `mcp_build_error_response` and, unless it returns NULL, the write to the agent.
  unfoldable pub send_error : {H : Type 0} → Sink H → H → McpId → ℤ → Bytes → Option J → H
  send_error s h id code message extra = elim (build_error_response cj id code message extra) [
    | none ↦ h
    | some err ↦ s.send_upstream h err
  ]
